-- ===== src/WebSocket/Opening.antt =====
-- How `on_open` of src/websocket/websocket_server.cpp changes which socket stands under which id.
use tiny_lobby_tests.Prelude.{
  ℕ, Bool, true, false, ◌&&◌, String, Option, none, some, ◌≡◌, ◌≢◌, refl, sym, ap, ◌∙◌, arith,
  Option-cases, inl, inr, eq_of_test, ◌==◌, eqb, if◌then◌else◌,
}
use tiny_lobby_tests.FlatMap.{find-insert, map_some}
use tiny_lobby_tests.FlatMap
use tiny_lobby_tests.WebSocket.{PerSocketData, PeerConnectionData, WebSocketServer, Env, set_data}
use tiny_lobby_tests.WebSocket.Handlers.{is_socket, socket_of, connection, link}
use tiny_lobby_tests.WebSocket.Links.{Entries, Sockets, IsLinked, Unlinks, at_id}

-- The socket that stands under an id: to it goes what is sent to the id.
abbrev pub holder : Entries → String → Option ℕ
holder entries id = socket_of (FlatMap.find id entries)

-- No entry has the socket.
abbrev pub IsFresh : Entries → ℕ → Type 0
IsFresh entries ws = (id : String) → holder entries id ≢ some ws

module _ (entries after : Entries) where
  pub holder-at_id :
      (id : String)
      → Unlinks (at_id id) entries after
      → (j : String) → holder after j ≡ (if id == j then none else holder entries j)
  holder-at_id id u j = rw (u j) (elim (Option-cases (FlatMap.find j entries)) [
    | inl e ↦ rw e (ground arith)
    | inr (c, e) ↦ rw e (ground arith)
  ])

  pub holder-at_socket :
      (b : Bool) (ws : ℕ)
      → Unlinks (λ i c. b && is_socket c.ws ws) entries after
      → (j : String)
      → holder after j ≡ (if b && is_socket (holder entries j) ws then none else holder entries j)
  holder-at_socket b ws u j = rw (u j) (elim (Option-cases (FlatMap.find j entries)) [
    | inl e ↦ rw e (ground arith)
    | inr (c, e) ↦ rw e (ground arith)
  ])

socket_if :
    (b : Bool) (c : PeerConnectionData) (o : Option PeerConnectionData)
    → socket_of (if b then some c else o) ≡ (if b then c.ws else socket_of o)
socket_if true c o = refl
socket_if false c o = refl

other_socket : (v ws : ℕ) → v ≢ ws → eqb v ws ≡ false
other_socket v ws differ = ground arith

pub link-holder :
    (env : Env) (ws : ℕ) (d : PerSocketData) (s : WebSocketServer) (j : String)
    → holder (link env ws d s).connection_data j
      ≡ (if d.id == j then some ws else holder s.connection_data j)
unfolding link
link-holder env ws d s j =
    ap (λ (o : Option PeerConnectionData). socket_of o)
      (find-insert d.id j (connection ws d) s.connection_data)
    ∙ socket_if (d.id == j) (connection ws d) (FlatMap.find j s.connection_data)

link_found :
    (d : PerSocketData) (ws : ℕ) (sockets : Sockets) (same : Bool) (id : String)
    (o : Option PeerConnectionData) (c : PeerConnectionData) (v : ℕ)
    → (same ≡ true → d.id ≡ id)
    → (o ≡ some c → ((sockets v).id ≡ id) × ((sockets v).reconnection_token ≡ c.reconnection_token))
    → (o ≡ some c → eqb v ws ≡ false)
    → (if same then some (connection ws d) else o) ≡ some c
    → c.ws ≡ some v
    → ((set_data ws (λ _. d) sockets v).id ≡ id)
      × ((set_data ws (λ _. d) sockets v).reconnection_token ≡ c.reconnection_token)
link_found d ws sockets true id o c v same old fresh e held =
    let own : eqb v ws ≡ true = ground arith in (rw own (same refl), rw own (ground arith))
link_found d ws sockets false id o c v same old fresh e held =
    let other : eqb v ws ≡ false = fresh e in rw other (old e)

pub link-IsLinked :
    (env : Env) (ws : ℕ) (d : PerSocketData) (s : WebSocketServer)
    → IsLinked s.connection_data s.sockets
    → IsFresh s.connection_data ws
    → IsLinked (link env ws d s).connection_data (link env ws d s).sockets
unfolding link
link-IsLinked env ws d s linked fresh id c v e held =
    link_found d ws s.sockets (d.id == id) id (FlatMap.find id s.connection_data) c v
      (eq_of_test d.id id) (λ found. linked id c v found held)
      (λ found. other_socket v ws (λ same. fresh id (
        ap (λ (o : Option PeerConnectionData). socket_of o) found
        ∙ held
        ∙ ap (λ (n : ℕ). some n) same)))
      (sym (find-insert d.id id (connection ws d) s.connection_data) ∙ e) held
