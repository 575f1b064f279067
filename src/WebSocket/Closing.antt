-- ===== src/WebSocket/Closing.antt =====
-- How closing a socket and sending change the entries of `connection_data`: on_close and send of
-- src/websocket/websocket_server.cpp.
use tiny_lobby_tests.Prelude.{
  ℕ, Bool, true, false, ◌&&◌, String, Option, none, some, ◌≡◌, refl, sym, ap, ◌∙◌, arith,
  Bool-cases, Option-cases, inl, inr, ne_of_test, eq_of_test, ◌==◌, if◌then◌else◌,
}
use tiny_lobby_tests.FlatMap.{FlatMap, find-adjust, find-insert, find-erase, map_some}
use tiny_lobby_tests.FlatMap
use tiny_lobby_tests.Game.{OpCode, text_frame, close_frame}
use tiny_lobby_tests.WebSocket.{PeerConnectionData, WebSocketServer, Env, ended}
use tiny_lobby_tests.WebSocket.Handlers.{
  unlink, is_socket, on_close, end_socket, send_on, send_to, send, socket_of, hand,
}
use tiny_lobby_tests.WebSocket.Links.{
  Entries, Sockets, IsLinked, is_socket_eq, find-unlink_own, unlink_when, Unlinks, unlink-eq,
  map_some_self, at_id, at_socket, Unlinks-never,
}

pub on_close-Unlinks :
    (env : Env) (ws : ℕ) (message : String) (s : WebSocketServer)
    → IsLinked s.connection_data s.sockets
    → Unlinks (at_socket ws) s.connection_data (on_close env ws message s).connection_data
unfolding on_close
on_close-Unlinks env ws message s linked j =
    ground (arith, find-unlink_own s.connection_data s.sockets linked ws j)

pub on_close-sockets :
    (env : Env) (ws : ℕ) (message : String) (s : WebSocketServer)
    → (on_close env ws message s).sockets ≡ s.sockets
unfolding on_close
on_close-sockets env ws message s = ground arith

pub end_socket-sockets :
    (env : Env) (ws code : ℕ) (message : String) (s : WebSocketServer)
    → (end_socket env ws code message s).sockets ≡ s.sockets
unfolding end_socket
end_socket-sockets env ws code message s =
    elim env.closes_at_once
      as (λ b.
        (if b
          then on_close env ws message (hand (ended ws code message) s)
          else hand (ended ws code message) s).sockets
        ≡ s.sockets) [
          | true ↦ on_close-sockets env ws message (hand (ended ws code message) s)
          | false ↦ refl
        ]

pub end_socket-Unlinks :
    (env : Env) (ws code : ℕ) (message : String) (s : WebSocketServer)
    → IsLinked s.connection_data s.sockets
    → Unlinks
        (λ j c. env.closes_at_once && is_socket c.ws ws)
        s.connection_data
        (end_socket env ws code message s).connection_data
unfolding end_socket
end_socket-Unlinks env ws code message s linked j =
    elim env.closes_at_once
      as (λ b.
        FlatMap.find j
          (if b
            then on_close env ws message (hand (ended ws code message) s)
            else hand (ended ws code message) s).connection_data
        ≡ map_some (unlink_when (λ i c. b && is_socket c.ws ws) j)
            (FlatMap.find j s.connection_data)) [
              | true ↦ on_close-Unlinks env ws message (hand (ended ws code message) s) linked j
              | false ↦ Unlinks-never s.connection_data j
            ]

pub socket-id :
    (entries : Entries) (sockets : Sockets) (id : String) (ws : ℕ)
    → IsLinked entries sockets
    → socket_of (FlatMap.find id entries) ≡ some ws
    → (sockets ws).id ≡ id
socket-id entries sockets id ws linked held = elim (Option-cases (FlatMap.find id entries)) [
  | inl e ↦ cc (rw e at held)
  | inr (c, e) ↦ (linked id c ws e (rw e at held)).0
]

-- No entry but that of `id` has its socket.
other_entry :
    (entries : Entries) (sockets : Sockets) (id : String) (ws : ℕ) (b : Bool)
    → IsLinked entries sockets
    → socket_of (FlatMap.find id entries) ≡ some ws
    → (j : String) → (id == j) ≡ false
    → map_some (unlink_when (λ i c. b && is_socket c.ws ws) j) (FlatMap.find j entries)
      ≡ FlatMap.find j entries
other_entry entries sockets id ws b linked held j differ =
    map_some_self (FlatMap.find j entries) (unlink_when (λ i c. b && is_socket c.ws ws) j) λ c e.
      (elim (Bool-cases (is_socket c.ws ws)) [
        | inl own ↦ absurd (
            ne_of_test id j differ (
              sym (socket-id entries sockets id ws linked held)
              ∙ (linked j c ws e (is_socket_eq c.ws ws own)).0))
        | inr other ↦ ground (arith, other)
      ])

unlink_twice :
    (o : Option PeerConnectionData) (same : Bool) (test : PeerConnectionData → Bool)
    → (same ≡ false → map_some (λ c. if test c then unlink c else c) o ≡ o)
    → (if same
        then map_some unlink (map_some (λ c. if test c then unlink c else c) o)
        else map_some (λ c. if test c then unlink c else c) o)
      ≡ map_some (λ c. if same then unlink c else c) o
unlink_twice none true test h = refl
unlink_twice none false test h = refl
unlink_twice (some c) true test h = ground arith
unlink_twice (some c) false test h = h refl

adjust-Unlinks :
    (entries after : Entries) (sockets : Sockets) (id : String) (ws : ℕ) (b : Bool)
    → IsLinked entries sockets
    → socket_of (FlatMap.find id entries) ≡ some ws
    → Unlinks (λ i c. b && is_socket c.ws ws) entries after
    → Unlinks (at_id id) entries (FlatMap.adjust id unlink after)
adjust-Unlinks entries after sockets id ws b linked held unlinks j =
    find-adjust id j unlink after
    ∙ rw (unlinks j) (
        unlink_twice (FlatMap.find j entries) (id == j) (λ c. b && is_socket c.ws ws)
          (other_entry entries sockets id ws b linked held j))

send_on_close-Unlinks :
    (env : Env) (id message : String) (ws : ℕ) (s : WebSocketServer)
    → IsLinked s.connection_data s.sockets
    → socket_of (FlatMap.find id s.connection_data) ≡ some ws
    → Unlinks (at_id id) s.connection_data (send_on env id message close_frame ws s).connection_data
unfolding send_on
send_on_close-Unlinks env id message ws s linked held =
    adjust-Unlinks s.connection_data (end_socket env ws 1002 message s).connection_data s.sockets id
      ws env.closes_at_once linked held (end_socket-Unlinks env ws 1002 message s linked)

unlinked_entry :
    (o : Option PeerConnectionData) (same : Bool)
    → (same ≡ true → socket_of o ≡ none)
    → o ≡ map_some (λ c. if same then unlink c else c) o
unlinked_entry none same e = refl
unlinked_entry (some c) true e = rw (unlink-eq c (e refl)) refl
unlinked_entry (some c) false e = refl

pub send_no_socket :
    (env : Env) (id message : String) (op : OpCode) (s : WebSocketServer)
    → socket_of (FlatMap.find id s.connection_data) ≡ none
    → send env id message op s ≡ s
unfolding send
send_no_socket env id message op s e = rw e refl

pub send_close-Unlinks :
    (env : Env) (id message : String) (s : WebSocketServer)
    → IsLinked s.connection_data s.sockets
    → Unlinks (at_id id) s.connection_data (send env id message close_frame s).connection_data
unfolding send
send_close-Unlinks env id message s linked =
    elim (Option-cases (socket_of (FlatMap.find id s.connection_data))) [
      | inl e ↦ λ j.
          ap (λ (t : WebSocketServer). FlatMap.find j t.connection_data)
            (send_no_socket env id message close_frame s e)
          ∙ unlinked_entry (FlatMap.find j s.connection_data) (id == j) (λ same.
            ap (λ (k : String). socket_of (FlatMap.find k s.connection_data))
              (sym (eq_of_test id j same))
            ∙ e)
      | inr (ws, e) ↦ rw e (send_on_close-Unlinks env id message ws s linked e)
    ]

send_to-sockets :
    (env : Env) (id message : String) (op : OpCode) (o : Option ℕ) (s : WebSocketServer)
    → (send_to env id message op o s).sockets ≡ s.sockets
unfolding send_to
send_to-sockets env id message text_frame none s = refl
send_to-sockets env id message close_frame none s = refl
send_to-sockets env id message text_frame (some ws) s = refl
send_to-sockets env id message close_frame (some ws) s = end_socket-sockets env ws 1002 message s

pub send-sockets :
    (env : Env) (id message : String) (op : OpCode) (s : WebSocketServer)
    → (send env id message op s).sockets ≡ s.sockets
unfolding send
send-sockets env id message op s =
    send_to-sockets env id message op (socket_of (FlatMap.find id s.connection_data)) s

-- A text changes no entry.
send_to_text-entries :
    (env : Env) (id message : String) (o : Option ℕ) (s : WebSocketServer)
    → (send_to env id message text_frame o s).connection_data ≡ s.connection_data
unfolding send_to
send_to_text-entries env id message none s = refl
send_to_text-entries env id message (some ws) s = refl

pub send_text-entries :
    (env : Env) (id message : String) (s : WebSocketServer)
    → (send env id message text_frame s).connection_data ≡ s.connection_data
unfolding send
send_text-entries env id message s =
    send_to_text-entries env id message (socket_of (FlatMap.find id s.connection_data)) s
