-- ===== src/WebSocket/Links.antt =====
-- Which socket stands under which id: what the handlers of the socket server do to the entries of
-- `connection_data`, where each socket that an entry points to has the entry's id and token.
use tiny_lobby_tests.Prelude.{
  ℕ, Bool, true, false, String, Option, none, some, ◌≡◌, refl, sym, ◌∙◌, arith, Bool-cases,
  Option-cases, inl, inr, eq_iff, beq_self, ◌==◌, if◌then◌else◌,
}
use tiny_lobby_tests.FlatMap.{FlatMap, find-adjust, find-insert, find-erase, map_some}
use tiny_lobby_tests.FlatMap
use tiny_lobby_tests.WebSocket.{PerSocketData, PeerConnectionData}
use tiny_lobby_tests.WebSocket.Handlers.{unlink, is_own, is_socket, unlink_own}

abbrev pub Entries : Type 0
Entries = FlatMap PeerConnectionData

abbrev pub Sockets : Type 0
Sockets = ℕ → PerSocketData

-- The socket of each entry has the entry's id and token.
abbrev pub IsLinked : Entries → Sockets → Type 0
IsLinked entries sockets =
    (id : String) (c : PeerConnectionData) (ws : ℕ)
    → FlatMap.find id entries ≡ some c
    → c.ws ≡ some ws
    → ((sockets ws).id ≡ id) × ((sockets ws).reconnection_token ≡ c.reconnection_token)

-- What closing a socket does to an entry.
abbrev pub forget : ℕ → PeerConnectionData → PeerConnectionData
forget ws c = if is_socket c.ws ws then unlink c else c

pub is_socket_self : (o : Option ℕ) (ws : ℕ) → o ≡ some ws → is_socket o ws ≡ true
is_socket_self none ws e = cc
is_socket_self (some v) ws e = ground arith

pub is_socket_eq : (o : Option ℕ) (ws : ℕ) → is_socket o ws ≡ true → o ≡ some ws
is_socket_eq none ws e = cc
is_socket_eq (some v) ws e = ground arith

abbrev unlink_if : PerSocketData → ℕ → PeerConnectionData → PeerConnectionData
unlink_if d ws c = if is_own d ws c then unlink c else c

find-unlink_own_found :
    (d : PerSocketData) (ws : ℕ) (entries : Entries) (c : PeerConnectionData) (j : String)
    → FlatMap.find d.id entries ≡ some c
    → FlatMap.find j (unlink_own d ws entries) ≡ (
        if d.id == j
        then map_some (unlink_if d ws) (FlatMap.find j entries)
        else FlatMap.find j entries)
unfolding unlink_own
find-unlink_own_found d ws entries c j e =
    rw (e, unlink_own) (ground (arith, find-adjust d.id j unlink entries, eq_iff d.id j, e))

find-unlink_own_test :
    (d : PerSocketData) (ws : ℕ) (entries : Entries) (j : String)
    → FlatMap.find j (unlink_own d ws entries) ≡ (
        if d.id == j
        then map_some (unlink_if d ws) (FlatMap.find j entries)
        else FlatMap.find j entries)
unfolding unlink_own
find-unlink_own_test d ws entries j = elim (Option-cases (FlatMap.find d.id entries)) [
  | inl e ↦ rw (e, unlink_own) (ground (arith, eq_iff d.id j, e))
  | inr (c, e) ↦ find-unlink_own_found d ws entries c j e
]

unlink_if-forget :
    (d : PerSocketData) (ws : ℕ) (c : PeerConnectionData) (j : String)
    → (c.ws ≡ some ws → (d.id ≡ j) × (d.reconnection_token ≡ c.reconnection_token))
    → (if d.id == j then unlink_if d ws c else c) ≡ forget ws c
unlink_if-forget d ws c j linked = elim (Bool-cases (is_socket c.ws ws)) [
  | inl own ↦
      let l = linked (is_socket_eq c.ws ws own) in
      rw (l.0, l.1, own, beq_self j, beq_self c.reconnection_token) refl
  | inr other ↦ ground (arith, other)
]

-- Where entries and sockets agree, the source's test of the id, the token and the pointer finds
-- every entry with the socket.
pub find-unlink_own :
    (entries : Entries) (sockets : Sockets)
    → IsLinked entries sockets
    → (ws : ℕ) (j : String)
    → FlatMap.find j (unlink_own (sockets ws) ws entries)
      ≡ map_some (forget ws) (FlatMap.find j entries)
find-unlink_own entries sockets linked ws j =
    find-unlink_own_test (sockets ws) ws entries j ∙ (elim (Option-cases (FlatMap.find j entries)) [
      | inl e ↦ rw e (ground arith)
      | inr (c, e) ↦ rw e (ground (arith, unlink_if-forget (sockets ws) ws c j (linked j c ws e)))
    ])

-- An entry loses its socket where the test says so; all else of the entries stays.
abbrev pub unlink_when :
    (String → PeerConnectionData → Bool) → String → PeerConnectionData → PeerConnectionData
unlink_when test j c = if test j c then unlink c else c

abbrev pub Unlinks : (String → PeerConnectionData → Bool) → Entries → Entries → Type 0
Unlinks test entries after =
    (j : String) → FlatMap.find j after ≡ map_some (unlink_when test j) (FlatMap.find j entries)

pub unlink-eq : (c : PeerConnectionData) → c.ws ≡ none → unlink c ≡ c
unlink-eq c e = ground arith

pub map_some_self :
    (o : Option PeerConnectionData) (f : PeerConnectionData → PeerConnectionData)
    → ((c : PeerConnectionData) → o ≡ some c → f c ≡ c)
    → map_some f o ≡ o
map_some_self none f h = refl
map_some_self (some c) f h = rw (h c refl) refl

map_some-forget :
    (o : Option PeerConnectionData) (ws : ℕ)
    → map_some unlink (map_some (forget ws) o) ≡ map_some unlink o
map_some-forget none ws = refl
map_some-forget (some c) ws = ground arith

abbrev pub never : String → PeerConnectionData → Bool
never j c = false

abbrev pub at_id : String → String → PeerConnectionData → Bool
at_id id j c = id == j

abbrev pub at_socket : ℕ → String → PeerConnectionData → Bool
at_socket ws j c = is_socket c.ws ws

pub Unlinks-never : (entries : Entries) → Unlinks never entries entries
Unlinks-never entries j =
    sym (map_some_self (FlatMap.find j entries) (unlink_when never j) (λ c e. refl))

-- What unlinks keeps the links.
unlinks_found :
    (o : Option PeerConnectionData) (test : PeerConnectionData → Bool) (c : PeerConnectionData)
    (ws : ℕ)
    → map_some (λ e. if test e then unlink e else e) o ≡ some c
    → c.ws ≡ some ws
    → o ≡ some c
unlinks_found none test c ws e held = cc
unlinks_found (some d) test c ws e held = ground arith

pub Unlinks-IsLinked :
    (test : String → PeerConnectionData → Bool) (entries after : Entries) (sockets : Sockets)
    → Unlinks test entries after
    → IsLinked entries sockets
    → IsLinked after sockets
Unlinks-IsLinked test entries after sockets unlinks linked id c ws e held =
    linked id c ws
      (unlinks_found (FlatMap.find id entries) (test id) c ws (sym (unlinks id) ∙ e) held) held
