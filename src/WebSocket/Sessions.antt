-- ===== src/WebSocket/Sessions.antt =====
-- The socket server as a table of sessions: whatever the order of the calls of
-- src/websocket/websocket_server.cpp, which socket stands under which id is that of a table to which
-- a change is made for each call.
use tiny_lobby_tests.Prelude.{
  ℕ, Bool, true, false, String, Option, none, some, List, [], ◌∷◌, ◌≡◌, refl, ◌∙◌, ◌==◌,
  if◌then◌else◌,
}
use tiny_lobby_tests.FlatMap
use tiny_lobby_tests.FlatSet
use tiny_lobby_tests.Game.{OpCode, text_frame, close_frame}
use tiny_lobby_tests.WebSocket.{WebSocketServer, Env}
use tiny_lobby_tests.WebSocket.Handlers.{
  is_socket, on_open, on_message, on_close, send, send_all, clear_users, reconnection_of,
}
use tiny_lobby_tests.WebSocket.Links.{Entries, IsLinked, at_socket, Unlinks-IsLinked}
use tiny_lobby_tests.WebSocket.Closing.{on_close-Unlinks, on_close-sockets}
use tiny_lobby_tests.WebSocket.Opening.{holder, holder-at_socket, IsFresh}
use tiny_lobby_tests.WebSocket.Admission.{admitted, changed, on_open-Opens}
use tiny_lobby_tests.WebSocket.Dropping.{
  send_close-Drops, send_each_close-Drops, send_each_text-Drops, send_text-Drops, clear_users-Drops,
  losers, on_message-Drops,
}

-- The calls of the server, by the socket library and by the game thread.
pub data Event : Type 0 where
  opened : Env → ℕ → Event
  received : Env → ℕ → String → Event
  closed : Env → ℕ → String → Event
  told : Env → String → String → OpCode → Event
  told_all : Env → String → OpCode → Event
  cleared : Env → List String → Event

unfoldable pub step : Event → WebSocketServer → WebSocketServer
step (opened env ws) s = on_open env ws s
step (received env ws message) s = on_message env ws message s
step (closed env ws message) s = on_close env ws message s
step (told env id message op) s = send env id message op s
step (told_all env message op) s = send_all env message op s
step (cleared env ids) s = clear_users env ids s

-- The table: the socket under each id.
abbrev pub Table : Type 0
Table = String → Option ℕ

pub data Change : Type 0 where
  taken : String → ℕ → Change
  dropped : List String → Change
  left : ℕ → Change

abbrev pub apply : Change → Table → Table
apply (taken id ws) table j = if id == j then some ws else table j
apply (dropped ids) table j = if FlatSet.contains j ids then none else table j
apply (left ws) table j = if is_socket (table j) ws then none else table j

-- A socket that is entered takes its id, if the game thread can be told, and one that is refused
-- changes nothing.
abbrev pub opening : Bool → ℕ → Option String → Change
opening accepts ws none = dropped []
opening accepts ws (some id) = if accepts then taken id ws else dropped (id ∷ [])

-- The change that a call makes.
abbrev pub change : Event → WebSocketServer → Change
change (opened env ws) s =
    opening env.accepts ws
      (admitted env (s.sockets ws) (reconnection_of (s.sockets ws) s) s.connection_data)
change (received env ws message) s = dropped (losers env ws s)
change (closed env ws message) s = left ws
change (told env id message close_frame) s = dropped (id ∷ [])
change (told env id message text_frame) s = dropped []
change (told_all env message close_frame) s = dropped (FlatMap.keys s.connection_data)
change (told_all env message text_frame) s = dropped []
change (cleared env ids) s = dropped ids

-- A socket is opened while no entry points to it.
abbrev pub IsOrderly : Event → WebSocketServer → Type 0
IsOrderly (opened env ws) s = IsFresh s.connection_data ws
IsOrderly _ s = Unit {0}

abbrev pub Refines : Change → WebSocketServer → WebSocketServer → Type 0
Refines c s t =
    ((j : String) → holder t.connection_data j ≡ apply c (holder s.connection_data) j)
    × IsLinked t.connection_data t.sockets

opening_at :
    (accepts same : Bool) (ws : ℕ) (h : Option ℕ) (id j : String)
    → (id == j) ≡ same
    → (h' : Table) → h' j ≡ h
    → (if same then (if accepts then some ws else none) else h)
      ≡ apply (if accepts then taken id ws else dropped (id ∷ [])) h' j
unfolding FlatSet.contains
opening_at true same ws h id j e h' q = rw (e, q) refl
opening_at false true ws h id j e h' q = rw e refl
opening_at false false ws h id j e h' q = rw (e, q) refl

opening_lem :
    (env : Env) (ws : ℕ) (o : Option String) (entries : Entries) (j : String)
    → changed env ws o entries j ≡ apply (opening env.accepts ws o) (holder entries) j
unfolding FlatSet.contains
opening_lem env ws none entries j = refl
opening_lem env ws (some id) entries j =
    opening_at env.accepts (id == j) ws (holder entries j) id j refl (holder entries) refl

pub step-Refines :
    (e : Event) (s : WebSocketServer)
    → IsLinked s.connection_data s.sockets
    → IsOrderly e s
    → Refines (change e s) s (step e s)
unfolding step send_all
step-Refines (opened env ws) s linked fresh =
    let opens = on_open-Opens env ws s linked fresh in
    (λ j. opens.0 j ∙ opening_lem env ws _ s.connection_data j, opens.1)
step-Refines (received env ws message) s linked fresh = on_message-Drops env ws message s linked
step-Refines (closed env ws message) s linked fresh =
    let unlinks = on_close-Unlinks env ws message s linked in
    (
      holder-at_socket s.connection_data (on_close env ws message s).connection_data true ws
          unlinks,
      rw (on_close-sockets env ws message s) (
          Unlinks-IsLinked (at_socket ws) s.connection_data
            (on_close env ws message s).connection_data s.sockets unlinks linked),
    )
step-Refines (told env id message close_frame) s linked fresh =
    send_close-Drops env id message s linked
step-Refines (told env id message text_frame) s linked fresh =
    send_text-Drops env id message s linked
step-Refines (told_all env message close_frame) s linked fresh =
    send_each_close-Drops env (FlatMap.keys s.connection_data) message s linked
step-Refines (told_all env message text_frame) s linked fresh =
    send_each_text-Drops env (FlatMap.keys s.connection_data) message s linked
step-Refines (cleared env ids) s linked fresh = clear_users-Drops env ids s linked
