-- ===== src/WebSocket/Handlers.antt =====
-- `send`, `send_all`, `clear_users`, `on_open`, `on_message`, `on_close` and the destructor of
-- src/websocket/websocket_server.cpp. The log is left out.
use Prim.Native.String
use tiny_lobby_tests.Prelude.{
  ℕ, ◌+◌, ◌*◌, Bool, false, not, ◌&&◌, String, Option, none, some, List, [], ◌∷◌, ◌++◌, ◌==◌, eqb,
  ltb, if◌then◌else◌,
}
use tiny_lobby_tests.Prelude.Int.{pos, ltb_ℤ}
use tiny_lobby_tests.FlatMap.{FlatMap}
use tiny_lobby_tests.FlatMap
use tiny_lobby_tests.Game.{OpCode, close_frame}
use tiny_lobby_tests.WebSocket.{
  PerSocketData, PeerConnectionData, ReconnectionTokens, WebSocketReceivedMessage, open_event,
  message_event, close_event, Frame, sent, ended, WebSocketServer, Env, increment, decrement,
  set_data,
}

abbrev pub rate_limit_window : ℕ
rate_limit_window = 1000

abbrev pub max_reconnection_time : ℕ
max_reconnection_time = 6 * 60 * 1000

-- connection.ws = nullptr
abbrev pub unlink : PeerConnectionData → PeerConnectionData
unlink c = record c { ws = none }

abbrev pub is_socket : Option ℕ → ℕ → Bool
is_socket none ws = false
is_socket (some v) ws = eqb v ws

abbrev pub put : Env → WebSocketReceivedMessage → WebSocketServer → WebSocketServer
put env m s = if env.accepts then record s { receive_queue = s.receive_queue ++ m ∷ [] } else s

-- The entry of the socket's user, if it is the socket's.
abbrev pub is_own : PerSocketData → ℕ → PeerConnectionData → Bool
is_own d ws c = d.reconnection_token == c.reconnection_token && is_socket c.ws ws

unfoldable pub unlink_own :
    PerSocketData → ℕ → FlatMap PeerConnectionData → FlatMap PeerConnectionData
unlink_own d ws connections = elim (FlatMap.find d.id connections) [
  | none ↦ connections
  | some c ↦ if is_own d ws c then FlatMap.adjust d.id unlink connections else connections
]

unfoldable pub on_close : Env → ℕ → String → WebSocketServer → WebSocketServer
unfolding unlink_own
on_close env ws message s =
    let d = s.sockets ws in
    put env
      (record {
        id = d.id;
        event = close_event;
        message = message;
        game_id = d.game_id;
        reconnection_token = d.reconnection_token;
        platform = "anon";
        name = "";
        platform_id = "";
      })
      (record s {
        connection_data = unlink_own d ws s.connection_data;
        connected_users = decrement s.connected_users;
      })

abbrev pub hand : Frame → WebSocketServer → WebSocketServer
hand frame s = record s { frames = s.frames ++ frame ∷ [] }

-- ws->end(code, message)
unfoldable pub end_socket : Env → ℕ → ℕ → String → WebSocketServer → WebSocketServer
end_socket env ws code message s =
    if env.closes_at_once
    then on_close env ws message (hand (ended ws code message) s)
    else hand (ended ws code message) s

-- What `send` does for an entry whose socket is `ws`.
unfoldable pub send_on : Env → String → String → OpCode → ℕ → WebSocketServer → WebSocketServer
unfolding end_socket
send_on env id message close_frame ws s =
    let s' = end_socket env ws 1002 message s in
    record s' { connection_data = FlatMap.adjust id unlink s'.connection_data }
send_on env id message op ws s = hand (sent ws message op) s

unfoldable pub send_to :
    Env → String → String → OpCode → Option ℕ → WebSocketServer → WebSocketServer
unfolding send_on
send_to env id message op none s = s
send_to env id message op (some ws) s = send_on env id message op ws s

abbrev pub socket_of : Option PeerConnectionData → Option ℕ
socket_of none = none
socket_of (some c) = c.ws

unfoldable pub send : Env → String → String → OpCode → WebSocketServer → WebSocketServer
unfolding send_to
send env id message op s =
    send_to env id message op (socket_of (FlatMap.find id s.connection_data)) s

unfoldable pub send_each : Env → String → OpCode → List String → WebSocketServer → WebSocketServer
send_each env message op [] s = s
send_each env message op (id ∷ ids) s = send_each env message op ids (send env id message op s)

unfoldable pub send_all : Env → String → OpCode → WebSocketServer → WebSocketServer
unfolding send_each
send_all env message op s = send_each env message op (FlatMap.keys s.connection_data) s

-- One round of the loop of `clear_users`.
unfoldable pub forget_user : String → Option PeerConnectionData → WebSocketServer → WebSocketServer
forget_user user_id none s = s
forget_user user_id (some c) s = record s {
  reconnections = FlatMap.erase (String.◌++◌ c.game_id c.reconnection_token) s.reconnections;
  connection_data = FlatMap.erase user_id s.connection_data;
}

unfoldable pub clear_user : Env → String → WebSocketServer → WebSocketServer
unfolding forget_user
clear_user env user_id s =
    let s' = send env user_id "ERROR_SERVER_FAILED_TO_RECONNECT" close_frame s in
    forget_user user_id (FlatMap.find user_id s'.connection_data) s'

unfoldable pub clear_users : Env → List String → WebSocketServer → WebSocketServer
unfolding clear_user
clear_users env [] s = s
clear_users env (user_id ∷ users) s = clear_users env users (clear_user env user_id s)

-- The token of a user that is logged in is made of its platform's name and its id there; another
-- user keeps the token that it gave.
unfoldable pub with_token : String → PerSocketData → PerSocketData
with_token uuid d =
    if d.platform == "anon"
    then record d {
      reconnection_token = if d.reconnection_token == "" then uuid else d.reconnection_token;
      platform_id = d.id;
    }
    else record d { reconnection_token = String.◌++◌ d.platform (String.◌++◌ ":" d.platform_id) }

abbrev pub connection : ℕ → PerSocketData → PeerConnectionData
connection ws d = record {
  id = d.id;
  game_id = d.game_id;
  reconnection_token = d.reconnection_token;
  ws = some ws;
}

-- The writes to the maps at the end of `on_open`, once it is clear under which id the socket stands.
unfoldable pub link : Env → ℕ → PerSocketData → WebSocketServer → WebSocketServer
link env ws d s = record s {
  sockets = set_data ws (λ _. d) s.sockets;
  reconnections =
      FlatMap.emplace (String.◌++◌ d.game_id d.reconnection_token)
        (record { peer_id = d.id; timestamp = env.now }) s.reconnections;
  connection_data = FlatMap.insert d.id (connection ws d) s.connection_data;
  connected_users = increment s.connected_users;
}

abbrev pub opened : PerSocketData → WebSocketReceivedMessage
opened d = record {
  id = d.id;
  event = open_event;
  message = "";
  game_id = d.game_id;
  reconnection_token = d.reconnection_token;
  platform = d.platform;
  name = d.name;
  platform_id = d.platform_id;
}

unfoldable pub enter : Env → ℕ → PerSocketData → WebSocketServer → WebSocketServer
enter env ws d s =
    if env.accepts
    then put env (opened d) (link env ws d s)
    else send env d.id "ERROR_SERVER_QUEUE_FULL" close_frame (link env ws d s)

abbrev pub reconnection_key : PerSocketData → String
reconnection_key d = String.◌++◌ d.game_id d.reconnection_token

abbrev pub drop_reconnection : PerSocketData → WebSocketServer → WebSocketServer
drop_reconnection d s = record s {
  reconnections = FlatMap.erase (reconnection_key d) s.reconnections;
}

-- `on_open` for a socket whose token stands among the reconnections. The copy of the socket's data
-- in `d` is the one that its pointer reads, since closing the old socket leaves it alone.
unfoldable pub reopen :
    Env
    → ℕ
    → PerSocketData
    → ReconnectionTokens
    → Option PeerConnectionData
    → WebSocketServer
    → WebSocketServer
unfolding end_socket send enter with_token
reopen env ws d old none s =
    if ltb (old.timestamp + max_reconnection_time) env.now
    then end_socket env ws 1002 "ERROR_SERVER_RECONNECT_EXPIRED" (drop_reconnection d s)
    else end_socket env ws 1002 "ERROR_SERVER_RECONNECT_PEER_ID_NOT_FOUND" (drop_reconnection d s)
reopen env ws d old (some c) s =
    if ltb (old.timestamp + max_reconnection_time) env.now
    then end_socket env ws 1002 "ERROR_SERVER_RECONNECT_EXPIRED" (drop_reconnection d s)
    else if not (c.game_id == d.game_id)
    then end_socket env ws 1002 "ERROR_SERVER_WRONG_GAMEID" s
    else enter env ws (with_token env.uuid (record d { id = old.peer_id }))
        (drop_reconnection d (send env old.peer_id "ERROR_SERVER_RECONNECT_CLOSE" close_frame s))

abbrev pub reconnection_of : PerSocketData → WebSocketServer → Option ReconnectionTokens
reconnection_of d s =
    if d.reconnection_token == "" then none else FlatMap.find (reconnection_key d) s.reconnections

unfoldable pub open_with :
    Env → ℕ → PerSocketData → Option ReconnectionTokens → WebSocketServer → WebSocketServer
unfolding reopen
open_with env ws d none s = enter env ws (with_token env.uuid d) s
open_with env ws d (some old) s = reopen env ws d old (FlatMap.find old.peer_id s.connection_data) s

unfoldable pub on_open : Env → ℕ → WebSocketServer → WebSocketServer
unfolding open_with
on_open env ws s = open_with env ws (s.sockets ws) (reconnection_of (s.sockets ws) s) s

-- The rate limit's window and counter. A clock that went backwards counts in the old window.
unfoldable pub count_message : ℕ → PerSocketData → PerSocketData
count_message now d =
    if ltb now (d.last_message_time + rate_limit_window)
    then record d { message_count = d.message_count + 1 }
    else record d { last_message_time = now; message_count = 1 }

abbrev pub received : PerSocketData → String → WebSocketReceivedMessage
received d message = record {
  id = d.id;
  event = message_event;
  message = message;
  game_id = d.game_id;
  reconnection_token = d.reconnection_token;
  platform = "anon";
  name = "";
  platform_id = "";
}

unfoldable pub on_message : Env → ℕ → String → WebSocketServer → WebSocketServer
unfolding count_message
on_message env ws message s =
    let d = count_message env.now (s.sockets ws) in
    let counted = record s { sockets = set_data ws (count_message env.now) s.sockets } in
    if ltb_ℤ s.max_messages_per_second (pos d.message_count)
    then send env d.id "ERROR_SERVER_RATE_LIMIT" close_frame counted
    else if env.accepts
    then put env (received d message) counted
    else send env d.id "ERROR_SERVER_QUEUE_FULL" close_frame counted

-- The destructor, after the authentication thread has ended.
unfoldable pub end_each : Env → List String → WebSocketServer → WebSocketServer
unfolding end_socket
end_each env [] s = s
end_each env (id ∷ ids) s = end_each env ids (elim (socket_of (FlatMap.find id s.connection_data)) [
  | none ↦ s
  | some ws ↦ end_socket env ws 1000 "ERROR_SERVER_SHUTTING_DOWN" s
])

unfoldable pub shut_down : Env → WebSocketServer → WebSocketServer
unfolding end_each
shut_down env s = record (end_each env (FlatMap.keys s.connection_data) s) {
  connection_data = [];
  reconnections = [];
}
