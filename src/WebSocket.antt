-- ===== src/WebSocket.antt =====
-- The state of the socket server: src/websocket/websocket_server.h and per_socket_data.h. A pointer to
-- a socket is a number, and `sockets` gives the user data that the library keeps for it.
pub mod Upgrade
pub mod Handlers
pub mod Links
pub mod Closing
pub mod Opening
pub mod Admission
pub mod Dropping
pub mod RateLimit
pub mod Sessions
pub mod Runs
pub mod Takeover
pub mod Protocols
pub mod Tests
use tiny_lobby_tests.Prelude.{ℕ, Bool, String, Option, List, [], eqb, if◌then◌else◌}
use tiny_lobby_tests.Prelude.Int.{ℤ, pos, negsuc}
use tiny_lobby_tests.FlatMap.{FlatMap}
use tiny_lobby_tests.Game.{OpCode}

pub record PerSocketData : Type 0 where
  pub uid : String
  pub id : String
  pub game_id : String
  pub reconnection_token : String
  pub platform : String
  pub name : String
  pub platform_id : String
  pub message_count : ℕ
  pub last_message_time : ℕ

-- The defaults of its fields.
abbrev pub default_socket_data : PerSocketData
default_socket_data = record {
  uid = "";
  id = "";
  game_id = "";
  reconnection_token = "";
  platform = "anon";
  name = "";
  platform_id = "";
  message_count = 0;
  last_message_time = 0;
}

-- `none` is the null pointer.
pub record PeerConnectionData : Type 0 where
  pub id : String
  pub game_id : String
  pub reconnection_token : String
  pub ws : Option ℕ

pub data WebSocketEvent : Type 0 where
  open_event message_event close_event : WebSocketEvent

pub record WebSocketReceivedMessage : Type 0 where
  pub id : String
  pub event : WebSocketEvent
  pub message : String
  pub game_id : String
  pub reconnection_token : String
  pub platform : String
  pub name : String
  pub platform_id : String

pub record ReconnectionTokens : Type 0 where
  pub peer_id : String
  pub timestamp : ℕ

-- What is handed to a socket: `ws->send` and `ws->end`.
pub data Frame : Type 0 where
  sent : ℕ → String → OpCode → Frame
  ended : ℕ → ℕ → String → Frame

-- The receive queue is the list of all that was put into it, and `frames` of all that was handed to
-- sockets. `connected_users` does not reach the bounds of an `int`.
pub record WebSocketServer : Type 0 where
  pub max_users : ℤ
  pub max_messages_per_second : ℤ
  pub connected_users : ℤ
  pub connection_data : FlatMap PeerConnectionData
  pub reconnections : FlatMap ReconnectionTokens
  pub sockets : ℕ → PerSocketData
  pub receive_queue : List WebSocketReceivedMessage
  pub frames : List Frame

-- What a call gets from outside: the time in milliseconds, a new uuid, whether the queue takes a
-- message, and whether `ws->end` calls on_close before it returns or the socket loop does so later.
pub record Env : Type 0 where
  pub now : ℕ
  pub uuid : String
  pub accepts : Bool
  pub closes_at_once : Bool

abbrev pub increment : ℤ → ℤ
increment (pos n) = pos (Prim.Native.Nat.suc n)
increment (negsuc Prim.Native.Nat.zero) = pos 0
increment (negsuc (Prim.Native.Nat.suc n)) = negsuc n

abbrev pub decrement : ℤ → ℤ
decrement (pos Prim.Native.Nat.zero) = negsuc 0
decrement (pos (Prim.Native.Nat.suc n)) = pos n
decrement (negsuc n) = negsuc (Prim.Native.Nat.suc n)

abbrev pub set_data : ℕ → (PerSocketData → PerSocketData) → (ℕ → PerSocketData) → ℕ → PerSocketData
set_data ws f sockets v = if eqb v ws then f (sockets v) else sockets v
