-- ===== src/Game.antt =====
-- The state of a game (src/game/game_data.h) and of the thread around it, as one handler of
-- src/game/game_thread.cpp sees it.
pub mod Monad
pub mod Send
pub mod Scripts
pub mod Membership
pub mod Connection
pub mod Clock
pub mod Host
pub mod Relay
pub mod Lobbies
pub mod Chat
pub mod Dispatch
pub mod Access
pub mod Rules
pub mod Consistency
pub mod Keeping
pub mod Moves
pub mod Entry
pub mod Samples
use tiny_lobby_tests.Prelude.{ℕ, Bool, String, List, ◌==◌}
use tiny_lobby_tests.FlatMap.{FlatMap}
use tiny_lobby_tests.FlatSet.{FlatSet}
use tiny_lobby_tests.AnyType.{AnyElement}
use tiny_lobby_tests.Peer.{PeerData}
use tiny_lobby_tests.Lobby.{LobbyData}

pub record TimerData : Type 0 where
  pub id : String
  pub lobby_id : String
  pub game_id : String
  pub peer_id : String
  pub end_time : ℕ
  pub args : List AnyElement

-- Of the script object only `enabled` is read. `peers_send_data` stands in `Net`, since only `send`
-- and `handle_send` touch it. The rates come from the game's configuration and are not negative.
pub record GameData : Type 0 where
  pub last_send_time : ℕ
  pub last_tick_time : ℕ
  pub id : String
  pub lobby_control : String
  pub tick_rate : ℕ
  pub send_rate : ℕ
  pub max_afk_time : ℕ
  pub seal : Bool
  pub disband_on_leave : Bool
  pub folder_name : String
  pub peers : FlatMap PeerData
  pub disconnected_peers : FlatMap ℕ
  pub lobbies : FlatMap LobbyData
  pub lobby_listing_peers : FlatSet
  pub lobbies_updated : FlatSet
  pub timer_data : FlatMap TimerData
  pub enabled_callbacks : FlatSet
  pub lua_enabled : Bool

-- A text to send: that of an element, or a plain one.
pub data Content : Type 0 where
  json : AnyElement → Content
  plain : String → Content

-- What goes out: a text, or "[" + texts joined by "," + "]".
pub data Message : Type 0 where
  single : Content → Message
  batch : List Content → Message

pub data OpCode : Type 0 where
  text_frame close_frame : OpCode

-- A call of WebSocketServer::send that the thread has deferred to the socket loop.
pub record Outgoing : Type 0 where
  pub peer_id : String
  pub message : Message
  pub op_code : OpCode

-- What sending changes: the batches, the deferred calls in order, and the counter.
pub record Net : Type 0 where
  pub peers_send_data : FlatMap (List Content)
  pub outgoing : List Outgoing
  pub messages_sent : ℕ

pub record World : Type 0 where
  pub game : GameData
  pub net : Net
  pub now : ℕ

abbrev pub is_relay : GameData → Bool
is_relay g = g.lobby_control == "relay"
