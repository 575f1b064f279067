-- ===== src/Game/Dispatch.antt =====
-- `handle_events` of src/game/game_thread.cpp, from the event on, for the game that it names.
use tiny_lobby_tests.Prelude.{true, false, not, String, Option, none, some, if◌then◌else◌}
use tiny_lobby_tests.Prelude.Int.{negsuc}
use tiny_lobby_tests.FlatMap
use tiny_lobby_tests.AnyType.Decode.{decode_string_or_default, decode_int_or_default}
use tiny_lobby_tests.Yyjson.{Json, obj_get}
use tiny_lobby_tests.Yyjson
use tiny_lobby_tests.Messages.Command.{Command, command_of}
use tiny_lobby_tests.Messages.Errors.{
  error_cannot_parse_json, error_peer_not_found, error_unkown_command,
}
use tiny_lobby_tests.Game.Monad.{M, ◌>>=◌, ◌>>◌, skip, get_game, get_now, modify_peer}
use tiny_lobby_tests.Game.Send.{on_error}
use tiny_lobby_tests.Game.Scripts.{LuaCall}
use tiny_lobby_tests.Game.Membership.{on_create_lobby, on_join_lobby, on_leave_lobby, on_kick_peer}
use tiny_lobby_tests.Game.Membership.QuickJoin.{on_quick_join}
use tiny_lobby_tests.Game.Connection.{Connected, on_connect, on_close}
use tiny_lobby_tests.Game.Host.{
  on_seal_lobby, on_unseal_lobby, on_lobby_ready, on_lobby_unready, on_lobby_max_players,
  on_lobby_title, on_lobby_password, on_lobby_tags, on_user_data,
}
use tiny_lobby_tests.Game.Relay.{
  on_lobby_data, on_data_to, on_data_to_all, on_notify_to, on_lobby_notify,
}
use tiny_lobby_tests.Game.Lobbies.{on_list_lobby, on_stop_list_lobby}
use tiny_lobby_tests.Game.Chat.{on_chat_lobby, on_lobby_call}

-- A message carries its parsed document, if the parser accepts it, and the next uuid.
pub data Event : Type 0 where
  opened : Connected → Event
  closed : String → Event
  message : String → Option Json → String → Event

module _ (lua : LuaCall) where
  -- The switch over the command.
  unfoldable pub run_command : Command → String → String → Option Json → String → M (Unit {0})
  run_command Command.lobby_data id p d u = on_lobby_data id p d
  run_command Command.lobby_data_to id p d u = on_data_to id p d
  run_command Command.lobby_data_to_all id p d u = on_data_to_all id p d
  run_command Command.lobby_notify_to id p d u = on_notify_to id p d
  run_command Command.lobby_notify id p d u = on_lobby_notify id p d
  run_command Command.lobby_call id p d u = on_lobby_call lua id p d
  run_command Command.lobby_quick_join id p d u = on_quick_join lua id p d u
  run_command Command.create_lobby id p d u = on_create_lobby lua id p u d none
  run_command Command.join_lobby id p d u = on_join_lobby lua id p d "" >>= λ _. skip
  run_command Command.leave_lobby id p d u = on_leave_lobby lua id p
  run_command Command.list_lobby id p d u = on_list_lobby id p
  run_command Command.stop_listing id p d u = on_stop_list_lobby id p
  run_command Command.chat_lobby id p d u = on_chat_lobby lua id p d
  run_command Command.lobby_tags id p d u = on_lobby_tags lua id p d
  run_command Command.kick_peer id p d u = on_kick_peer lua id p d
  run_command Command.user_data id p d u = on_user_data id p d
  run_command Command.lobby_ready id p d u = on_lobby_ready lua id p
  run_command Command.lobby_unready id p d u = on_lobby_unready lua id p
  run_command Command.lobby_seal id p d u = on_seal_lobby lua id p
  run_command Command.lobby_unseal id p d u = on_unseal_lobby lua id p
  run_command Command.lobby_max_players id p d u = on_lobby_max_players lua id p d
  run_command Command.lobby_title id p d u = on_lobby_title lua id p d
  run_command Command.lobby_password id p d u = on_lobby_password id p d

  run_or_refuse : Option Command → String → String → Option Json → String → M (Unit {0})
  run_or_refuse (some c) id p d u = run_command c id p d u
  run_or_refuse none id p d u = on_error id p error_unkown_command true false

  -- The case MESSAGE.
  unfoldable pub on_message : String → Option Json → String → M (Unit {0})
  unfolding run_or_refuse
  on_message peer_id (some (Yyjson.Json.obj fs)) small_uuid =
      let root : Option Json = some (Yyjson.Json.obj fs) in
      let data_val = obj_get root "d" in
      let command_id = decode_string_or_default data_val "id" "" in
      do
        game ← get_game
        if not (FlatMap.contains peer_id game.peers)
            then on_error command_id peer_id error_peer_not_found true false
            else (do
              now ← get_now
              modify_peer peer_id (λ p. record p { last_message_time = now })
              run_or_refuse (command_of (decode_int_or_default root "c" (negsuc 0))) command_id
                  peer_id data_val small_uuid)
  on_message peer_id _ small_uuid = on_error "" peer_id error_cannot_parse_json true false

  unfoldable pub handle_event : Event → M (Unit {0})
  unfolding on_message
  handle_event (opened c) = on_connect lua c
  handle_event (closed peer_id) = on_close lua peer_id
  handle_event (message peer_id doc small_uuid) = on_message peer_id doc small_uuid
