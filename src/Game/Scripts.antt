-- ===== src/Game/Scripts.antt =====
-- `scripted_function_call` and `notify_lobby_changes` of src/game/game_thread.cpp. What a script does
-- in `ScriptLua::func_call` is an argument of everything that may call one: an action on the world
-- that returns the value and the flag `has_error`.
use tiny_lobby_tests.Prelude.{
  Bool, true, false, ◌&&◌, String, Option, none, some, List, [], ◌==◌, if◌then◌else◌,
}
use tiny_lobby_tests.FlatMap
use tiny_lobby_tests.FlatSet
use tiny_lobby_tests.AnyType.{AnyElement, null, str, obj, object, entries}
use tiny_lobby_tests.Lobby.{LobbyData}
use tiny_lobby_tests.Messages.{
  notification_peer_private_data, notification_peer_public_data, notification_tags,
  notification_lobby_title, notification_lobby_max_players, notification_lobby_sealed,
  notification_lobby_unsealed, notification_lobby_public_data, notification_lobby_private_data,
}
use tiny_lobby_tests.Game.{is_relay}
use tiny_lobby_tests.Game.Monad.{
  M, ◌>>=◌, ◌>>◌, pure, skip, when, for_each, get_game, get_peer, modify_peer, get_lobby,
  modify_lobby,
}
use tiny_lobby_tests.Game.Send.{send_text, send_to_all, mark_updated}

-- function name, arguments, peer id, lobby id
abbrev pub LuaCall : Type 0
LuaCall = String → List AnyElement → String → String → M (AnyElement × Bool)

-- Without a script no call is made: `scripted_function_call` returns before.
abbrev pub no_lua : LuaCall
no_lua name args peer_id lobby_id w = ((null, false), w)

unfoldable pub notify_peer_changes : List String → String → M (Unit {0})
notify_peer_changes peer_ids peer_id = do
  peer ← get_peer peer_id
  when peer.private_data_dirty (do
    modify_peer peer_id (λ p. record p { private_data_dirty = false })
    send_text peer_id (notification_peer_private_data (object peer.private_data_diff) "" peer_id)
    modify_peer peer_id (λ p. record p { private_data_diff = [] }))
  when peer.public_data_dirty (do
    modify_peer peer_id (λ p. record p { public_data_dirty = false })
    send_to_all peer_ids (notification_peer_public_data (object peer.public_data_diff) "" peer_id)
    modify_peer peer_id (λ p. record p { public_data_diff = [] }))

-- What follows the look-up of the lobby.
unfoldable pub notify_all_changes : String → LobbyData → M (Unit {0})
unfolding notify_peer_changes
notify_all_changes lobby_id lobby = do
  game ← get_game
  for_each lobby.peer_ids (notify_peer_changes lobby.peer_ids)
  when lobby.tags_dirty (do
    modify_lobby lobby_id (λ l. record l { tags_dirty = false })
    send_to_all lobby.peer_ids (notification_tags (object lobby.tags_diff) "")
    modify_lobby lobby_id (λ l. record l { tags_diff = [] })
    mark_updated lobby.id)
  when lobby.name_dirty (do
    modify_lobby lobby_id (λ l. record l { name_dirty = false })
    send_to_all lobby.peer_ids (notification_lobby_title lobby.name "")
    mark_updated lobby.id)
  when lobby.max_players_dirty (do
    modify_lobby lobby_id (λ l. record l { max_players_dirty = false })
    send_to_all lobby.peer_ids (notification_lobby_max_players lobby.max_players "")
    mark_updated lobby.id)
  when lobby.sealed_dirty (do
    modify_lobby lobby_id (λ l. record l { sealed_dirty = false })
    send_to_all lobby.peer_ids
        (if lobby.sealed then notification_lobby_sealed "" else notification_lobby_unsealed "")
    mark_updated lobby.id)
  when lobby.public_data_dirty (do
    modify_lobby lobby_id (λ l. record l { public_data_dirty = false })
    send_to_all lobby.peer_ids (notification_lobby_public_data (object lobby.public_data_diff) "")
    modify_lobby lobby_id (λ l. record l { public_data_diff = [] }))
  when (lobby.private_data_dirty && is_relay game) (do
    modify_lobby lobby_id (λ l. record l { private_data_dirty = false })
    send_to_all lobby.peer_ids (notification_lobby_private_data (object lobby.private_data_diff) "")
    modify_lobby lobby_id (λ l. record l { private_data_diff = [] }))

unfoldable pub notify_lobby_changes : String → M (Unit {0})
unfolding notify_all_changes
notify_lobby_changes lobby_id =
    if lobby_id == "" then skip else (get_lobby lobby_id >>= notify_all_changes lobby_id)

-- The element under "error", if the result is a dictionary with one.
abbrev pub error_entry : AnyElement → Option AnyElement
error_entry (obj fs) = FlatMap.find "error" (entries fs)
error_entry _ = none

call_result : AnyElement → Bool → AnyElement × Bool
call_result result has_error = elim (error_entry result) [
  | none ↦ (result, has_error)
  | some e ↦ (e, true)
]

module _ (lua : LuaCall) where
  unfoldable pub scripted_function_call :
      String → String → String → List AnyElement → M (AnyElement × Bool)
  unfolding call_result
  scripted_function_call peer_id lobby_id funcname args = do
    game ← get_game
    if game.lua_enabled
        then (do
          (result, has_error) ← lua funcname args peer_id lobby_id
          notify_lobby_changes lobby_id
          pure (call_result result has_error))
        else pure (null, false)

  -- A call that is made only if the script has the callback.
  unfoldable pub callback : String → String → String → List AnyElement → M (AnyElement × Bool)
  unfolding scripted_function_call
  callback peer_id lobby_id funcname args = do
    game ← get_game
    if FlatSet.contains funcname game.enabled_callbacks
        then scripted_function_call peer_id lobby_id funcname args
        else pure (null, false)

-- std::holds_alternative<std::string>, whatever the flag
abbrev pub text_result : AnyElement × Bool → Option String
text_result (str s, has_error) = some s
text_result _ = none

-- has_error && std::holds_alternative<std::string>
abbrev pub error_result : AnyElement × Bool → Option String
error_result (str s, true) = some s
error_result _ = none
