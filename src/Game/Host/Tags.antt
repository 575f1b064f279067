-- ===== src/Game/Host/Tags.antt =====
-- `on_lobby_tags` and `on_user_data` of src/game/game_thread.cpp.
use tiny_lobby_tests.Prelude.{Bool, true, false, String, Option, some, [], ◌∷◌, ◌==◌, if◌then◌else◌}
use tiny_lobby_tests.FlatMap.{FlatMap}
use tiny_lobby_tests.FlatMap
use tiny_lobby_tests.AnyType.{AnyElement, null, object}
use tiny_lobby_tests.AnyType.Decode.{Result, err, decode_object}
use tiny_lobby_tests.Yyjson.{Json, obj_get}
use tiny_lobby_tests.Yyjson
use tiny_lobby_tests.Messages.{notification_tags, notification_user_data}
use tiny_lobby_tests.Messages.Errors.{error_cannot_parse_json}
use tiny_lobby_tests.Game.Monad.{
  M, ◌>>=◌, ◌>>◌, skip, get_peer, read_peer, modify_peer, get_lobby, read_lobby, modify_lobby,
}
use tiny_lobby_tests.Game.Send.{send_text, send_to_others, mark_updated}
use tiny_lobby_tests.Game.Scripts.{LuaCall, callback, text_result}
use tiny_lobby_tests.Game.Membership.{as_host, with_decoded, reject_or}

abbrev pub is_null : AnyElement → Bool
is_null null = true
is_null _ = false

-- The loop over the changes: null erases, any other value is assigned.
unfoldable pub apply_changes : FlatMap AnyElement → FlatMap AnyElement → FlatMap AnyElement
apply_changes [] m = m
apply_changes ((k, v) ∷ changes) m =
    apply_changes changes (if is_null v then FlatMap.erase k m else FlatMap.insert k v m)

decode_object_value : Option Json → Result (FlatMap AnyElement)
decode_object_value (some (Yyjson.Json.obj fs)) = decode_object (some (Yyjson.Json.obj fs)) []
decode_object_value _ = err error_cannot_parse_json

-- The object under a key, decoded: the checks for a null pointer and for an object, and the decoder.
unfoldable pub decode_changes : Option Json → String → Result (FlatMap AnyElement)
unfolding decode_object_value
decode_changes data_val key = decode_object_value (obj_get data_val key)

-- The changes and notifications of `on_lobby_tags`.
unfoldable pub set_tags : String → String → String → FlatMap AnyElement → M (Unit {0})
unfolding apply_changes
set_tags lobby_id peer_id command_id new_tags = do
  modify_lobby lobby_id (λ l. record l { tags = apply_changes new_tags l.tags })
  lobby ← read_lobby lobby_id
  send_to_others lobby.peer_ids peer_id (notification_tags (object lobby.tags) "")
  send_text peer_id (notification_tags (object lobby.tags) command_id)
  mark_updated lobby_id

module _ (lua : LuaCall) where
  unfoldable pub on_lobby_tags : String → String → Option Json → M (Unit {0})
  unfolding decode_changes as_host with_decoded reject_or set_tags
  on_lobby_tags command_id peer_id data_val = as_host command_id peer_id λ peer lobby.
      with_decoded command_id peer.id (decode_changes data_val "t") λ new_tags. do
        (value, has_error) ←
            callback lua peer.id peer.lobby_id "_can_host_set_tags" (object new_tags ∷ [])
        reject_or command_id peer.id (text_result (value, has_error)) has_error
            (set_tags peer.lobby_id peer.id command_id new_tags)

unfoldable pub on_user_data : String → String → Option Json → M (Unit {0})
unfolding decode_changes with_decoded apply_changes
on_user_data command_id peer_id data_val = do
  before ← get_peer peer_id
  with_decoded command_id before.id (decode_changes data_val "ud") λ new_userdata. do
    modify_peer peer_id (λ p. record p { user_data = apply_changes new_userdata p.user_data })
    peer ← read_peer peer_id
    if peer.lobby_id == "" then skip else (do
      lobby ← get_lobby peer.lobby_id
      send_to_others lobby.peer_ids peer.id
          (notification_user_data (object peer.user_data) peer.id ""))
    send_text peer.id (notification_user_data (object peer.user_data) peer.id command_id)
