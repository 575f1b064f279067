-- ===== src/Game/Host/Settings.antt =====
-- `on_lobby_max_players`, `on_lobby_title` and `on_lobby_password` of src/game/game_thread.cpp. None of
-- them asks whether the peer is the host.
use tiny_lobby_tests.Prelude.{false, not, String, Option, [], ◌∷◌, ◌==◌, ltb, length, if◌then◌else◌}
use tiny_lobby_tests.Prelude.Int.{pos, to_u64}
use tiny_lobby_tests.AnyType.{AnyElement, int, str}
use tiny_lobby_tests.AnyType.Decode.{decode_string_or_default, decode_int_or_default}
use tiny_lobby_tests.Yyjson.{Json}
use tiny_lobby_tests.Peer.{PeerData}
use tiny_lobby_tests.Lobby.{LobbyData}
use tiny_lobby_tests.Messages.{
  notification_lobby_max_players, notification_lobby_title, notification_lobby_password_protected,
}
use tiny_lobby_tests.Messages.Errors.{error_lobby_full}
use tiny_lobby_tests.Game.Monad.{M, ◌>>=◌, ◌>>◌, read_lobby, modify_lobby}
use tiny_lobby_tests.Game.Send.{send_text, send_to_others, on_error, mark_updated}
use tiny_lobby_tests.Game.Scripts.{LuaCall, callback, text_result}
use tiny_lobby_tests.Game.Membership.{in_lobby, reject_or}

-- The change, and the notification without and with the command's id.
unfoldable pub apply_setting :
    String → String → String → (LobbyData → LobbyData) → (String → AnyElement) → M (Unit {0})
apply_setting lobby_id peer_id command_id change notification = do
  modify_lobby lobby_id change
  lobby ← read_lobby lobby_id
  send_to_others lobby.peer_ids peer_id (notification "")
  send_text peer_id (notification command_id)
  mark_updated lobby.id

-- `on_lobby_max_players` from the decoding on.
unfoldable pub resize : LuaCall → String → Option Json → PeerData → LobbyData → M (Unit {0})
unfolding reject_or apply_setting
resize lua command_id data_val peer lobby =
    let max_players = decode_int_or_default data_val "m" (pos 0) in
    if ltb (to_u64 max_players) (length lobby.peer_ids)
    then on_error command_id peer.id error_lobby_full false false
    else (do
      (value, has_error) ←
          callback lua peer.id peer.lobby_id "_can_host_resize" (int max_players ∷ [])
      reject_or command_id peer.id (text_result (value, has_error)) has_error (
          apply_setting peer.lobby_id peer.id command_id
            (λ l. record l { max_players = max_players })
            (notification_lobby_max_players max_players)))

module _ (lua : LuaCall) (command_id peer_id : String) (data_val : Option Json) where
  unfoldable pub on_lobby_max_players : M (Unit {0})
  unfolding in_lobby resize
  on_lobby_max_players = in_lobby command_id peer_id (resize lua command_id data_val)

  unfoldable pub on_lobby_title : M (Unit {0})
  unfolding in_lobby reject_or apply_setting
  on_lobby_title = in_lobby command_id peer_id λ peer lobby.
      let title = decode_string_or_default data_val "n" "" in
      do
        (value, has_error) ←
            callback lua peer.id peer.lobby_id "_can_host_set_title" (str title ∷ [])
        reject_or command_id peer.id (text_result (value, has_error)) has_error (
            apply_setting peer.lobby_id peer.id command_id (λ l. record l { name = title })
              (notification_lobby_title title))

-- No callback is asked for the password.
module _ (command_id peer_id : String) (data_val : Option Json) where
  unfoldable pub on_lobby_password : M (Unit {0})
  unfolding in_lobby apply_setting
  on_lobby_password = in_lobby command_id peer_id λ peer lobby.
      let password = decode_string_or_default data_val "_p" "" in
      apply_setting peer.lobby_id peer.id command_id (λ l. record l { password = password })
        (notification_lobby_password_protected (not (password == "")))
