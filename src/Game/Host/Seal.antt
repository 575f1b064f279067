-- ===== src/Game/Host/Seal.antt =====
-- `set_lobby_sealed`, `on_seal_lobby` and `on_unseal_lobby` of src/game/game_thread.cpp.
use tiny_lobby_tests.Prelude.{Bool, true, false, not, String, [], ◌∷◌, if◌then◌else◌}
use tiny_lobby_tests.AnyType.{AnyElement, bool}
use tiny_lobby_tests.Messages.{notification_lobby_sealed, notification_lobby_unsealed}
use tiny_lobby_tests.Game.Monad.{M, ◌>>=◌, ◌>>◌, when, read_lobby, modify_lobby}
use tiny_lobby_tests.Game.Send.{send_text, send_to_others, mark_updated}
use tiny_lobby_tests.Game.Scripts.{LuaCall, callback, text_result}
use tiny_lobby_tests.Game.Membership.{as_host, reject_or}

abbrev differ : Bool → Bool → Bool
differ true b = not b
differ false b = b

seal_notification : Bool → String → AnyElement
seal_notification sealed command_id =
    if sealed then notification_lobby_sealed command_id else notification_lobby_unsealed command_id

unfoldable pub set_lobby_sealed : String → String → String → Bool → M (Unit {0})
unfolding seal_notification
set_lobby_sealed lobby_id peer_id command_id sealed = do
  lobby ← read_lobby lobby_id
  modify_lobby lobby_id (λ l. record l { sealed = sealed })
  when (differ lobby.sealed sealed) (do
    send_to_others lobby.peer_ids peer_id (seal_notification sealed "")
    mark_updated lobby.id)
  send_text peer_id (seal_notification sealed command_id)

module _ (lua : LuaCall) where
  unfoldable pub seal : String → String → Bool → M (Unit {0})
  unfolding set_lobby_sealed as_host reject_or
  seal command_id peer_id sealed = as_host command_id peer_id λ peer lobby.
      if not (differ lobby.sealed sealed)
      then set_lobby_sealed peer.lobby_id peer.id command_id sealed
      else (do
        (value, has_error) ← callback lua peer.id peer.lobby_id "_can_host_seal" (bool sealed ∷ [])
        reject_or command_id peer.id (text_result (value, has_error)) has_error
            (set_lobby_sealed peer.lobby_id peer.id command_id sealed))

  unfoldable pub on_seal_lobby : String → String → M (Unit {0})
  unfolding seal
  on_seal_lobby command_id peer_id = seal command_id peer_id true

  unfoldable pub on_unseal_lobby : String → String → M (Unit {0})
  unfolding seal
  on_unseal_lobby command_id peer_id = seal command_id peer_id false
