-- ===== src/Game/Host/Ready.antt =====
-- `on_lobby_ready`, `on_lobby_unready` and `set_lobby_ready` of src/game/game_thread.cpp.
use tiny_lobby_tests.Prelude.{
  Bool, true, false, String, Option, none, some, [], ◌∷◌, ◌==◌, if◌then◌else◌,
}
use tiny_lobby_tests.FlatSet
use tiny_lobby_tests.AnyType.{AnyElement, bool}
use tiny_lobby_tests.Peer.{PeerData}
use tiny_lobby_tests.Messages.{notification_peer_ready, notification_peer_unready}
use tiny_lobby_tests.Messages.Errors.{
  error_peer_not_in_a_lobby, error_peer_is_ready, error_peer_is_not_ready,
}
use tiny_lobby_tests.Game.Monad.{
  M, ◌>>=◌, ◌>>◌, get_game, get_peer, read_peer, modify_peer, get_lobby,
}
use tiny_lobby_tests.Game.Send.{send_text, send_to_others, on_error}
use tiny_lobby_tests.Game.Scripts.{LuaCall, scripted_function_call, text_result}

ready_notification : Bool → String → String → AnyElement
ready_notification ready peer_id command_id =
    if ready
    then notification_peer_ready peer_id command_id
    else notification_peer_unready peer_id command_id

unfoldable pub set_lobby_ready : String → String → String → Bool → M (Unit {0})
unfolding ready_notification
set_lobby_ready lobby_id peer_id command_id ready = do
  lobby ← get_lobby lobby_id
  modify_peer peer_id (λ p. record p { ready = ready })
  peer ← read_peer peer_id
  send_to_others lobby.peer_ids peer.id (ready_notification ready peer.id "")
  send_text peer.id (ready_notification ready peer.id command_id)

-- if (a refusal) { peer.ready = old_ready; return on_error(...); } otherwise `rest`.
unfoldable pub restore_or :
    String → String → PeerData → Option String → Bool → M (Unit {0}) → M (Unit {0})
restore_or command_id peer_id old (some message) has_error rest = do
  modify_peer peer_id (λ p. record p { ready = old.ready })
  on_error command_id old.id message false has_error
restore_or command_id peer_id old none has_error rest = rest

module _ (lua : LuaCall) where
  -- From the scripted call on. The callback sees the new state, which is put back if it refuses.
  unfoldable pub change_ready : String → String → PeerData → Bool → M (Unit {0})
  unfolding set_lobby_ready restore_or
  change_ready command_id peer_id peer ready = do
    game ← get_game
    if FlatSet.contains "_can_peer_ready" game.enabled_callbacks
        then (do
          modify_peer peer_id (λ p. record p { ready = ready })
          (value, has_error) ←
              scripted_function_call lua peer.id peer.lobby_id "_can_peer_ready" (bool ready ∷ [])
          restore_or command_id peer_id peer (text_result (value, has_error)) has_error
              (set_lobby_ready peer.lobby_id peer_id command_id ready))
        else set_lobby_ready peer.lobby_id peer_id command_id ready

  unfoldable pub on_lobby_ready : String → String → M (Unit {0})
  unfolding change_ready
  on_lobby_ready command_id peer_id = do
    peer ← get_peer peer_id
    if peer.lobby_id == ""
        then on_error command_id peer.id error_peer_not_in_a_lobby false false
        else if peer.ready
        then on_error command_id peer.id error_peer_is_ready false false
        else change_ready command_id peer_id peer true

  unfoldable pub on_lobby_unready : String → String → M (Unit {0})
  unfolding change_ready
  on_lobby_unready command_id peer_id = do
    peer ← get_peer peer_id
    if peer.lobby_id == ""
        then on_error command_id peer.id error_peer_not_in_a_lobby false false
        else if peer.ready
        then change_ready command_id peer_id peer false
        else on_error command_id peer.id error_peer_is_not_ready false false
