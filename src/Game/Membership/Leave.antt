-- ===== src/Game/Membership/Leave.antt =====
-- `remove_peer_from_lobby`, `on_leave_lobby` and `on_kick_peer` of src/game/game_thread.cpp.
use tiny_lobby_tests.Prelude.{
  Bool, true, false, not, ◌&&◌, ◌||◌, String, Option, List, [], ◌∷◌, ◌==◌, eqb, length, is_nil,
  if◌then◌else◌,
}
use tiny_lobby_tests.FlatMap
use tiny_lobby_tests.FlatSet
use tiny_lobby_tests.AnyType.{str}
use tiny_lobby_tests.AnyType.Decode.{decode_string_or_default}
use tiny_lobby_tests.Yyjson.{Json}
use tiny_lobby_tests.Peer.{PeerData, leave_lobby}
use tiny_lobby_tests.Lobby.{LobbyData}
use tiny_lobby_tests.Messages.{
  notification_lobby_kicked, notification_lobby_left, notification_peer_left,
  notification_lobby_host_changed, notification_peer_kicked,
}
use tiny_lobby_tests.Messages.Errors.{error_peer_not_in_a_lobby, error_cannot_kick_self}
use tiny_lobby_tests.Game.{is_relay}
use tiny_lobby_tests.Game.Monad.{
  M, ◌>>=◌, ◌>>◌, skip, when, for_each, get_game, get_peer, modify_peer, read_lobby, modify_lobby,
  modify_game,
}
use tiny_lobby_tests.Game.Send.{send_text, on_error, mark_updated}
use tiny_lobby_tests.Game.Scripts.{LuaCall, callback, text_result, error_result}
use tiny_lobby_tests.Game.Membership.Guards.{in_lobby, as_host, reject_or}

-- Every member leaves and is told so.
unfoldable pub disband : LobbyData → String → String → M (Unit {0})
disband lobby peer_id command_id = do
  for_each lobby.peer_ids (λ lobby_peer_id. do
    _ ← get_peer lobby_peer_id
    modify_peer lobby_peer_id leave_lobby
    if lobby_peer_id == peer_id then skip else send_text lobby_peer_id notification_lobby_kicked)
  send_text peer_id (notification_lobby_left command_id)

unfoldable pub first_other : String → List String → String
first_other peer_id [] = ""
first_other peer_id (p ∷ ps) = if p == peer_id then first_other peer_id ps else p

-- The host leaves and the first of the other members is the next one.
unfoldable pub hand_over : LobbyData → String → String → String → M (Unit {0})
unfolding first_other
hand_over lobby lobby_id peer_id command_id = do
  for_each lobby.peer_ids (λ lobby_peer_id. do
    _ ← get_peer lobby_peer_id
    if lobby_peer_id == peer_id
        then modify_peer lobby_peer_id leave_lobby
        else send_text lobby_peer_id (notification_peer_left peer_id ""))
  send_text peer_id (notification_lobby_left command_id)
  let new_host = first_other peer_id lobby.peer_ids
  modify_lobby lobby_id (λ l. record l { host = new_host })
  for_each lobby.peer_ids (λ lobby_peer_id. do
    _ ← get_peer lobby_peer_id
    if lobby_peer_id == peer_id
        then skip
        else send_text lobby_peer_id (notification_lobby_host_changed new_host))

-- A member that is not the host leaves, or is kicked; then the host learns it with its command's id.
unfoldable pub tell_left : LobbyData → String → String → Bool → M (Unit {0})
tell_left lobby peer_id command_id kicked = do
  for_each lobby.peer_ids (λ lobby_peer_id. do
    _ ← get_peer lobby_peer_id
    when (lobby_peer_id == peer_id) (modify_peer lobby_peer_id leave_lobby)
    if (kicked && lobby_peer_id == lobby.host) || lobby_peer_id == peer_id
        then skip
        else send_text lobby_peer_id (
            if kicked
            then notification_peer_kicked peer_id ""
            else notification_peer_left peer_id ""))
  send_text peer_id
      (if kicked then notification_lobby_kicked else notification_lobby_left command_id)
  when kicked (send_text lobby.host (notification_peer_kicked peer_id command_id))

-- The notice for those who list, and the end of a lobby that is left empty or by its host.
unfoldable pub close_if_left : String → Bool → M (Unit {0})
close_if_left lobby_id is_host = do
  lobby ← read_lobby lobby_id
  mark_updated lobby.id
  game ← get_game
  when ((is_host && (lobby.disband_on_leave || game.disband_on_leave)) || is_nil lobby.peer_ids)
      (modify_game (λ g. record g { lobbies = FlatMap.erase lobby.id g.lobbies }))

-- From `auto &peer = game.peers[peer_id]` on.
unfoldable pub erase_member : String → String → Bool → M (Unit {0})
unfolding close_if_left
erase_member lobby_id peer_id is_host = do
  _ ← get_peer peer_id
  modify_peer peer_id (λ p. record p { lobby_id = ""; ready = false })
  modify_lobby lobby_id (λ l. record l {
    peer_ids = FlatSet.erase peer_id l.peer_ids;
    peer_ordered_ids = FlatSet.erase peer_id l.peer_ordered_ids;
  })
  close_if_left lobby_id is_host

module _ (lua : LuaCall) where
  -- `lobby_id` is the key of the lobby that the reference names.
  unfoldable pub remove_peer_from_lobby : String → String → String → Bool → M (Unit {0})
  unfolding disband hand_over tell_left erase_member
  remove_peer_from_lobby lobby_id peer_id command_id kicked = do
    lobby ← read_lobby lobby_id
    game ← get_game
    let is_host = peer_id == lobby.host
    if is_host
        then (if game.disband_on_leave || is_relay game || eqb (length lobby.peer_ids) 1
            then disband lobby peer_id command_id
            else hand_over lobby lobby_id peer_id command_id)
        else tell_left lobby peer_id command_id kicked
    result ← callback lua peer_id lobby.id "_on_peer_leave" []
    reject_or command_id peer_id (error_result result) true skip
    erase_member lobby_id peer_id is_host

  unfoldable pub on_leave_lobby : String → String → M (Unit {0})
  unfolding remove_peer_from_lobby in_lobby
  on_leave_lobby command_id peer_id =
      in_lobby command_id peer_id
        λ peer lobby. remove_peer_from_lobby peer.lobby_id peer.id command_id false

  -- From the decoding on; the sender is the host.
  unfoldable pub kick_member : String → Option Json → PeerData → LobbyData → M (Unit {0})
  unfolding remove_peer_from_lobby reject_or
  kick_member command_id data_val peer lobby =
      let kicked_peer_id = decode_string_or_default data_val "p" "" in
      if kicked_peer_id == "" || not (FlatSet.contains kicked_peer_id lobby.peer_ids)
      then on_error command_id peer.id error_peer_not_in_a_lobby false false
      else if peer.id == kicked_peer_id
      then on_error command_id peer.id error_cannot_kick_self false false
      else (do
        (value, has_error) ←
            callback lua peer.id peer.lobby_id "_can_host_kick" (str kicked_peer_id ∷ [])
        reject_or command_id peer.id (text_result (value, has_error)) has_error
            (remove_peer_from_lobby peer.lobby_id kicked_peer_id command_id true))

  unfoldable pub on_kick_peer : String → String → Option Json → M (Unit {0})
  unfolding as_host kick_member
  on_kick_peer command_id peer_id data_val =
      as_host command_id peer_id (kick_member command_id data_val)
