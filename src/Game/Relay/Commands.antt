-- ===== src/Game/Relay/Commands.antt =====
-- `on_lobby_data`, `on_data_to`, `on_data_to_all`, `on_notify_to` and `on_lobby_notify` of
-- src/game/game_thread.cpp.
use tiny_lobby_tests.Prelude.{false, not, ◌||◌, String, Option, List, [], ◌==◌, if◌then◌else◌}
use tiny_lobby_tests.FlatMap.{FlatMap}
use tiny_lobby_tests.FlatSet
use tiny_lobby_tests.AnyType.{AnyElement, object}
use tiny_lobby_tests.AnyType.Decode.{decode_string_or_default, decode_bool_or_default}
use tiny_lobby_tests.Yyjson.{Json}
use tiny_lobby_tests.Peer.{PeerData}
use tiny_lobby_tests.Lobby.{LobbyData}
use tiny_lobby_tests.Messages.{
  notification_lobby_public_data, notification_lobby_private_data, notification_peer_public_data,
  notification_peer_private_data, notification_data_to_sent, notification_peer_notify,
  notification_notify_sent,
}
use tiny_lobby_tests.Messages.Errors.{error_game_not_relay, error_peer_not_found}
use tiny_lobby_tests.Game.{is_relay}
use tiny_lobby_tests.Game.Monad.{
  M, ◌>>=◌, ◌>>◌, when, for_each, get_game, get_peer, read_peer, modify_peer, read_lobby,
  modify_lobby,
}
use tiny_lobby_tests.Game.Send.{send_text, send_to_all, send_to_others, on_error}
use tiny_lobby_tests.Game.Membership.{in_lobby, as_host, with_decoded}
use tiny_lobby_tests.Game.Host.{decode_changes}
use tiny_lobby_tests.Game.Relay.Stage.{stage_lobby, stage_peer}

-- The object under "d" decodes.
unfoldable pub with_relay_data :
    String → String → Option Json → (FlatMap AnyElement → M (Unit {0})) → M (Unit {0})
unfolding with_decoded
with_relay_data command_id peer_id data_val =
    with_decoded command_id peer_id (decode_changes data_val "d")

unfoldable pub as_relay_host :
    String → String → (PeerData → LobbyData → M (Unit {0})) → M (Unit {0})
unfolding as_host
as_relay_host command_id peer_id body = as_host command_id peer_id λ peer lobby. do
  game ← get_game
  if not (is_relay game)
      then on_error command_id peer.id error_game_not_relay false false
      else body peer lobby

-- The peer under "tp" is a member.
unfoldable pub with_target :
    String → PeerData → LobbyData → Option Json → (String → M (Unit {0})) → M (Unit {0})
with_target command_id peer lobby data_val body =
    let target_peer_id = decode_string_or_default data_val "tp" "" in
    if target_peer_id == "" || not (FlatSet.contains target_peer_id lobby.peer_ids)
    then on_error command_id peer.id error_peer_not_found false false
    else get_peer target_peer_id >>= λ _. body target_peer_id

-- The notifications at the end of `on_lobby_data`.
unfoldable pub publish_lobby : String → String → String → M (Unit {0})
publish_lobby lobby_id peer_id command_id = do
  lobby ← read_lobby lobby_id
  when lobby.public_data_dirty (do
    modify_lobby lobby_id (λ l. record l { public_data_dirty = false })
    let changes = object lobby.public_data_diff
    send_to_others lobby.peer_ids peer_id (notification_lobby_public_data changes "")
    send_text peer_id (notification_lobby_public_data changes command_id)
    modify_lobby lobby_id (λ l. record l { public_data_diff = [] }))
  when lobby.private_data_dirty (do
    modify_lobby lobby_id (λ l. record l { private_data_dirty = false })
    send_text peer_id (notification_lobby_private_data (object lobby.private_data_diff) command_id)
    modify_lobby lobby_id (λ l. record l { private_data_diff = [] }))

unfoldable pub on_lobby_data : String → String → Option Json → M (Unit {0})
unfolding as_relay_host with_relay_data stage_lobby publish_lobby
on_lobby_data command_id peer_id data_val = as_relay_host command_id peer_id λ peer lobby.
    with_relay_data command_id peer.id data_val λ new_lobbydata. do
      let is_private = decode_bool_or_default data_val "_p" false
      modify_lobby peer.lobby_id (stage_lobby is_private new_lobbydata)
      publish_lobby peer.lobby_id peer.id command_id

-- The notifications of one target's changes, which name it by `target_id`.
unfoldable pub publish_peer : String → List String → String → String → M (Unit {0})
publish_peer from_peer peer_ids target_peer_id target_id = do
  target ← read_peer target_peer_id
  when target.public_data_dirty (do
    modify_peer target_peer_id (λ p. record p { public_data_dirty = false })
    send_to_all peer_ids
        (notification_peer_public_data (object target.public_data_diff) from_peer target_id)
    modify_peer target_peer_id (λ p. record p { public_data_diff = [] }))
  when target.private_data_dirty (do
    modify_peer target_peer_id (λ p. record p { private_data_dirty = false })
    send_text target_id
        (notification_peer_private_data (object target.private_data_diff) from_peer target_id)
    modify_peer target_peer_id (λ p. record p { private_data_diff = [] }))

unfoldable pub on_data_to : String → String → Option Json → M (Unit {0})
unfolding as_relay_host with_target with_relay_data stage_peer publish_peer
on_data_to command_id peer_id data_val = as_relay_host command_id peer_id λ peer lobby.
    with_target command_id peer lobby data_val λ target_peer_id.
      with_relay_data command_id peer.id data_val λ new_data. do
        let is_private = decode_bool_or_default data_val "_p" false
        modify_peer target_peer_id (stage_peer is_private new_data)
        publish_peer peer.id lobby.peer_ids target_peer_id target_peer_id
        send_text peer.id (notification_data_to_sent command_id)

unfoldable pub on_data_to_all : String → String → Option Json → M (Unit {0})
unfolding as_relay_host with_relay_data stage_peer publish_peer
on_data_to_all command_id peer_id data_val = as_relay_host command_id peer_id λ peer lobby.
    with_relay_data command_id peer.id data_val λ new_data. do
      let is_private = decode_bool_or_default data_val "_p" false
      for_each lobby.peer_ids (λ target_peer_id. do
        _ ← get_peer target_peer_id
        modify_peer target_peer_id (stage_peer is_private new_data)
        target ← read_peer target_peer_id
        publish_peer peer.id lobby.peer_ids target_peer_id target.id)
      send_text peer.id (notification_data_to_sent command_id)

unfoldable pub on_notify_to : String → String → Option Json → M (Unit {0})
unfolding as_relay_host with_target with_relay_data
on_notify_to command_id peer_id data_val = as_relay_host command_id peer_id λ peer lobby.
    with_target command_id peer lobby data_val λ target_peer_id.
      with_relay_data command_id peer.id data_val λ new_data. do
        send_text target_peer_id (notification_peer_notify (object new_data) peer.id)
        send_text peer.id (notification_notify_sent command_id)

-- The host notifies every member, and any other member the host.
unfoldable pub on_lobby_notify : String → String → Option Json → M (Unit {0})
unfolding in_lobby with_relay_data
on_lobby_notify command_id peer_id data_val = in_lobby command_id peer_id λ peer lobby. do
  game ← get_game
  if not (is_relay game)
      then on_error command_id peer.id error_game_not_relay false false
      else with_relay_data command_id peer.id data_val λ new_data. do
        let notification = notification_peer_notify (object new_data) peer.id
        if lobby.host == peer.id
            then send_to_all lobby.peer_ids notification
            else send_text lobby.host notification
        send_text peer.id (notification_notify_sent command_id)
