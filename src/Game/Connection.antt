-- ===== src/Game/Connection.antt =====
-- Peers that come, go and stay away: `on_connect`, `on_close`, `handle_disconnects` and `handle_afk` of
-- src/game/game_thread.cpp.
use tiny_lobby_tests.Prelude.{
  ℕ, ◌+◌, Bool, true, false, not, String, [], ◌∷◌, ◌==◌, ltb, if◌then◌else◌,
}
use tiny_lobby_tests.FlatMap.{FlatMap}
use tiny_lobby_tests.FlatMap
use tiny_lobby_tests.FlatSet.{FlatSet}
use tiny_lobby_tests.FlatSet
use tiny_lobby_tests.AnyType.{str, object}
use tiny_lobby_tests.Peer.{default_peer, to_dict, leave_lobby}
use tiny_lobby_tests.Messages.{notification_peer_state, notification_peer_disconnected}
use tiny_lobby_tests.Game.Monad.{
  M, ◌>>=◌, ◌>>◌, pure, skip, for_each, get_game, get_now, get_peer, read_peer, modify_peer,
  get_lobby, modify_game,
}
use tiny_lobby_tests.Game.Send.{send_text, send_to_others}
use tiny_lobby_tests.Game.Scripts.{LuaCall, callback}
use tiny_lobby_tests.Game.Membership.{report, remove_peer_from_lobby}

-- What the socket thread says of a new connection.
pub record Connected : Type 0 where
  pub peer_id : String
  pub game_id : String
  pub reconnection_token : String
  pub platform : String
  pub platform_id : String
  pub name : String

-- A known peer takes the new token and is no longer away; any other is entered.
unfoldable pub register : Connected → M (Unit {0})
register c = do
  game ← get_game
  if FlatMap.contains c.peer_id game.peers
      then (do
        modify_peer c.peer_id (λ p. record p { reconnection_token = c.reconnection_token })
        modify_game
            (λ g. record g { disconnected_peers = FlatMap.erase c.peer_id g.disconnected_peers }))
      else modify_game (λ g. record g {
        peers =
            FlatMap.emplace c.peer_id
              (record default_peer {
                id = c.peer_id;
                game_id = c.game_id;
                reconnection_token = c.reconnection_token;
                platform = c.platform;
                platform_id = c.platform_id;
              })
              g.peers;
      })

module _ (lua : LuaCall) where
  unfoldable pub on_connect : Connected → M (Unit {0})
  unfolding register
  on_connect c = do
    register c
    if c.platform == "anon"
        then skip
        else modify_peer c.peer_id
            (λ p. record p { user_data = FlatMap.insert "n" (str c.name) p.user_data })
    peer ← get_peer c.peer_id
    send_text peer.id (notification_peer_state (object (to_dict peer true true)))
    connected ← callback lua c.peer_id "" "_on_peer_connected" []
    report "" c.peer_id connected

  unfoldable pub on_close : String → M (Unit {0})
  on_close peer_id = do
    modify_game
        (λ g. record g { lobby_listing_peers = FlatSet.erase peer_id g.lobby_listing_peers })
    game ← get_game
    if not (FlatMap.contains peer_id game.peers) then skip else (do
      modify_peer peer_id (λ p. record p { ready = false; disconnected = true })
      now ← get_now
      modify_game
          (λ g. record g { disconnected_peers = FlatMap.emplace peer_id now g.disconnected_peers })
      peer ← read_peer peer_id
      if not (FlatMap.contains peer.lobby_id game.lobbies) then skip else (do
        lobby ← get_lobby peer.lobby_id
        send_to_others lobby.peer_ids peer_id (notification_peer_disconnected peer_id)
        closed ← callback lua peer_id peer.lobby_id "_on_peer_disconnected" []
        report "" peer_id closed))

  -- One round of the loop of `handle_disconnects`: whether the peer is to be erased.
  unfoldable pub expire : ℕ → String → ℕ → M Bool
  expire max_reconnection_time peer_id since = do
    game ← get_game
    now ← get_now
    if not (FlatMap.contains peer_id game.peers) then pure true else (do
      peer ← get_peer peer_id
      if not (FlatMap.contains peer.lobby_id game.lobbies)
          then (do modify_peer peer_id leave_lobby; pure true)
          else if ltb (since + max_reconnection_time) now
          then (do remove_peer_from_lobby lua peer.lobby_id peer.id "" true; pure true)
          else pure false)

  unfoldable pub expire_all : ℕ → FlatMap ℕ → M FlatSet
  unfolding expire
  expire_all max_reconnection_time [] = pure []
  expire_all max_reconnection_time ((peer_id, since) ∷ away) = do
    gone ← expire max_reconnection_time peer_id since
    rest ← expire_all max_reconnection_time away
    pure (if gone then FlatSet.insert peer_id rest else rest)

  -- For one game. The result is the set for WebSocketServer::clear_users.
  unfoldable pub handle_disconnects : ℕ → M FlatSet
  unfolding expire_all
  handle_disconnects max_reconnection_time = do
    game ← get_game
    to_erase ← expire_all max_reconnection_time game.disconnected_peers
    for_each to_erase (λ peer_id. modify_game (λ g. record g {
      disconnected_peers = FlatMap.erase peer_id g.disconnected_peers;
      peers = FlatMap.erase peer_id g.peers;
      lobby_listing_peers = FlatSet.erase peer_id g.lobby_listing_peers;
    }))
    pure to_erase
