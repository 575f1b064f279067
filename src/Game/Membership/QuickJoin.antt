-- ===== src/Game/Membership/QuickJoin.antt =====
-- `lobby_contains_tags` and `on_quick_join` of src/game/game_thread.cpp.
use tiny_lobby_tests.Prelude.{
  Bool, true, false, not, ◌&&◌, String, Option, none, some, List, [], ◌∷◌, ◌==◌, ltb, length,
  if◌then◌else◌,
}
use tiny_lobby_tests.Prelude.Int.{to_u64}
use tiny_lobby_tests.FlatMap.{FlatMap}
use tiny_lobby_tests.FlatMap
use tiny_lobby_tests.AnyType.{AnyElement}
use tiny_lobby_tests.AnyType.Equality.{element_eq}
use tiny_lobby_tests.AnyType.Decode.{ok, err, decode_object}
use tiny_lobby_tests.Yyjson.{Json, obj_get}
use tiny_lobby_tests.Lobby.{LobbyData}
use tiny_lobby_tests.Messages.Errors.{error_invalid_tags}
use tiny_lobby_tests.Game.Monad.{M, ◌>>=◌, pure, skip, get_game, get_peer, read_lobby}
use tiny_lobby_tests.Game.Send.{on_error}
use tiny_lobby_tests.Game.Scripts.{LuaCall}
use tiny_lobby_tests.Game.Membership.Join.{on_join_lobby, on_create_lobby}

tag_matches : AnyElement → Option AnyElement → Bool
tag_matches wanted none = false
tag_matches wanted (some found) = element_eq found wanted

unfoldable pub lobby_contains_tags : FlatMap AnyElement → FlatMap AnyElement → Bool
unfolding tag_matches
lobby_contains_tags [] lobby_tags = true
lobby_contains_tags ((k, v) ∷ joining_tags) lobby_tags =
    tag_matches v (FlatMap.find k lobby_tags) && lobby_contains_tags joining_tags lobby_tags

-- There is room, and the lobby is neither sealed nor protected. The comparison with a `size_t` is
-- one of unsigned numbers.
unfoldable pub is_open : LobbyData → Bool
is_open lobby =
    ltb (length lobby.peer_ids) (to_u64 lobby.max_players)
    && not lobby.sealed
    && lobby.password == ""

-- The condition of the loop, tests in the source's order.
unfoldable pub is_candidate : FlatMap AnyElement → String → M Bool
unfolding is_open
is_candidate lobby_tags lobby_id = do
  lobby ← read_lobby lobby_id
  if not (is_open lobby)
      then pure false
      else if lobby.host == ""
      then pure (lobby_contains_tags lobby_tags lobby.tags)
      else (do
        host ← get_peer lobby.host
        pure (not host.disconnected && lobby_contains_tags lobby_tags lobby.tags))

module _ (lua : LuaCall) (command_id peer_id : String) (data_val : Option Json) where
  -- The loop over the lobbies; whether one was joined.
  unfoldable pub join_first : FlatMap AnyElement → List String → M Bool
  unfolding is_candidate
  join_first lobby_tags [] = pure false
  join_first lobby_tags (lobby_id ∷ rest) = do
    fits ← is_candidate lobby_tags lobby_id
    lobby ← read_lobby lobby_id
    joined ← if fits then on_join_lobby lua command_id peer_id data_val lobby.id else pure false
    if joined then pure true else join_first lobby_tags rest

  unfoldable pub search_lobby : String → M (Unit {0})
  unfolding join_first
  search_lobby small_uuid = do
    peer ← get_peer peer_id
    elim (decode_object (obj_get data_val "t") []) [
      | err e ↦ on_error command_id peer.id error_invalid_tags false false
      | ok lobby_tags ↦ do
        game ← get_game
        joined ← join_first lobby_tags (FlatMap.keys game.lobbies)
        if joined
            then skip
            else on_create_lobby lua command_id peer_id small_uuid data_val (some lobby_tags)
    ]

  unfoldable pub on_quick_join : String → M (Unit {0})
  unfolding search_lobby
  on_quick_join small_uuid = do
    peer ← get_peer peer_id
    joined ←
        if not (peer.lobby_id == "")
        then on_join_lobby lua command_id peer_id data_val ""
        else pure false
    if joined then skip else search_lobby small_uuid
