-- ===== src/Game/Lobbies.antt =====
-- Listing the lobbies: `on_list_lobby`, `on_stop_list_lobby` and `handle_lobby_list` of
-- src/game/game_thread.cpp.
use tiny_lobby_tests.Prelude.{
  false, not, ◌||◌, String, Option, none, some, List, [], ◌∷◌, ◌==◌, leb, take, map, is_nil,
  if◌then◌else◌,
}
use tiny_lobby_tests.FlatMap.{FlatMap}
use tiny_lobby_tests.FlatMap
use tiny_lobby_tests.FlatSet
use tiny_lobby_tests.AnyType.{AnyElement, str, object, array}
use tiny_lobby_tests.Lobby.{LobbyData, to_dict}
use tiny_lobby_tests.Messages.{dict, notification_lobby_list, notification_lobby_stop_listing}
use tiny_lobby_tests.Game.{GameData}
use tiny_lobby_tests.Game.Monad.{M, ◌>>=◌, ◌>>◌, pure, get_game, get_peer, get_lobby, modify_game}
use tiny_lobby_tests.Game.Send.{send_text, send_to_all}

-- The lobbies that are not sealed, or are the peer's own.
unfoldable pub visible : String → FlatMap LobbyData → List LobbyData
visible own_lobby_id [] = []
visible own_lobby_id ((k, l) ∷ lobbies) =
    let rest = visible own_lobby_id lobbies in
    if not l.sealed || own_lobby_id == l.id then l ∷ rest else rest

-- std::sort by `create_time`, as an insertion sort.
unfoldable pub insert_by_time : LobbyData → List LobbyData → List LobbyData
insert_by_time a [] = a ∷ []
insert_by_time a (b ∷ ls) =
    let rest = insert_by_time a ls in
    if leb a.create_time b.create_time then a ∷ b ∷ ls else b ∷ rest

unfoldable pub sort_by_time : List LobbyData → List LobbyData
unfolding insert_by_time
sort_by_time [] = []
sort_by_time (a ∷ ls) = insert_by_time a (sort_by_time ls)

-- The ids of at most a hundred of them, the oldest first.
unfoldable pub selected_lobbies : GameData → String → List String
unfolding sort_by_time visible
selected_lobbies g own_lobby_id =
    map (λ l. l.id) (take 100 (sort_by_time (visible own_lobby_id g.lobbies)))

unfoldable pub lobby_dicts : List String → M (List AnyElement)
lobby_dicts [] = pure []
lobby_dicts (lobby_id ∷ ids) = do
  lobby ← get_lobby lobby_id
  rest ← lobby_dicts ids
  pure (object (to_dict lobby false) ∷ rest)

unfoldable pub on_list_lobby : String → String → M (Unit {0})
unfolding selected_lobbies lobby_dicts
on_list_lobby command_id peer_id = do
  peer ← get_peer peer_id
  game ← get_game
  if FlatSet.contains peer.id game.lobby_listing_peers
      then send_text peer.id (notification_lobby_list (array []) command_id)
      else (do
        modify_game
            (λ g. record g { lobby_listing_peers = FlatSet.insert peer.id g.lobby_listing_peers })
        lobbies ← lobby_dicts (selected_lobbies game peer.lobby_id)
        send_text peer.id (notification_lobby_list (array lobbies) command_id))

unfoldable pub on_stop_list_lobby : String → String → M (Unit {0})
on_stop_list_lobby command_id peer_id = do
  peer ← get_peer peer_id
  game ← get_game
  if not (FlatSet.contains peer.id game.lobby_listing_peers)
      then send_text peer.id (notification_lobby_list (array []) command_id)
      else (do
        modify_game
            (λ g. record g { lobby_listing_peers = FlatSet.erase peer.id g.lobby_listing_peers })
        send_text peer.id (notification_lobby_stop_listing command_id))

-- What the listing shows of an updated lobby: of one that is gone or sealed, its id alone.
listed : String → Option LobbyData → AnyElement
listed lobby_id none = object (dict (("id", str lobby_id) ∷ []))
listed lobby_id (some lobby) =
    if lobby.sealed then object (dict (("id", str lobby_id) ∷ [])) else object (to_dict lobby false)

unfoldable pub updated_lobbies : FlatMap LobbyData → List String → List AnyElement
unfolding listed
updated_lobbies lobbies [] = []
updated_lobbies lobbies (lobby_id ∷ ids) =
    listed lobby_id (FlatMap.find lobby_id lobbies) ∷ updated_lobbies lobbies ids

-- For one game.
unfoldable pub handle_lobby_list : M (Unit {0})
unfolding updated_lobbies
handle_lobby_list = do
  game ← get_game
  if is_nil game.lobbies_updated || is_nil game.lobby_listing_peers
      then modify_game (λ g. record g { lobbies_updated = [] })
      else (do
        send_to_all game.lobby_listing_peers
            (notification_lobby_list (array (updated_lobbies game.lobbies game.lobbies_updated)) "")
        modify_game (λ g. record g { lobbies_updated = [] }))
