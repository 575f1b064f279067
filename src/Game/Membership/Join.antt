-- ===== src/Game/Membership/Join.antt =====
-- `on_create_lobby` and `on_join_lobby` of src/game/game_thread.cpp. The result of boost's uuid
-- generator, cut to eight characters, is the argument `small_uuid`.
use tiny_lobby_tests.Prelude.{
  ◌+◌, Bool, true, false, not, ◌&&◌, ◌||◌, String, Option, none, some, List, [], ◌∷◌, ◌==◌, leb,
  length, ◌++◌, if◌then◌else◌,
}
use tiny_lobby_tests.Prelude.Int.{ℤ, pos, ltb_ℤ, eqb_ℤ, to_u64, cast_i32}
use tiny_lobby_tests.FlatMap.{FlatMap}
use tiny_lobby_tests.FlatMap
use tiny_lobby_tests.FlatSet
use tiny_lobby_tests.AnyType.{AnyElement, object, array}
use tiny_lobby_tests.AnyType.Decode.{
  Result, ok, err, decode_string_or_default, decode_int_or_default, decode_bool_or_default,
  decode_object,
}
use tiny_lobby_tests.Yyjson.{Json, obj_get}
use tiny_lobby_tests.Peer.{PeerData, leave_lobby}
use tiny_lobby_tests.Peer
use tiny_lobby_tests.Lobby.{LobbyData, default_lobby}
use tiny_lobby_tests.Lobby
use tiny_lobby_tests.Messages.{
  notification_lobby_created, notification_peer_reconnected, notification_peer_joined,
  notification_lobby_joined,
}
use tiny_lobby_tests.Messages.Errors.{
  error_peer_is_in_a_lobby, error_lobby_full, error_invalid_tags, error_lobby_not_found,
  error_lobby_wrong_password,
}
use tiny_lobby_tests.Game.{GameData, is_relay}
use tiny_lobby_tests.Game.Monad.{
  M, ◌>>=◌, ◌>>◌, pure, skip, get_game, get_now, get_peer, read_peer, modify_peer, peer_of,
  get_lobby, read_lobby, modify_lobby, modify_game,
}
use tiny_lobby_tests.Game.Send.{send_text, send_to_others, on_error, mark_updated}
use tiny_lobby_tests.Game.Scripts.{LuaCall, callback, error_result}
use tiny_lobby_tests.Game.Membership.Guards.{reject_or}

-- GameData::peers_to_array (src/game/game_data.h)
unfoldable pub peers_array : List String → M (List AnyElement)
peers_array [] = pure []
peers_array (p ∷ ps) = do
  peer ← get_peer p
  rest ← peers_array ps
  pure (object (Peer.to_dict peer false false) ∷ rest)

unfoldable pub peers_to_array : String → M AnyElement
unfolding peers_array
peers_to_array lobby_id = do
  lobby ← get_lobby lobby_id
  peers ← peers_array lobby.peer_ids
  pure (array peers)

-- std::sort by `order_id`, as an insertion sort: an element goes before the first one that is greater.
-- (The comparison's operator[] finds every member among the peers.)
unfoldable pub insert_by_order : GameData → String → List String → List String
insert_by_order g x [] = x ∷ []
insert_by_order g x (y ∷ ys) =
    let rest = insert_by_order g x ys in
    if ltb_ℤ (peer_of g x).order_id (peer_of g y).order_id then x ∷ y ∷ ys else y ∷ rest

unfoldable pub sort_by_order : GameData → List String → List String
unfolding insert_by_order
sort_by_order g [] = []
sort_by_order g (x ∷ xs) = insert_by_order g x (sort_by_order g xs)

-- if (has_error && holds_alternative<string>) on_error(...)
unfoldable pub report : String → String → AnyElement × Bool → M (Unit {0})
unfolding reject_or
report command_id peer_id r = reject_or command_id peer_id (error_result r) true skip

-- Reading the tags: those of the caller, or those of the message.
abbrev pub create_tags : Option (FlatMap AnyElement) → Option Json → Result (FlatMap AnyElement)
create_tags (some tags) data_val = ok tags
create_tags none data_val = decode_object (obj_get data_val "t") []

abbrev pub join_lobby_id : PeerData → Option Json → String → String
join_lobby_id peer data_val lobby_id_override =
    if peer.disconnected && not (peer.lobby_id == "")
    then peer.lobby_id
    else if lobby_id_override == ""
    then decode_string_or_default data_val "l" ""
    else lobby_id_override

-- The checks of a join that is no reconnection.
unfoldable pub join_refused : PeerData → LobbyData → Option Json → Option String
join_refused peer lobby data_val =
    if not (peer.lobby_id == "")
    then some error_peer_is_in_a_lobby
    else if not (lobby.password == decode_string_or_default data_val "_p" "")
    then some error_lobby_wrong_password
    else if not (eqb_ℤ lobby.max_players (pos 0))
        && leb (to_u64 lobby.max_players) (length lobby.peer_ids)
    then some error_lobby_full
    else none

-- The changes of a join that is no reconnection.
unfoldable pub enter_lobby : String → String → M (Unit {0})
unfolding sort_by_order
enter_lobby lobby_id peer_id = do
  modify_lobby lobby_id (λ l. record l { order_id_counter = l.order_id_counter + 1 })
  lobby ← read_lobby lobby_id
  modify_peer peer_id
      (λ p. record p { order_id = cast_i32 (pos lobby.order_id_counter); lobby_id = lobby_id })
  peer ← read_peer peer_id
  modify_lobby lobby_id (λ l. record l {
    peer_ids = FlatSet.insert peer.id l.peer_ids;
    peer_ordered_ids = l.peer_ordered_ids ++ peer.id ∷ [];
  })
  game ← get_game
  modify_lobby lobby_id (λ l. record l { peer_ordered_ids = sort_by_order game l.peer_ordered_ids })
  mark_updated lobby_id

module _ (lua : LuaCall) where
  -- From the creation of the lobby on.
  unfoldable pub open_lobby :
      String → String → String → Option Json → ℤ → FlatMap AnyElement → M (Unit {0})
  unfolding peers_to_array
  open_lobby command_id peer_id small_uuid data_val max_players lobby_tags = do
    modify_peer peer_id (λ p. record p { lobby_id = small_uuid })
    peer ← read_peer peer_id
    now ← get_now
    modify_game (λ g. record g {
      lobbies =
          FlatMap.emplace small_uuid
            (record default_lobby {
              id = small_uuid;
              name = decode_string_or_default data_val "n" "";
              host = peer.id;
              password = decode_string_or_default data_val "_p" "";
              max_players = max_players;
              peer_ids = peer.id ∷ [];
              peer_ordered_ids = peer.id ∷ [];
              create_time = now;
              game_id = peer.game_id;
              sealed = decode_bool_or_default data_val "s" g.seal;
              tags = lobby_tags;
            })
            g.lobbies;
    })
    can_create ← callback lua peer.id peer.lobby_id "_can_create_lobby" []
    elim (error_result can_create) [
      | some message ↦ do
        modify_peer peer_id leave_lobby
        modify_game (λ g. record g { lobbies = FlatMap.erase small_uuid g.lobbies })
        on_error command_id peer.id message false true
      | none ↦ do
        modify_peer peer_id (λ p. record p { disconnected = false })
        lobby ← get_lobby small_uuid
        peers ← peers_to_array small_uuid
        send_text peer.id
            (notification_lobby_created (object (Lobby.to_dict lobby false)) peers command_id)
        peer_now ← read_peer peer_id
        created ← callback lua peer.id peer_now.lobby_id "_on_lobby_created" []
        report command_id peer.id created
        peer_after ← read_peer peer_id
        mark_updated peer_after.lobby_id
    ]

  unfoldable pub on_create_lobby :
      String → String → String → Option Json → Option (FlatMap AnyElement) → M (Unit {0})
  unfolding open_lobby
  on_create_lobby command_id peer_id small_uuid data_val previous_tags = do
    peer ← get_peer peer_id
    if not (peer.lobby_id == "")
        then on_error command_id peer.id error_peer_is_in_a_lobby false false
        else if ltb_ℤ (decode_int_or_default data_val "m" (pos 0)) (pos 1)
        then on_error command_id peer.id error_lobby_full false false
        else elim (create_tags previous_tags data_val) [
          | err e ↦ on_error command_id peer.id error_invalid_tags false false
          | ok lobby_tags ↦
              open_lobby command_id peer_id small_uuid data_val
                (decode_int_or_default data_val "m" (pos 0)) lobby_tags
        ]

  -- The notifications of a join.
  unfoldable pub announce_join : String → String → String → Bool → M (Unit {0})
  unfolding peers_to_array
  announce_join command_id peer_id lobby_id reconnecting = do
    peer ← read_peer peer_id
    lobby ← read_lobby lobby_id
    send_to_others lobby.peer_ids peer.id (
        if reconnecting
        then notification_peer_reconnected peer.id
        else notification_peer_joined (object (Peer.to_dict peer false false)))
    game ← get_game
    peers ← peers_to_array lobby.id
    send_text peer.id (
        notification_lobby_joined
          (object (Lobby.to_dict lobby (is_relay game && lobby.host == peer.id))) peers command_id)

  -- From the callback on; the checks have passed.
  unfoldable pub admit : String → String → String → Bool → M Bool
  unfolding enter_lobby announce_join
  admit command_id peer_id lobby_id reconnecting = do
    peer ← read_peer peer_id
    can_join ← callback lua peer.id lobby_id "_can_peer_join" []
    elim (error_result can_join) [
      | some message ↦ do on_error command_id peer.id message false true; pure false
      | none ↦ do
        if reconnecting
            then modify_peer peer_id (λ p. record p { ready = false })
            else enter_lobby lobby_id peer_id
        modify_peer peer_id (λ p. record p { disconnected = false })
        announce_join command_id peer_id lobby_id reconnecting
        if reconnecting
            then skip
            else callback lua peer.id lobby_id "_on_peer_joined" [] >>= report command_id peer.id
        pure true
    ]

  unfoldable pub on_join_lobby : String → String → Option Json → String → M Bool
  unfolding admit join_refused
  on_join_lobby command_id peer_id data_val lobby_id_override = do
    peer ← get_peer peer_id
    game ← get_game
    let lobby_id = join_lobby_id peer data_val lobby_id_override
    if lobby_id == "" || not (FlatMap.contains lobby_id game.lobbies)
        then (do on_error command_id peer.id error_lobby_not_found false false; pure false)
        else (do
          lobby ← get_lobby lobby_id
          if peer.disconnected && not (peer.lobby_id == "")
              then admit command_id peer_id lobby_id true
              else elim (join_refused peer lobby data_val) [
                | some message ↦ do on_error command_id peer.id message false false; pure false
                | none ↦ admit command_id peer_id lobby_id false
              ])
