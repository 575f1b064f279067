-- ===== src/Lua/Reads.antt =====
-- What a script reads of the object `lobby`: `lobby_index` of src/lua/script_lua.cpp.
use tiny_lobby_tests.Prelude.{
  Bool, ◌||◌, String, none, some, List, [], ◌∷◌, ◌==◌, if◌then◌else◌, length,
}
use tiny_lobby_tests.Prelude.Int.{ℤ, pos}
use tiny_lobby_tests.FlatMap.{FlatMap}
use tiny_lobby_tests.FlatMap
use tiny_lobby_tests.AnyType.{AnyElement}
use tiny_lobby_tests.Peer.{PeerData}
use tiny_lobby_tests.Lobby.{LobbyData}
use tiny_lobby_tests.Game.Monad.{
  M, ◌>>=◌, ◌>>◌, pure, skip, for_each, get_game, get_lobby, get_peer,
}
use tiny_lobby_tests.Lua.{LuaValue, Numbers, Outcome, done, fault}
use tiny_lobby_tests.Lua.Value.{push_lua_value}
use tiny_lobby_tests.Lua.Api.{check_string}
use tiny_lobby_tests.Lua.Userdata.{
  LobbyType, lobby_root, lobby_public_data, lobby_private_data, lobby_tags, peer_root,
  peer_public_data, peer_private_data, peer_user_data, LobbyUserdata,
}

-- What is pushed: nothing, a function of the server, a value, an object, or a table of objects, by
-- name or from 1 on.
pub data Given : Type 0 where
  nothing : Given
  method : String → Given
  value : LuaValue → Given
  handle : LobbyUserdata → Given
  by_name : List (String × LobbyUserdata) → Given
  in_order : List LobbyUserdata → Given

abbrev pub is_method : String → Bool
is_method key =
    key == "start_timer"
    || key == "stop_timer"
    || key == "notify"
    || key == "notify_all"
    || key == "kick_peer"
    || key == "set_leaderboard"
    || key == "broadcast_chat"

-- A loop that looks every peer up, and does nothing with it.
abbrev pub look_up : List String → M (Unit {0})
look_up peer_ids = for_each peer_ids λ id. get_peer id >>= λ _. skip

module _ (numbers : Numbers) (info : LobbyUserdata) where
  abbrev number_of : ℤ → Given
  number_of z = value (LuaValue.number (numbers.of_int z))

  -- create_lobby_userdata with the other fields of this object
  abbrev derived : LobbyType → String → LobbyUserdata
  derived type peer_id = record info { type = type; peer_id = peer_id }

  unfoldable mapped : List String → List (String × LobbyUserdata)
  mapped [] = []
  mapped (id ∷ ids) = (id, derived peer_root id) ∷ mapped ids

  unfoldable ordered : List String → List LobbyUserdata
  ordered [] = []
  ordered (id ∷ ids) = derived peer_root id ∷ ordered ids

  abbrev stored : String → FlatMap AnyElement → Given
  stored key fields = elim (FlatMap.find key fields) [
    | some e ↦ value (push_lua_value numbers e)
    | none ↦ nothing
  ]

  unfoldable pub read_root : LobbyData → String → M Given
  unfolding mapped ordered
  read_root lobby key = do
    game ← get_game
    if key == "peers"
        then (do look_up lobby.peer_ids; pure (by_name (mapped lobby.peer_ids)))
        else if key == "peers_ordered"
        then (do look_up lobby.peer_ordered_ids; pure (in_order (ordered lobby.peer_ordered_ids)))
        else pure (
            if key == "calling_peer_id"
            then value (LuaValue.text info.calling_peer_id)
            else if key == "id"
            then value (LuaValue.text info.lobby_id)
            else if key == "tick_rate"
            then number_of (pos game.tick_rate)
            else if key == "name"
            then value (LuaValue.text lobby.name)
            else if key == "host"
            then value (LuaValue.text lobby.host)
            else if key == "max_players"
            then number_of lobby.max_players
            else if key == "create_time"
            then number_of (pos lobby.create_time)
            else if key == "sealed"
            then value (LuaValue.boolean lobby.sealed)
            else if key == "tags"
            then handle (derived lobby_tags "")
            else if key == "public_data"
            then handle (derived lobby_public_data "")
            else if key == "private_data"
            then handle (derived lobby_private_data "")
            else if key == "peers_count"
            then number_of (pos (length lobby.peer_ids))
            else nothing)

  unfoldable pub read_peer_root : PeerData → String → Given
  read_peer_root peer key =
      if key == "id"
      then value (LuaValue.text peer.id)
      else if key == "order_id"
      then number_of peer.order_id
      else if key == "platform"
      then value (LuaValue.text peer.platform)
      else if key == "platform_id"
      then value (LuaValue.text peer.platform_id)
      else if key == "ready"
      then value (LuaValue.boolean peer.ready)
      else if key == "disconnected"
      then value (LuaValue.boolean peer.disconnected)
      else if key == "public_data"
      then handle (derived peer_public_data peer.id)
      else if key == "private_data"
      then handle (derived peer_private_data peer.id)
      else if key == "user_data"
      then handle (derived peer_user_data peer.id)
      else nothing

  unfoldable pub read_field : LobbyType → LobbyData → String → M Given
  unfolding read_root read_peer_root
  read_field lobby_root lobby key = read_root lobby key
  read_field lobby_tags lobby key = pure (stored key lobby.tags)
  read_field lobby_public_data lobby key = pure (stored key lobby.public_data)
  read_field lobby_private_data lobby key = pure (stored key lobby.private_data)
  read_field peer_root lobby key = do peer ← get_peer info.peer_id; pure (read_peer_root peer key)
  read_field peer_public_data lobby key = do
    peer ← get_peer info.peer_id
    pure (stored key peer.public_data)
  read_field peer_private_data lobby key = do
    peer ← get_peer info.peer_id
    pure (stored key peer.private_data)
  read_field peer_user_data lobby key = do
    peer ← get_peer info.peer_id
    pure (stored key peer.user_data)

  abbrev pub indexed : LobbyData → Outcome String → M (Outcome Given)
  indexed lobby (fault e) = pure (fault e)
  indexed lobby (done key) =
      if is_method key
      then pure (done (method key))
      else (read_field info.type lobby key >>= λ given. pure (done given))

  unfoldable pub lobby_index : LuaValue → M (Outcome Given)
  unfolding read_field
  lobby_index key = do lobby ← get_lobby info.lobby_id; indexed lobby (check_string numbers key)
