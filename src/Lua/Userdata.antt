-- ===== src/Lua/Userdata.antt =====
-- The object `lobby` of a script: `lobby_newindex` and `lobby_index` of src/lua/script_lua.cpp, for one
-- game. The cache of `cache_lobby_property` keeps what would be made again with the same fields, so it
-- does not show here. The numbers handed to lua_pushinteger are below 2^31.
use tiny_lobby_tests.Prelude.{
  Bool, true, false, not, ◌||◌, String, Option, none, some, ◌==◌, if◌then◌else◌,
}
use tiny_lobby_tests.Prelude.Int.{ℤ, pos}
use tiny_lobby_tests.FlatMap.{FlatMap}
use tiny_lobby_tests.FlatMap
use tiny_lobby_tests.AnyType.{AnyElement, entries, object}
use tiny_lobby_tests.AnyType.Decode.{c_str}
use tiny_lobby_tests.AnyType.Equality.{element_eq}
use tiny_lobby_tests.Peer.{PeerData}
use tiny_lobby_tests.Lobby.{LobbyData}
use tiny_lobby_tests.Game.Monad.{
  M, ◌>>=◌, pure, skip, when, get_lobby, get_peer, modify_lobby, modify_peer,
}
use tiny_lobby_tests.Lua.{LuaValue, Numbers, null_text, Outcome, done, fault}
use tiny_lobby_tests.Lua.Value.{decode_luavalue}
use tiny_lobby_tests.Lua.Api.{set_lobby_host, check_string, checked, after}

pub data LobbyType : Type 0 where
  lobby_root : LobbyType
  lobby_public_data : LobbyType
  lobby_private_data : LobbyType
  lobby_tags : LobbyType
  peer_root : LobbyType
  peer_public_data : LobbyType
  peer_private_data : LobbyType
  peer_user_data : LobbyType

pub record LobbyUserdata : Type 0 where
  pub type : LobbyType
  pub game_id : String
  pub lobby_id : String
  pub calling_peer_id : String
  pub peer_id : String

abbrev pub dict_of : AnyElement → Option (FlatMap AnyElement)
dict_of (AnyElement.obj fs) = some (entries fs)
dict_of _ = none

-- Another dictionary than the one there, or any while the one there is not sent.
abbrev replaces : Bool → FlatMap AnyElement → FlatMap AnyElement → Bool
replaces dirty old new = dirty || not (element_eq (object old) (object new))

-- lobby[key] = value on the lobby itself
abbrev pub put_lobby_public : FlatMap AnyElement → LobbyData → LobbyData
put_lobby_public new l = record l {
  public_data = new;
  public_data_diff = new;
  public_data_dirty = true;
}

abbrev pub put_lobby_private : FlatMap AnyElement → LobbyData → LobbyData
put_lobby_private new l = record l {
  private_data = new;
  private_data_diff = new;
  private_data_dirty = true;
}

abbrev pub put_tags : FlatMap AnyElement → LobbyData → LobbyData
put_tags new l = record l { tags = new; tags_diff = new; tags_dirty = true }

abbrev pub put_peer_public : FlatMap AnyElement → PeerData → PeerData
put_peer_public new p = record p {
  public_data = new;
  public_data_dirty = true;
  public_data_diff = new;
}

abbrev pub put_peer_private : FlatMap AnyElement → PeerData → PeerData
put_peer_private new p = record p {
  private_data = new;
  private_data_dirty = true;
  private_data_diff = new;
}

-- lua_tostring, lua_toboolean and lua_tointegerx
unfoldable pub text_of : Numbers → LuaValue → Outcome String
text_of numbers (LuaValue.text s) = done (c_str s)
text_of numbers (LuaValue.number bits) = done (numbers.show bits)
text_of numbers _ = fault null_text

unfoldable pub truth_of : LuaValue → Bool
truth_of LuaValue.nil = false
truth_of (LuaValue.boolean b) = b
truth_of _ = true

unfoldable pub integer_of : Numbers → LuaValue → ℤ
integer_of numbers (LuaValue.number bits) = numbers.to_int32 bits
integer_of numbers (LuaValue.text s) = elim (numbers.read s) [
  | some bits ↦ numbers.to_int32 bits
  | none ↦ pos 0
]
integer_of numbers _ = pos 0

abbrev same_bool : Bool → Bool → Bool
same_bool true b = b
same_bool false b = not b

abbrev same_int : ℤ → ℤ → Bool
same_int m n = element_eq (AnyElement.int m) (AnyElement.int n)

-- The dictionary that a value is decoded to, if it is one.
abbrev pub replace_with :
    Outcome AnyElement → (FlatMap AnyElement → M (Unit {0})) → M (Outcome (Unit {0}))
replace_with decoded f =
    checked decoded λ e. after (elim (dict_of e) [ some new ↦ f new | none ↦ skip ])

module _ (numbers : Numbers) (info : LobbyUserdata) where
  unfoldable pub write_root : LobbyData → String → LuaValue → M (Outcome (Unit {0}))
  unfolding set_lobby_host
  write_root lobby key value =
      let decoded = decode_luavalue numbers value in
      let sealed = truth_of value in
      let max_players = integer_of numbers value in
      if key == "sealed"
      then after (
          when (not (same_bool sealed lobby.sealed))
            (modify_lobby info.lobby_id (λ l. record l { sealed = sealed; sealed_dirty = true })))
      else if key == "name"
      then checked (text_of numbers value) (λ name. after (
          when (not (name == lobby.name))
            (modify_lobby info.lobby_id (λ l. record l { name = name; name_dirty = true }))))
      else if key == "host"
      then checked (text_of numbers value) (λ host. after (set_lobby_host info.lobby_id lobby host))
      else if key == "max_players"
      then after (
          when (not (same_int max_players lobby.max_players)) (
            modify_lobby info.lobby_id
              (λ l. record l { max_players = max_players; max_players_dirty = true })))
      else if key == "public_data"
      then replace_with decoded (λ new.
        when (replaces lobby.public_data_dirty lobby.public_data new)
          (modify_lobby info.lobby_id (put_lobby_public new)))
      else if key == "private_data"
      then replace_with decoded (λ new.
        when (replaces lobby.private_data_dirty lobby.private_data new)
          (modify_lobby info.lobby_id (put_lobby_private new)))
      else if key == "tags"
      then replace_with decoded (λ new.
        when (replaces lobby.tags_dirty lobby.tags new) (modify_lobby info.lobby_id (put_tags new)))
      else pure (done tt)

  -- The same on a peer.
  unfoldable pub write_peer : PeerData → String → LuaValue → M (Outcome (Unit {0}))
  write_peer peer key value =
      let decoded = decode_luavalue numbers value in
      if key == "public_data"
      then replace_with decoded (λ new.
        when (replaces peer.public_data_dirty peer.public_data new)
          (modify_peer info.peer_id (put_peer_public new)))
      else if key == "private_data"
      then replace_with decoded (λ new.
        when (replaces peer.private_data_dirty peer.private_data new)
          (modify_peer info.peer_id (put_peer_private new)))
      else pure (done tt)

  unfoldable pub write_field : LobbyType → LobbyData → String → LuaValue → M (Outcome (Unit {0}))
  unfolding write_root write_peer
  write_field lobby_root lobby key value = write_root lobby key value
  write_field lobby_tags lobby key value = checked (decode_luavalue numbers value) λ e. after (
      modify_lobby info.lobby_id (λ l. record l {
        tags = FlatMap.insert key e l.tags;
        tags_dirty = true;
        tags_diff = FlatMap.insert key e l.tags_diff;
      }))
  write_field lobby_public_data lobby key value = checked (decode_luavalue numbers value) λ e.
      after (
        modify_lobby info.lobby_id (λ l. record l {
          public_data = FlatMap.insert key e l.public_data;
          public_data_dirty = true;
          public_data_diff = FlatMap.insert key e l.public_data_diff;
        }))
  write_field lobby_private_data lobby key value = checked (decode_luavalue numbers value) λ e.
      after (
        modify_lobby info.lobby_id (λ l. record l {
          private_data = FlatMap.insert key e l.private_data;
          private_data_dirty = true;
          private_data_diff = FlatMap.insert key e l.private_data_diff;
        }))
  write_field peer_root lobby key value = do peer ← get_peer info.peer_id; write_peer peer key value
  write_field peer_public_data lobby key value = do
    _ ← get_peer info.peer_id
    checked (decode_luavalue numbers value) λ e. after (
        modify_peer info.peer_id (λ p. record p {
          public_data = FlatMap.insert key e p.public_data;
          public_data_dirty = true;
          public_data_diff = FlatMap.insert key e p.public_data_diff;
        }))
  write_field peer_private_data lobby key value = do
    _ ← get_peer info.peer_id
    checked (decode_luavalue numbers value) λ e. after (
        modify_peer info.peer_id (λ p. record p {
          private_data = FlatMap.insert key e p.private_data;
          private_data_dirty = true;
          private_data_diff = FlatMap.insert key e p.private_data_diff;
        }))
  write_field peer_user_data lobby key value = do
    _ ← get_peer info.peer_id
    checked (decode_luavalue numbers value) λ e. after (
        modify_peer info.peer_id (λ p. record p {
          user_data = FlatMap.insert key e p.user_data;
          user_data_dirty = true;
          user_data_diff = FlatMap.insert key e p.user_data_diff;
        }))

  unfoldable pub lobby_newindex : LuaValue → LuaValue → M (Outcome (Unit {0}))
  unfolding write_field
  lobby_newindex key value = do
    lobby ← get_lobby info.lobby_id
    checked (check_string numbers key) λ key. write_field info.type lobby key value
