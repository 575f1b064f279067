-- ===== src/Lua/Writes.antt =====
-- What scripts may do to the membership through the object `lobby` and its functions: `lobby_index` and
-- `lobby_newindex` of src/lua/script_lua.cpp and the functions of src/lua/script_lua_functions.cpp.
use tiny_lobby_tests.Prelude.{Bool, true, false, String, ◌≡◌, refl, ◌==◌, if◌then◌else◌}
use tiny_lobby_tests.FlatMap.{FlatMap}
use tiny_lobby_tests.FlatMap
use tiny_lobby_tests.AnyType.{AnyElement}
use tiny_lobby_tests.Peer.{PeerData}
use tiny_lobby_tests.Lobby.{LobbyData}
use tiny_lobby_tests.Game.{GameData}
use tiny_lobby_tests.Game.Monad.{M, skip, when}
use tiny_lobby_tests.Game.Rules.{
  Steady, Keeps, Keeps-pure, Keeps-if, Keeps-bind, Keeps-skip, Keeps-modify_peer,
  Keeps-modify_lobby, Keeps-get_peer, Keeps-get_lobby, is_some-seat, is_some-roster,
}
use tiny_lobby_tests.Game.Consistency.{IsConsistent, IsConsistent-same}
use tiny_lobby_tests.Lua.{LuaValue, Numbers, Outcome, done, fault}
use tiny_lobby_tests.Lua.Api.{check_string, checked, after}
use tiny_lobby_tests.Lua.Userdata.{
  LobbyType, lobby_root, lobby_public_data, lobby_private_data, lobby_tags, peer_root,
  peer_public_data, peer_private_data, peer_user_data, LobbyUserdata, replace_with, write_root,
  write_peer, write_field, lobby_newindex,
}

abbrev pub is_peer : LobbyType → Bool
is_peer peer_root = true
is_peer peer_public_data = true
is_peer peer_private_data = true
is_peer peer_user_data = true
is_peer _ = false

-- The lobby of an object is there, and its peer if it is one of a peer.
abbrev pub InReach : LobbyUserdata → GameData → Type 0
InReach info g =
    IsConsistent g
    × (FlatMap.contains info.lobby_id g.lobbies ≡ true)
    × (is_peer info.type ≡ true → FlatMap.contains info.peer_id g.peers ≡ true)

pub InReach-steady : (info : LobbyUserdata) → Steady (InReach info)
InReach-steady info = record {
  along = λ g h s c. (
    IsConsistent-same s c.0,
    is_some-roster _ _ (s.rosters info.lobby_id) c.1,
    λ e. is_some-seat _ _ (s.seats info.peer_id) (c.2 e),
  );
}

-- A write of `lobby.host`.
abbrev pub sets_host : LobbyType → Outcome String → Bool
sets_host lobby_root (done key) = key == "host"
sets_host _ _ = false

module _ {P : GameData → Type 0} (steady : Steady P) where
  pub Keeps-after : (m : M Unit) → Keeps P m → Keeps P (after m)
  Keeps-after m k = Keeps-bind steady m _ k λ _. Keeps-pure _

  pub Keeps-checked :
      {A : Type 0} (o : Outcome A) (f : A → M (Outcome Unit))
      → ((a : A) → Keeps P (f a))
      → Keeps P (checked o f)
  Keeps-checked (done a) f h = h a
  Keeps-checked (fault e) f h = Keeps-pure _

  Keeps-when : (b : Bool) (m : M Unit) → Keeps P m → Keeps P (when b m)
  Keeps-when b m k = Keeps-if b m skip k Keeps-skip

  Keeps-replace_with :
      (o : Outcome AnyElement) (f : FlatMap AnyElement → M Unit)
      → ((d : FlatMap AnyElement) → Keeps P (f d))
      → Keeps P (replace_with o f)
  Keeps-replace_with (fault e) f h = Keeps-pure _
  Keeps-replace_with (done (AnyElement.obj fs)) f h = Keeps-after _ (h _)
  Keeps-replace_with (done AnyElement.null) f h = Keeps-after _ Keeps-skip
  Keeps-replace_with (done (AnyElement.bool b)) f h = Keeps-after _ Keeps-skip
  Keeps-replace_with (done (AnyElement.int z)) f h = Keeps-after _ Keeps-skip
  Keeps-replace_with (done (AnyElement.real r)) f h = Keeps-after _ Keeps-skip
  Keeps-replace_with (done (AnyElement.str s)) f h = Keeps-after _ Keeps-skip
  Keeps-replace_with (done (AnyElement.arr xs)) f h = Keeps-after _ Keeps-skip

pub Keeps-else :
    {A : Type 0} {P : GameData → Type 0} (b : Bool) (m n : M A)
    → b ≡ false
    → Keeps P n
    → Keeps P (if b then m else n)
Keeps-else true m n h k = cc
Keeps-else false m n h k = k

ruleset writing = (
  Keeps-if, Keeps-when, Keeps-after, Keeps-checked, Keeps-replace_with, Keeps-pure, Keeps-skip,
  Keeps-modify_lobby, Keeps-modify_peer,
)

module _ (numbers : Numbers) (info : LobbyUserdata) where
  write_root-Keeps :
      {P : GameData → Type 0} (steady : Steady P) (lobby : LobbyData) (key : String)
      (value : LuaValue)
      → (key == "host") ≡ false
      → Keeps P (write_root numbers info lobby key value)
  unfolding write_root
  write_root-Keeps steady lobby key value other = search (Keeps-else, writing, steady) depth 20

  write_peer-Keeps :
      {P : GameData → Type 0} (steady : Steady P) (peer : PeerData) (key : String)
      (value : LuaValue)
      → Keeps P (write_peer numbers info peer key value)
  unfolding write_peer
  write_peer-Keeps steady peer key value = search (writing, steady) depth 20

  write_field-Keeps :
      {P : GameData → Type 0} (steady : Steady P) (type : LobbyType) (lobby : LobbyData)
      (key : String) (value : LuaValue)
      → sets_host type (done key) ≡ false
      → (is_peer type ≡ true → (g : GameData) → P g → FlatMap.contains info.peer_id g.peers ≡ true)
      → Keeps P (write_field numbers info type lobby key value)
  unfolding write_field
  write_field-Keeps steady lobby_root lobby key value h there =
      write_root-Keeps steady lobby key value h
  write_field-Keeps steady lobby_tags lobby key value h there = search (writing, steady) depth 12
  write_field-Keeps steady lobby_public_data lobby key value h there =
      search (writing, steady) depth 12
  write_field-Keeps steady lobby_private_data lobby key value h there =
      search (writing, steady) depth 12
  write_field-Keeps steady peer_root lobby key value h there =
      Keeps-bind steady _ _ (Keeps-get_peer info.peer_id (there refl))
        λ peer. write_peer-Keeps steady peer key value
  write_field-Keeps steady peer_public_data lobby key value h there =
      Keeps-bind steady _ _ (Keeps-get_peer info.peer_id (there refl))
        λ _. search (writing, steady) depth 12
  write_field-Keeps steady peer_private_data lobby key value h there =
      Keeps-bind steady _ _ (Keeps-get_peer info.peer_id (there refl))
        λ _. search (writing, steady) depth 12
  write_field-Keeps steady peer_user_data lobby key value h there =
      Keeps-bind steady _ _ (Keeps-get_peer info.peer_id (there refl))
        λ _. search (writing, steady) depth 12

  -- With `P` for what the caller knows.
  pub lobby_newindex-Keeps :
      {P : GameData → Type 0} (steady : Steady P) (key value : LuaValue)
      → ((g : GameData) → P g → InReach info g)
      → sets_host info.type (check_string numbers key) ≡ false
      → Keeps P (lobby_newindex numbers info key value)
  unfolding lobby_newindex
  lobby_newindex-Keeps {P} steady key value reach other =
      Keeps-bind steady _ _ (Keeps-get_lobby info.lobby_id (λ g c. (reach g c).1))
        λ lobby. go lobby (check_string numbers key) other
    where
      go :
          (lobby : LobbyData) (o : Outcome String)
          → sets_host info.type o ≡ false
          → Keeps P (checked o λ k. write_field numbers info info.type lobby k value)
      go lobby (done k) h =
          write_field-Keeps steady info.type lobby k value h (λ e g c. (reach g c).2 e)
      go lobby (fault e) h = Keeps-pure _
