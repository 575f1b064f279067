-- ===== src/Lua/Looks.antt =====
-- Reads of the object `lobby` leave the membership alone: `lobby_index` of src/lua/script_lua.cpp.
use tiny_lobby_tests.Prelude.{
  Bool, true, false, String, Option, none, some, List, [], ◌∷◌, ◌≡◌, refl, ◌==◌, ap, is_some, arith,
  beq_self,
}
use tiny_lobby_tests.FlatMap
use tiny_lobby_tests.FlatSet
use tiny_lobby_tests.Lobby.{LobbyData}
use tiny_lobby_tests.Game.{GameData, World}
use tiny_lobby_tests.Game.Monad.{◌>>=◌, for_each}
use tiny_lobby_tests.Game.Access.{get_lobby_found}
use tiny_lobby_tests.Game.Rules.{
  SameMembership, Steady, Keeps, Keeps-pure, Keeps-if, Keeps-bind, Keeps-skip, Keeps-get_game,
  Keeps-get_peer, is_some-seat,
}
use tiny_lobby_tests.Game.Consistency.{At, At-steady}
use tiny_lobby_tests.Game.Keeping.{all_known}
use tiny_lobby_tests.Lua.{LuaValue, Numbers, Outcome, done, fault}
use tiny_lobby_tests.Lua.Api.{check_string}
use tiny_lobby_tests.Lua.Userdata.{
  LobbyType, lobby_root, lobby_public_data, lobby_private_data, lobby_tags, peer_root,
  peer_public_data, peer_private_data, peer_user_data, LobbyUserdata,
}
use tiny_lobby_tests.Lua.Reads.{look_up, read_root, read_field, indexed, lobby_index}
use tiny_lobby_tests.Lua.Writes.{is_peer, InReach, Keeps-else}

-- A read of `lobby.peers_ordered`, which goes by a list that need not have the members only.
abbrev pub reads_order : LobbyType → Outcome String → Bool
reads_order lobby_root (done key) = key == "peers_ordered"
reads_order _ _ = false

abbrev Around : LobbyUserdata → List String → GameData → Type 0
Around info ps g =
    At info.lobby_id ps g
    × (is_peer info.type ≡ true → FlatMap.contains info.peer_id g.peers ≡ true)

Around-steady : (info : LobbyUserdata) (ps : List String) → Steady (Around info ps)
Around-steady info ps = record {
  along = λ g h s c. (
    (At-steady info.lobby_id ps).along g h s c.0,
    λ e. is_some-seat _ _ (s.seats info.peer_id) (c.1 e),
  );
}

module _ (numbers : Numbers) (info : LobbyUserdata) (lobby : LobbyData) where
  abbrev P : GameData → Type 0
  P = Around info lobby.peer_ids

  steady : Steady P
  steady = Around-steady info lobby.peer_ids

  look_up-Keeps :
      (ids : List String)
      → ((p : String) → FlatSet.contains p ids ≡ true → FlatSet.contains p lobby.peer_ids ≡ true)
      → Keeps P (look_up ids)
  unfolding for_each FlatSet.contains
  look_up-Keeps [] sub = Keeps-skip
  look_up-Keeps (q ∷ ids) sub =
      Keeps-bind steady _ _
        (Keeps-bind steady _ _ (Keeps-get_peer q (λ g c. c.0.2 q (sub q (rw (beq_self q) refl))))
          λ _. Keeps-skip)
        λ _. look_up-Keeps ids (λ p m. sub p (ground (arith, m)))

  read_root-Keeps :
      (key : String) → (key == "peers_ordered") ≡ false → Keeps P (read_root numbers info lobby key)
  unfolding read_root
  read_root-Keeps key other = Keeps-bind steady _ _ Keeps-get_game λ game.
      Keeps-if _ _ _
        (Keeps-bind steady _ _ (look_up-Keeps lobby.peer_ids (λ p m. m)) λ _. Keeps-pure _)
        (Keeps-else _ _ _ other (Keeps-pure _))

  read_field-Keeps :
      (type : LobbyType) (key : String)
      → reads_order type (done key) ≡ false
      → (is_peer type ≡ true → (g : GameData) → P g → FlatMap.contains info.peer_id g.peers ≡ true)
      → Keeps P (read_field numbers info type lobby key)
  unfolding read_field
  read_field-Keeps lobby_root key h there = read_root-Keeps key h
  read_field-Keeps lobby_tags key h there = Keeps-pure _
  read_field-Keeps lobby_public_data key h there = Keeps-pure _
  read_field-Keeps lobby_private_data key h there = Keeps-pure _
  read_field-Keeps peer_root key h there =
      Keeps-bind steady _ _ (Keeps-get_peer info.peer_id (there refl)) λ peer. Keeps-pure _
  read_field-Keeps peer_public_data key h there =
      Keeps-bind steady _ _ (Keeps-get_peer info.peer_id (there refl)) λ peer. Keeps-pure _
  read_field-Keeps peer_private_data key h there =
      Keeps-bind steady _ _ (Keeps-get_peer info.peer_id (there refl)) λ peer. Keeps-pure _
  read_field-Keeps peer_user_data key h there =
      Keeps-bind steady _ _ (Keeps-get_peer info.peer_id (there refl)) λ peer. Keeps-pure _

  indexed-Keeps :
      (o : Outcome String)
      → reads_order info.type o ≡ false
      → Keeps P (indexed numbers info lobby o)
  indexed-Keeps (fault e) h = Keeps-pure _
  indexed-Keeps (done key) h = Keeps-if _ _ _ (Keeps-pure _) (
      Keeps-bind steady _ _ (read_field-Keeps info.type key h (λ e g c. c.1 e))
        λ given. Keeps-pure _)

module _ (numbers : Numbers) (info : LobbyUserdata) (key : LuaValue) where
  found_there :
      (w : World) (o : Option LobbyData)
      → FlatMap.find info.lobby_id w.game.lobbies ≡ o
      → InReach info w.game
      → reads_order info.type (check_string numbers key) ≡ false
      → SameMembership w.game (lobby_index numbers info key w).1.game
  unfolding lobby_index ◌>>=◌
  found_there w none e reach h = cc (ap is_some e, reach.1)
  found_there w (some lobby) e reach h = rw (get_lobby_found info.lobby_id lobby w e) (
      (indexed-Keeps numbers info lobby (check_string numbers key) h).at w
        ((reach.0, reach.1, all_known info.lobby_id w.game lobby reach.0 e), reach.2))

  -- With `P` for what the caller knows.
  pub lobby_index-Keeps :
      {P : GameData → Type 0}
      → ((g : GameData) → P g → InReach info g)
      → reads_order info.type (check_string numbers key) ≡ false
      → Keeps P (lobby_index numbers info key)
  lobby_index-Keeps reach h = record {
    at = λ w c. found_there w (FlatMap.find info.lobby_id w.game.lobbies) refl (reach w.game c) h;
  }
