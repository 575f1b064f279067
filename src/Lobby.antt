-- ===== src/Lobby.antt =====
-- src/game/lobby_data.h.
use tiny_lobby_tests.Prelude.{
  ℕ, Bool, false, not, String, List, [], ◌∷◌, ◌++◌, ◌==◌, if◌then◌else◌, length,
}
use tiny_lobby_tests.Prelude.Int.{ℤ, pos}
use tiny_lobby_tests.FlatMap.{FlatMap, assign_all}
use tiny_lobby_tests.FlatSet.{FlatSet}
use tiny_lobby_tests.AnyType.{AnyElement, bool, int, str, object}

-- Times are milliseconds since the epoch; they and the counters do not reach 2^63.
pub record LobbyData : Type 0 where
  pub id : String
  pub name : String
  pub host : String
  pub password : String
  pub max_players : ℤ
  pub peer_ids : FlatSet
  pub peer_ordered_ids : List String
  pub create_time : ℕ
  pub game_id : String
  pub sealed : Bool
  pub disband_on_leave : Bool
  pub public_data : FlatMap AnyElement
  pub private_data : FlatMap AnyElement
  pub tags : FlatMap AnyElement
  pub order_id_counter : ℕ
  pub public_data_diff : FlatMap AnyElement
  pub public_data_dirty : Bool
  pub private_data_diff : FlatMap AnyElement
  pub private_data_dirty : Bool
  pub tags_diff : FlatMap AnyElement
  pub tags_dirty : Bool
  pub max_players_dirty : Bool
  pub sealed_dirty : Bool
  pub name_dirty : Bool

-- LobbyData(), which operator[] of the map of lobbies makes.
abbrev pub default_lobby : LobbyData
default_lobby = record {
  id = "";
  name = "";
  host = "";
  password = "";
  max_players = pos 0;
  peer_ids = [];
  peer_ordered_ids = [];
  create_time = 0;
  game_id = "";
  sealed = false;
  disband_on_leave = false;
  public_data = [];
  private_data = [];
  tags = [];
  order_id_counter = 0;
  public_data_diff = [];
  public_data_dirty = false;
  private_data_diff = [];
  private_data_dirty = false;
  tags_diff = [];
  tags_dirty = false;
  max_players_dirty = false;
  sealed_dirty = false;
  name_dirty = false;
}

-- The private data is written under the key of the password flag.
unfoldable pub to_dict : LobbyData → Bool → FlatMap AnyElement
to_dict l include_private = assign_all fields []
  where
    fields : List (String × AnyElement)
    fields =
        (("id", str l.id)
          ∷ ("n", str l.name)
          ∷ ("h", str l.host)
          ∷ ("s", bool l.sealed)
          ∷ ("m", int l.max_players)
          ∷ ("p", int (pos (length l.peer_ids)))
          ∷ ("c", int (pos l.create_time))
          ∷ ("_p", bool (not (l.password == "")))
          ∷ ("t", object l.tags)
          ∷ ("d", object l.public_data)
          ∷ [])
        ++ (if include_private then ("_p", object l.private_data) ∷ [] else [])
