-- ===== src/Peer.antt =====
-- src/game/peer_data.h.
use tiny_lobby_tests.Prelude.{ℕ, Bool, false, String, List, [], ◌∷◌, ◌++◌, if◌then◌else◌}
use tiny_lobby_tests.Prelude.Int.{ℤ, pos}
use tiny_lobby_tests.FlatMap.{FlatMap, assign_all}
use tiny_lobby_tests.AnyType.{AnyElement, bool, int, str, object}

-- Times are milliseconds since the epoch; they and the counters do not reach 2^63.
pub record PeerData : Type 0 where
  pub id : String
  pub order_id : ℤ
  pub last_message_time : ℕ
  pub game_id : String
  pub reconnection_token : String
  pub lobby_id : String
  pub platform : String
  pub platform_id : String
  pub public_data : FlatMap AnyElement
  pub private_data : FlatMap AnyElement
  pub user_data : FlatMap AnyElement
  pub disconnected : Bool
  pub ready : Bool
  pub public_data_diff : FlatMap AnyElement
  pub public_data_dirty : Bool
  pub private_data_diff : FlatMap AnyElement
  pub private_data_dirty : Bool
  pub user_data_diff : FlatMap AnyElement
  pub user_data_dirty : Bool

-- PeerData(), which operator[] of the map of peers makes.
abbrev pub default_peer : PeerData
default_peer = record {
  id = "";
  order_id = pos 0;
  last_message_time = 0;
  game_id = "";
  reconnection_token = "";
  lobby_id = "";
  platform = "";
  platform_id = "";
  public_data = [];
  private_data = [];
  user_data = [];
  disconnected = false;
  ready = false;
  public_data_diff = [];
  public_data_dirty = false;
  private_data_diff = [];
  private_data_dirty = false;
  user_data_diff = [];
  user_data_dirty = false;
}

unfoldable pub leave_lobby : PeerData → PeerData
leave_lobby p = record p {
  lobby_id = "";
  ready = false;
  order_id = pos 0;
  public_data = [];
  private_data = [];
  disconnected = false;
}

unfoldable pub to_dict : PeerData → Bool → Bool → FlatMap AnyElement
to_dict p include_private include_reconnection = assign_all fields []
  where
    fields : List (String × AnyElement)
    fields =
        (("id", str p.id) ∷ ("oi", int p.order_id) ∷ [])
        ++ (if include_reconnection then ("rt", str p.reconnection_token) ∷ [] else [])
        ++ (("l", str p.lobby_id) ∷ ("d", object p.public_data) ∷ ("p", str p.platform) ∷ [])
        ++ (if include_private then ("_d", object p.private_data) ∷ [] else [])
        ++ (("ud", object p.user_data) ∷ ("dc", bool p.disconnected) ∷ ("r", bool p.ready) ∷ [])
