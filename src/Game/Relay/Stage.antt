-- ===== src/Game/Relay/Stage.antt =====
-- The loops of `on_lobby_data`, `on_data_to` and `on_data_to_all` over the new data: each entry is
-- assigned, or erased by null, and noted in the diff (src/game/game_thread.cpp).
use tiny_lobby_tests.Prelude.{Bool, true, String, [], ◌∷◌, if◌then◌else◌}
use tiny_lobby_tests.FlatMap.{FlatMap}
use tiny_lobby_tests.FlatMap
use tiny_lobby_tests.AnyType.{AnyElement}
use tiny_lobby_tests.Peer.{PeerData}
use tiny_lobby_tests.Lobby.{LobbyData}
use tiny_lobby_tests.Game.Host.{is_null}

abbrev pub change_entry : String → AnyElement → FlatMap AnyElement → FlatMap AnyElement
change_entry k v m = if is_null v then FlatMap.erase k m else FlatMap.insert k v m

stage_lobby_entry : Bool → String → AnyElement → LobbyData → LobbyData
stage_lobby_entry is_private k v l =
    if is_private
    then record l {
      private_data_dirty = true;
      private_data_diff = FlatMap.insert k v l.private_data_diff;
      private_data = change_entry k v l.private_data;
    }
    else record l {
      public_data_dirty = true;
      public_data_diff = FlatMap.insert k v l.public_data_diff;
      public_data = change_entry k v l.public_data;
    }

unfoldable pub stage_lobby : Bool → FlatMap AnyElement → LobbyData → LobbyData
unfolding stage_lobby_entry
stage_lobby is_private [] l = l
stage_lobby is_private ((k, v) ∷ new_data) l =
    stage_lobby is_private new_data (stage_lobby_entry is_private k v l)

stage_peer_entry : Bool → String → AnyElement → PeerData → PeerData
stage_peer_entry is_private k v p =
    if is_private
    then record p {
      private_data_dirty = true;
      private_data_diff = FlatMap.insert k v p.private_data_diff;
      private_data = change_entry k v p.private_data;
    }
    else record p {
      public_data_dirty = true;
      public_data_diff = FlatMap.insert k v p.public_data_diff;
      public_data = change_entry k v p.public_data;
    }

unfoldable pub stage_peer : Bool → FlatMap AnyElement → PeerData → PeerData
unfolding stage_peer_entry
stage_peer is_private [] p = p
stage_peer is_private ((k, v) ∷ new_data) p =
    stage_peer is_private new_data (stage_peer_entry is_private k v p)
