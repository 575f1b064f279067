-- ===== src/Game/Samples.antt =====
-- A small game to evaluate the model on, with the tests and the examples of the theorems.
pub mod Tests
use tiny_lobby_tests.Prelude.{
  ℕ, Bool, true, false, String, Option, none, some, List, [], ◌∷◌, ◌≡◌, ◌≢◌, refl, sym, ap, ◌∙◌,
  arith, eq_iff,
}
use tiny_lobby_tests.Prelude.Int.{pos}
use tiny_lobby_tests.FlatMap
use tiny_lobby_tests.FlatSet
use tiny_lobby_tests.Peer.{PeerData, default_peer}
use tiny_lobby_tests.Lobby.{LobbyData, default_lobby}
use tiny_lobby_tests.Game.{GameData, World, is_relay}
use tiny_lobby_tests.Game.Scripts.{LuaCall, no_lua}
use tiny_lobby_tests.Game.Rules.{seat, roster, SameMembership-refl}
use tiny_lobby_tests.Game.Consistency.{IsConsistent, IsTame}

abbrev pub alice : PeerData
alice = record default_peer { id = "alice"; order_id = pos 1; game_id = "chess"; lobby_id = "l1" }

abbrev pub bob : PeerData
bob = record default_peer { id = "bob"; order_id = pos 2; game_id = "chess"; lobby_id = "l1" }

abbrev pub carol : PeerData
carol = record default_peer { id = "carol"; game_id = "chess" }

-- Alice's lobby, with Bob.
abbrev pub lobby1 : LobbyData
lobby1 = record default_lobby {
  id = "l1";
  name = "first";
  host = "alice";
  max_players = pos 3;
  peer_ids = "alice" ∷ "bob" ∷ [];
  peer_ordered_ids = "alice" ∷ "bob" ∷ [];
  game_id = "chess";
  order_id_counter = 2;
}

-- A game without a script that sends at once.
abbrev pub chess : GameData
chess = record {
  last_send_time = 0;
  last_tick_time = 0;
  id = "chess";
  lobby_control = "scripted";
  tick_rate = 0;
  send_rate = 0;
  max_afk_time = 0;
  seal = false;
  disband_on_leave = false;
  folder_name = "";
  peers = ("alice", alice) ∷ ("bob", bob) ∷ ("carol", carol) ∷ [];
  disconnected_peers = [];
  lobbies = ("l1", lobby1) ∷ [];
  lobby_listing_peers = [];
  lobbies_updated = [];
  timer_data = [];
  enabled_callbacks = [];
  lua_enabled = false;
}

abbrev pub start : World
start = record {
  game = chess;
  net = record { peers_send_data = []; outgoing = []; messages_sent = 0 };
  now = 1000;
}

only_lobby :
    (k i h : String) (ps : List String)
    → roster (FlatMap.find k chess.lobbies) ≡ some (i, h, ps)
    → (k ≡ "l1") × (i ≡ "l1") × (h ≡ "alice") × (ps ≡ "alice" ∷ "bob" ∷ [])
unfolding FlatMap.find
only_lobby k i h ps e = (
  ground (arith, eq_iff "l1" k),
  ground (arith, eq_iff "l1" k),
  ground (arith, eq_iff "l1" k),
  ground (arith, eq_iff "l1" k),
)

seated_peer :
    (p i k : String)
    → seat (FlatMap.find p chess.peers) ≡ some (i, k)
    → k ≢ ""
    → (k ≡ "l1") × (FlatSet.contains p ("alice" ∷ "bob" ∷ []) ≡ true)
unfolding FlatMap.find FlatSet.contains
seated_peer p i k e n = (
  ground (arith, eq_iff "alice" p, eq_iff "bob" p, eq_iff "carol" p),
  ground (arith, eq_iff "alice" p, eq_iff "bob" p, eq_iff "carol" p),
)

member_seat :
    (p : String)
    → FlatSet.contains p ("alice" ∷ "bob" ∷ []) ≡ true
    → seat (FlatMap.find p chess.peers) ≡ some (p, "l1")
unfolding FlatMap.find FlatSet.contains
member_seat p m = ground (arith, eq_iff "alice" p, eq_iff "bob" p)

pub chess-IsConsistent : IsConsistent chess
unfolding FlatMap.find FlatSet.contains
chess-IsConsistent = record {
  own_ids = λ p i k e. ground (arith, eq_iff "alice" p, eq_iff "bob" p, eq_iff "carol" p);
  lobby_ids = λ k i h ps e. ground (arith, eq_iff "l1" k);
  placed = λ p i k e n.
      let (q, m) = seated_peer p i k e n in ("alice", "alice" ∷ "bob" ∷ [], rw q refl, m);
  members = λ k i h ps p e m.
      let (q, _, _, s) = only_lobby k i h ps e in
      rw q (member_seat p (ap (FlatSet.contains p) (sym s) ∙ m));
  hosts = λ k i h ps e. let (_, _, t, s) = only_lobby k i h ps e in rw (t, s) refl;
  named = refl;
}

pub no_lua-IsTame : IsTame no_lua
no_lua-IsTame = record {
  keeps = λ name args p k. record { at = λ w c. SameMembership-refl w.game };
}
