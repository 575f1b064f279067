-- ===== src/Game/Monad.antt =====
-- The handlers act on the world and return a value. A reference into a map is the key of its entry:
-- `get_` is operator[], which makes a missing entry; `read_` and `modify_` go through the reference.
-- Where the entry has been erased the source's reference dangles; here it reads as the default, and
-- a write is lost.
use tiny_lobby_tests.Prelude.{ℕ, String, Bool, List, [], ◌∷◌, if◌then◌else◌}
use tiny_lobby_tests.FlatMap.{get_or}
use tiny_lobby_tests.FlatMap
use tiny_lobby_tests.Peer.{PeerData, default_peer}
use tiny_lobby_tests.Lobby.{LobbyData, default_lobby}
use tiny_lobby_tests.Game.{GameData, World}

abbrev pub M : Type 0 → Type 0
M A = World → A × World

unfoldable pub pure : {A : Type 0} → A → M A
pure a w = (a, w)

infixl 10 ◌>>=◌ ◌>>◌
unfoldable pub ◌>>=◌ : {A B : Type 0} → M A → (A → M B) → M B
unfolding pure
◌>>=◌ m f w = let (a, w') = m w in f a w'

abbrev pub ◌>>◌ : {B : Type 0} → M (Unit {0}) → M B → M B
m >> k = m >>= λ _. k

unfoldable pub skip : M (Unit {0})
unfolding pure
skip = pure tt

unfoldable pub get_game : M GameData
get_game w = (w.game, w)

unfoldable pub get_now : M ℕ
get_now w = (w.now, w)

unfoldable pub modify_game : (GameData → GameData) → M (Unit {0})
modify_game f w = (tt, record w { game = f w.game })

-- auto &peer = game.peers[peer_id]
unfoldable pub peer_of : GameData → String → PeerData
peer_of g peer_id = get_or default_peer (FlatMap.find peer_id g.peers)

unfoldable pub get_peer : String → M PeerData
unfolding peer_of
get_peer peer_id w = (
  peer_of w.game peer_id,
  record w { game = record w.game { peers = FlatMap.emplace peer_id default_peer w.game.peers } },
)

unfoldable pub read_peer : String → M PeerData
unfolding peer_of
read_peer peer_id w = (peer_of w.game peer_id, w)

unfoldable pub modify_peer : String → (PeerData → PeerData) → M (Unit {0})
modify_peer peer_id f w =
    (tt, record w { game = record w.game { peers = FlatMap.adjust peer_id f w.game.peers } })

-- auto &lobby = game.lobbies[lobby_id]
unfoldable pub lobby_of : GameData → String → LobbyData
lobby_of g lobby_id = get_or default_lobby (FlatMap.find lobby_id g.lobbies)

unfoldable pub get_lobby : String → M LobbyData
unfolding lobby_of
get_lobby lobby_id w = (
  lobby_of w.game lobby_id,
  record w {
    game = record w.game { lobbies = FlatMap.emplace lobby_id default_lobby w.game.lobbies };
  },
)

unfoldable pub read_lobby : String → M LobbyData
unfolding lobby_of
read_lobby lobby_id w = (lobby_of w.game lobby_id, w)

unfoldable pub modify_lobby : String → (LobbyData → LobbyData) → M (Unit {0})
modify_lobby lobby_id f w =
    (tt, record w { game = record w.game { lobbies = FlatMap.adjust lobby_id f w.game.lobbies } })

abbrev pub when : Bool → M (Unit {0}) → M (Unit {0})
when b m = if b then m else skip

-- A loop over a copied list.
unfoldable pub for_each : {A : Type 0} → List A → (A → M (Unit {0})) → M (Unit {0})
unfolding skip
for_each [] f = skip
for_each (x ∷ xs) f = f x >> for_each xs f
