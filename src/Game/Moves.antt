-- ===== src/Game/Moves.antt =====
-- What an action does to the membership, entry by entry, and how such changes follow each other.
pub mod Loops
pub mod Leaving
pub mod Still
pub mod Removal
pub mod Sets
pub mod Departure
pub mod Farewell
pub mod Orphan
pub mod Settings
pub mod Tags
pub mod Bounds
pub mod Agreement
use tiny_lobby_tests.Prelude.{
  Bool, true, false, String, Option, none, some, ◌≡◌, refl, sym, ◌∙◌, ap, ◌==◌, if◌then◌else◌,
}
use tiny_lobby_tests.FlatMap
use tiny_lobby_tests.FlatSet.{FlatSet}
use tiny_lobby_tests.Peer.{PeerData}
use tiny_lobby_tests.Lobby.{LobbyData}
use tiny_lobby_tests.Game.{GameData, World}
use tiny_lobby_tests.Game.Monad.{M, ◌>>=◌, modify_peer, modify_lobby}
use tiny_lobby_tests.Game.Rules.{seat, roster, SameMembership, Keeps}

-- A peer's id and lobby, if it is there; a lobby's id, host and members, if it is there.
abbrev pub Seat : Type 0
Seat = Option (String × String)

abbrev pub Roster : Type 0
Roster = Option (String × String × FlatSet)

-- From `g` to `h` the peers change by `f` and the lobbies by `t`.
pub record Turn (f : String → Seat → Seat) (t : String → Roster → Roster) (g h : GameData)
    : Type 0 where
  pub seats : (p : String) → seat (FlatMap.find p h.peers) ≡ f p (seat (FlatMap.find p g.peers))
  pub rosters :
      (k : String) → roster (FlatMap.find k h.lobbies) ≡ t k (roster (FlatMap.find k g.lobbies))
  pub control : h.lobby_control ≡ g.lobby_control
  pub disbands : h.disband_on_leave ≡ g.disband_on_leave
  pub callbacks : h.enabled_callbacks ≡ g.enabled_callbacks

abbrev pub stay {ℓ} : {A : Type ℓ} → String → A → A
stay k a = a

pub Turn-same : {g h : GameData} → SameMembership g h → Turn stay stay g h
Turn-same s = record {
  seats = s.seats;
  rosters = s.rosters;
  control = s.control;
  disbands = s.disbands;
  callbacks = s.callbacks;
}

module _ {f f' : String → Seat → Seat} {t t' : String → Roster → Roster} {g h i : GameData} where
  pub Turn-then :
      Turn f t g h → Turn f' t' h i → Turn (λ p o. f' p (f p o)) (λ k o. t' k (t k o)) g i
  Turn-then a b = record {
    seats = λ p. b.seats p ∙ ap (f' p) (a.seats p);
    rosters = λ k. b.rosters k ∙ ap (t' k) (a.rosters k);
    control = b.control ∙ a.control;
    disbands = b.disbands ∙ a.disbands;
    callbacks = b.callbacks ∙ a.callbacks;
  }

module _ {f f' : String → Seat → Seat} {t t' : String → Roster → Roster} {g h : GameData} where
  pub Turn-as :
      Turn f t g h
      → ((p : String) → f p (seat (FlatMap.find p g.peers)) ≡ f' p (seat (FlatMap.find p g.peers)))
      → ((k : String)
          → t k (roster (FlatMap.find k g.lobbies)) ≡ t' k (roster (FlatMap.find k g.lobbies)))
      → Turn f' t' g h
  Turn-as a e r = record {
    seats = λ p. a.seats p ∙ e p;
    rosters = λ k. a.rosters k ∙ r k;
    control = a.control;
    disbands = a.disbands;
    callbacks = a.callbacks;
  }

-- `f` at the key `k`, nothing elsewhere.
abbrev pub only {ℓ} : {A : Type ℓ} → String → (A → A) → String → A → A
only k f j a = if k == j then f a else a

-- A peer that is there leaves its lobby.
abbrev pub vacate : Seat → Seat
vacate none = none
vacate (some (i, k)) = some (i, "")

seat_by :
    (f : PeerData → PeerData) (s : Seat → Seat)
    → ((o : Option PeerData) → seat (FlatMap.map_some f o) ≡ s (seat o))
    → (b : Bool) (o : Option PeerData)
    → seat (if b then FlatMap.map_some f o else o) ≡ (if b then s (seat o) else seat o)
seat_by f s e true o = e o
seat_by f s e false o = refl

roster_by :
    (f : LobbyData → LobbyData) (s : Roster → Roster)
    → ((o : Option LobbyData) → roster (FlatMap.map_some f o) ≡ s (roster o))
    → (b : Bool) (o : Option LobbyData)
    → roster (if b then FlatMap.map_some f o else o) ≡ (if b then s (roster o) else roster o)
roster_by f s e true o = e o
roster_by f s e false o = refl

pub modify_peer-Turn :
    (p : String) (f : PeerData → PeerData) (s : Seat → Seat)
    → ((o : Option PeerData) → seat (FlatMap.map_some f o) ≡ s (seat o))
    → (w : World) → Turn (only p s) stay w.game (modify_peer p f w).1.game
unfolding modify_peer
modify_peer-Turn p f s e w = record {
  seats = λ q.
      rw (FlatMap.find-adjust p q f w.game.peers)
        (seat_by f s e (p == q) (FlatMap.find q w.game.peers));
  rosters = λ k. refl;
  control = refl;
  disbands = refl;
  callbacks = refl;
}

pub modify_lobby-Turn :
    (k : String) (f : LobbyData → LobbyData) (s : Roster → Roster)
    → ((o : Option LobbyData) → roster (FlatMap.map_some f o) ≡ s (roster o))
    → (w : World) → Turn stay (only k s) w.game (modify_lobby k f w).1.game
unfolding modify_lobby
modify_lobby-Turn k f s e w = record {
  seats = λ q. refl;
  rosters = λ j.
      rw (FlatMap.find-adjust k j f w.game.lobbies)
        (roster_by f s e (k == j) (FlatMap.find j w.game.lobbies));
  control = refl;
  disbands = refl;
  callbacks = refl;
}
