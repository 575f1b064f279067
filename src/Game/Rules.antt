-- ===== src/Game/Rules.antt =====
-- Membership, and actions that leave it alone: who a peer is and in which lobby, and who hosts and is
-- in a lobby.
use tiny_lobby_tests.Prelude.{
  Bool, true, false, String, Option, none, some, List, [], ◌∷◌, ◌≡◌, refl, ◌∙◌, ◌==◌, if◌then◌else◌,
  arith, is_some,
}
use tiny_lobby_tests.FlatMap
use tiny_lobby_tests.FlatSet.{FlatSet}
use tiny_lobby_tests.AnyType.{AnyElement}
use tiny_lobby_tests.Peer.{PeerData}
use tiny_lobby_tests.Lobby.{LobbyData}
use tiny_lobby_tests.Game.{GameData, World, Content, OpCode}
use tiny_lobby_tests.Game.Monad.{
  M, pure, skip, ◌>>=◌, get_game, get_now, get_peer, read_peer, modify_peer, get_lobby, read_lobby,
  modify_lobby, modify_game, for_each,
}
use tiny_lobby_tests.Game.Send.{send, send_to_others, send_to_all, on_error, mark_updated}

abbrev pub seat : Option PeerData → Option (String × String)
seat none = none
seat (some p) = some (p.id, p.lobby_id)

abbrev pub roster : Option LobbyData → Option (String × String × FlatSet)
roster none = none
roster (some l) = some (l.id, l.host, l.peer_ids)

-- Two states of a game have the same membership.
pub record SameMembership (g h : GameData) : Type 0 where
  pub seats : (p : String) → seat (FlatMap.find p h.peers) ≡ seat (FlatMap.find p g.peers)
  pub rosters : (k : String) → roster (FlatMap.find k h.lobbies) ≡ roster (FlatMap.find k g.lobbies)
  pub control : h.lobby_control ≡ g.lobby_control
  pub disbands : h.disband_on_leave ≡ g.disband_on_leave
  pub callbacks : h.enabled_callbacks ≡ g.enabled_callbacks

pub SameMembership-refl : (g : GameData) → SameMembership g g
SameMembership-refl g = record {
  seats = λ p. refl;
  rosters = λ k. refl;
  control = refl;
  disbands = refl;
  callbacks = refl;
}

pub SameMembership-trans :
    {f g h : GameData} → SameMembership f g → SameMembership g h → SameMembership f h
SameMembership-trans a b = record {
  seats = λ p. b.seats p ∙ a.seats p;
  rosters = λ k. b.rosters k ∙ a.rosters k;
  control = b.control ∙ a.control;
  disbands = b.disbands ∙ a.disbands;
  callbacks = b.callbacks ∙ a.callbacks;
}

pub is_some-seat : (a b : Option PeerData) → seat a ≡ seat b → is_some b ≡ true → is_some a ≡ true
is_some-seat a b e h = ground arith

pub is_some-roster :
    (a b : Option LobbyData) → roster a ≡ roster b → is_some b ≡ true → is_some a ≡ true
is_some-roster a b e h = ground arith

-- `m` leaves the membership alone where `P` holds.
pub record Keeps {A : Type 0} (P : GameData → Type 0) (m : M A) : Type 0 where
  pub at : (w : World) → P w.game → SameMembership w.game (m w).1.game

module _ {A : Type 0} {P : GameData → Type 0} where
  pub Keeps-pure : (a : A) → Keeps P (pure a)
  unfolding pure
  Keeps-pure a = record { at = λ w h. SameMembership-refl w.game }

  pub Keeps-test :
      (b : Bool) (m n : M A)
      → (b ≡ true → Keeps P m)
      → (b ≡ false → Keeps P n)
      → Keeps P (if b then m else n)
  Keeps-test true m n km kn = km refl
  Keeps-test false m n km kn = kn refl

  pub Keeps-if : (b : Bool) (m n : M A) → Keeps P m → Keeps P n → Keeps P (if b then m else n)
  Keeps-if true m n km kn = km
  Keeps-if false m n km kn = kn

same_seat :
    (f : PeerData → PeerData)
    → ((q : PeerData) → seat (some (f q)) ≡ seat (some q))
    → (b : Bool) (o : Option PeerData) → seat (if b then FlatMap.map_some f o else o) ≡ seat o
same_seat f h true none = refl
same_seat f h true (some q) = h q
same_seat f h false o = refl

same_roster :
    (f : LobbyData → LobbyData)
    → ((l : LobbyData) → roster (some (f l)) ≡ roster (some l))
    → (b : Bool) (o : Option LobbyData) → roster (if b then FlatMap.map_some f o else o) ≡ roster o
same_roster f h true none = refl
same_roster f h true (some l) = h l
same_roster f h false o = refl

-- `P` is a matter of membership.
pub record Steady (P : GameData → Type 0) : Type 0 where
  pub along : (g h : GameData) → SameMembership g h → P g → P h

module _ {P : GameData → Type 0} where
  pub Keeps-get_game : Keeps P get_game
  unfolding get_game
  Keeps-get_game = record { at = λ w h. SameMembership-refl w.game }

  pub Keeps-get_now : Keeps P get_now
  unfolding get_now
  Keeps-get_now = record { at = λ w h. SameMembership-refl w.game }

  pub Keeps-read_peer : (p : String) → Keeps P (read_peer p)
  unfolding read_peer
  Keeps-read_peer p = record { at = λ w h. SameMembership-refl w.game }

  pub Keeps-read_lobby : (k : String) → Keeps P (read_lobby k)
  unfolding read_lobby
  Keeps-read_lobby k = record { at = λ w h. SameMembership-refl w.game }

  pub Keeps-send : (p : String) (m : Content) (o : OpCode) → Keeps P (send p m o)
  unfolding send
  Keeps-send p m o = record { at = λ w h. SameMembership-refl w.game }

  pub Keeps-skip : Keeps P skip
  unfolding skip
  Keeps-skip = record { at = λ w h. SameMembership-refl w.game }

module _ {A B : Type 0} {P : GameData → Type 0} (steady : Steady P) where
  pub Keeps-bind :
      (m : M A) (f : A → M B) → Keeps P m → ((a : A) → Keeps P (f a)) → Keeps P (m >>= f)
  unfolding ◌>>=◌
  Keeps-bind m f km kf = record {
    at = λ w h.
        let s = km.at w h in
        SameMembership-trans s ((kf (m w).0).at (m w).1 (steady.along w.game (m w).1.game s h));
  }

module _ {A : Type 0} {P : GameData → Type 0} (steady : Steady P) where
  pub Keeps-for_each :
      (xs : List A) (f : A → M Unit) → ((x : A) → Keeps P (f x)) → Keeps P (for_each xs f)
  unfolding for_each
  Keeps-for_each [] f kf = Keeps-skip
  Keeps-for_each (x ∷ xs) f kf =
      Keeps-bind steady (f x) (λ _. for_each xs f) (kf x) (λ _. Keeps-for_each xs f kf)

module _ {P : GameData → Type 0} where
  pub Keeps-game :
      (f : GameData → GameData)
      → ((g : GameData) → SameMembership g (f g))
      → Keeps P (modify_game f)
  unfolding modify_game
  Keeps-game f h = record { at = λ w c. h w.game }

  pub Keeps-mark_updated : (k : String) → Keeps P (mark_updated k)
  Keeps-mark_updated k = Keeps-game _ (λ g. record {
    seats = λ p. refl;
    rosters = λ j. refl;
    control = refl;
    disbands = refl;
    callbacks = refl;
  })

  pub Keeps-modify_peer :
      (p : String) (f : PeerData → PeerData)
      → ((q : PeerData) → seat (some (f q)) ≡ seat (some q))
      → Keeps P (modify_peer p f)
  unfolding modify_peer
  Keeps-modify_peer p f h = record {
    at = λ w c. record {
      seats = λ q.
          rw (FlatMap.find-adjust p q f w.game.peers)
            (same_seat f h (p == q) (FlatMap.find q w.game.peers));
      rosters = λ k. refl;
      control = refl;
      disbands = refl;
      callbacks = refl;
    };
  }

  pub Keeps-modify_lobby :
      (k : String) (f : LobbyData → LobbyData)
      → ((l : LobbyData) → roster (some (f l)) ≡ roster (some l))
      → Keeps P (modify_lobby k f)
  unfolding modify_lobby
  Keeps-modify_lobby k f h = record {
    at = λ w c. record {
      seats = λ q. refl;
      rosters = λ j.
          rw (FlatMap.find-adjust k j f w.game.lobbies)
            (same_roster f h (k == j) (FlatMap.find j w.game.lobbies));
      control = refl;
      disbands = refl;
      callbacks = refl;
    };
  }

  pub Keeps-on_error :
      (id p message : String) (close logical : Bool) → Keeps P (on_error id p message close logical)
  unfolding on_error
  Keeps-on_error id p message true logical = Keeps-send p _ _
  Keeps-on_error id p message false logical = Keeps-send p _ _

module _ {P : GameData → Type 0} (steady : Steady P) where
  pub Keeps-send_to_others :
      (ps : List String) (self : String) (n : AnyElement) → Keeps P (send_to_others ps self n)
  unfolding send_to_others
  Keeps-send_to_others ps self n =
      Keeps-for_each steady ps _ (λ p. Keeps-if (p == self) skip _ Keeps-skip (Keeps-send p _ _))

  pub Keeps-send_to_all : (ps : List String) (n : AnyElement) → Keeps P (send_to_all ps n)
  unfolding send_to_all
  Keeps-send_to_all ps n = Keeps-for_each steady ps _ (λ p. Keeps-send p _ _)

-- operator[] on an entry that is there.
pub Keeps-get_peer :
    {P : GameData → Type 0} (p : String)
    → ((g : GameData) → P g → FlatMap.contains p g.peers ≡ true)
    → Keeps P (get_peer p)
unfolding get_peer FlatMap.emplace
Keeps-get_peer p h = record { at = λ w c. rw (h w.game c, get_peer) (SameMembership-refl w.game) }

pub Keeps-get_lobby :
    {P : GameData → Type 0} (k : String)
    → ((g : GameData) → P g → FlatMap.contains k g.lobbies ≡ true)
    → Keeps P (get_lobby k)
unfolding get_lobby FlatMap.emplace
Keeps-get_lobby k h = record { at = λ w c. rw (h w.game c, get_lobby) (SameMembership-refl w.game) }
