-- ===== src/Game/Moves/Loops.antt =====
-- Changes of the membership by sequences and loops of actions.
use tiny_lobby_tests.Prelude.{
  true, String, Option, none, some, List, [], ◌∷◌, ◌≡◌, refl, sym, ◌∙◌, ap, ◌==◌, if◌then◌else◌,
  is_some, arith, eq_iff, beq_self, inl, inr, Bool-cases,
}
use tiny_lobby_tests.FlatMap
use tiny_lobby_tests.FlatSet
use tiny_lobby_tests.Peer.{PeerData}
use tiny_lobby_tests.Game.{GameData, World}
use tiny_lobby_tests.Game.Monad.{M, ◌>>=◌, get_peer, peer_of, for_each, skip}
use tiny_lobby_tests.Game.Rules.{seat, Keeps, Steady, SameMembership-refl}
use tiny_lobby_tests.Game.Moves.{Seat, Roster, Turn, Turn-same, Turn-then, Turn-as, stay, only}

abbrev pub Anywhere : GameData → Type 0
Anywhere g = Unit

pub Anywhere-steady : Steady Anywhere
Anywhere-steady = record { along = λ g h s c. tt }

-- An action that leaves the membership alone everywhere.
pub Turn-quiet :
    {A : Type 0} {m : M A} → Keeps Anywhere m → (w : World) → Turn stay stay w.game (m w).1.game
Turn-quiet k w = Turn-same (k.at w tt)

module _ {A B : Type 0} {f f' : String → Seat → Seat} {t t' : String → Roster → Roster} where
  pub Turn-bind :
      (m : M A) (k : A → M B) (w : World)
      → Turn f t w.game (m w).1.game
      → Turn f' t' (m w).1.game (k (m w).0 (m w).1).1.game
      → Turn (λ p o. f' p (f p o)) (λ j o. t' j (t j o)) w.game ((m >>= k) w).1.game
  unfolding ◌>>=◌
  Turn-bind m k w a b = Turn-then a b

pub get_peer_known :
    {A : Type 0} (p : String) (k : PeerData → M A) (w : World)
    → FlatMap.contains p w.game.peers ≡ true
    → (get_peer p >>= k) w ≡ k (peer_of w.game p) w
unfolding get_peer FlatMap.emplace ◌>>=◌
get_peer_known p k w h = rw (h, get_peer) refl

pub is_some-seat : (o : Option PeerData) → is_some (seat o) ≡ is_some o
is_some-seat none = refl
is_some-seat (some p) = refl

-- The peers that `qs` names are there.
abbrev pub AllKnown : List String → GameData → Type 0
AllKnown qs g = (q : String) → FlatSet.contains q qs ≡ true → FlatMap.contains q g.peers ≡ true

module _ (s : String → Seat → Seat) (body : String → M Unit)
    (step : (q : String) (w : World)
      → FlatMap.contains q w.game.peers ≡ true
      → Turn (only q (s q)) stay w.game (body q w).1.game)
    (once : (q : String) (o : Seat) → s q (s q o) ≡ s q o)
    (there : (q : String) (o : Seat) → is_some (s q o) ≡ is_some o) where
  still_known :
      (q p : String) (w : World)
      → FlatMap.contains q w.game.peers ≡ true
      → FlatMap.contains p w.game.peers ≡ true
      → FlatMap.contains p (body q w).1.game.peers ≡ true
  still_known q p w e h =
      let o = seat (FlatMap.find p w.game.peers) in
      let kept : is_some (only q (s q) p o) ≡ is_some o = elim (Bool-cases (q == p)) [
        | inl t ↦ rw t (there q o)
        | inr n ↦ rw n refl
      ] in
      sym (is_some-seat _) ∙ ap is_some ((step q w e).seats p) ∙ kept ∙ is_some-seat _ ∙ h

  both :
      (q : String) (qs : List String) (p : String) (o : Seat)
      → (if FlatSet.contains p qs then s p (only q (s q) p o) else only q (s q) p o)
        ≡ (if FlatSet.contains p (q ∷ qs) then s p o else o)
  unfolding FlatSet.contains
  both q qs p o = ground (arith, eq_iff q p, once p o)

  pub for_each-Turn :
      (qs : List String) (w : World)
      → AllKnown qs w.game
      → Turn
          (λ p o. if FlatSet.contains p qs then s p o else o)
          stay
          w.game
          (for_each qs body w).1.game
  unfolding for_each skip FlatSet.contains
  for_each-Turn [] w h = Turn-same (SameMembership-refl w.game)
  for_each-Turn (q ∷ qs) w h =
      let e = h q (rw (beq_self q) refl) in
      let rest =
        for_each-Turn qs (body q w).1 (λ p m. still_known q p w e (h p (ground (arith, m)))) in
      Turn-as (Turn-bind (body q) _ w (step q w e) rest) (λ p. both q qs p _) (λ k. refl)

-- A change that removes no peer.
pub Turn-known :
    {f : String → Seat → Seat} {t : String → Roster → Roster} {g h : GameData} (qs : List String)
    → Turn f t g h
    → ((q : String) (o : Seat) → is_some (f q o) ≡ is_some o)
    → AllKnown qs g
    → AllKnown qs h
Turn-known qs a there k q m =
    sym (is_some-seat _) ∙ ap is_some (a.seats q) ∙ there q _ ∙ is_some-seat _ ∙ k q m
