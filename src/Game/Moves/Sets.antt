-- ===== src/Game/Moves/Sets.antt =====
-- Sets of members without one of them, and changes that come to the same.
use tiny_lobby_tests.Prelude.{
  Bool, true, false, String, none, [], ◌∷◌, ◌≡◌, refl, ◌==◌, if◌then◌else◌, is_nil, is_some, length,
  eqb, arith, eq_iff, beq_self,
}
use tiny_lobby_tests.FlatSet
use tiny_lobby_tests.FlatSet.{FlatSet}
use tiny_lobby_tests.Game.Membership.{first_other}
use tiny_lobby_tests.Game.Moves.{Seat, Roster, only, vacate}
use tiny_lobby_tests.Game.Moves.Leaving.{drop, vacate_once, vacate_there}

pub erased_alone :
    (p : String) (ps : FlatSet)
    → eqb (length ps) 1 ≡ true
    → FlatSet.contains p ps ≡ true
    → is_nil (FlatSet.erase p ps) ≡ true
unfolding FlatSet.contains FlatSet.erase
erased_alone p [] e m = cc
erased_alone p (q ∷ []) e m = ground (arith, m)
erased_alone p (q ∷ r ∷ ps) e m = ground (arith, e)

pub first_other_stays :
    (p : String) (ps : FlatSet)
    → is_nil (FlatSet.erase p ps) ≡ false
    → FlatSet.contains (first_other p ps) (FlatSet.erase p ps) ≡ true
unfolding first_other FlatSet.contains FlatSet.erase
first_other_stays p [] e = cc
first_other_stays p (q ∷ ps) e = ground (arith, first_other_stays p ps, beq_self q)

pub empty_inside : (q : String) (ps : FlatSet) → is_nil ps ≡ true → FlatSet.contains q ps ≡ false
unfolding FlatSet.contains
empty_inside q [] e = refl
empty_inside q (p ∷ ps) e = cc

-- Nobody but `p` is in a set that is empty without it.
pub alone :
    (p q : String) (ps : FlatSet)
    → is_nil (FlatSet.erase p ps) ≡ true
    → FlatSet.contains p ps ≡ true
    → FlatSet.contains q ps ≡ (p == q)
alone p q ps e m =
    ground
      (arith, eq_iff p q, m, FlatSet.contains-erase p q ps, empty_inside q (FlatSet.erase p ps) e)

pub contains_some : (h : String) (ps : FlatSet) → FlatSet.contains h ps ≡ true → is_nil ps ≡ false
unfolding FlatSet.contains
contains_some h [] m = cc
contains_some h (q ∷ ps) m = refl

pub vacate_some :
    (p : String) (ps : FlatSet)
    → FlatSet.contains p ps ≡ true
    → (q : String) (o : Seat)
    → only p vacate q (if FlatSet.contains q ps then vacate o else o)
      ≡ (if FlatSet.contains q ps then vacate o else o)
vacate_some p ps m q o = ground (arith, m, eq_iff p q, vacate_once o)

pub vacate_alone :
    (p : String) (ps : FlatSet)
    → FlatSet.contains p ps ≡ true
    → is_nil (FlatSet.erase p ps) ≡ true
    → (q : String) (o : Seat)
    → only p vacate q (only p vacate q o) ≡ (if FlatSet.contains q ps then vacate o else o)
vacate_alone p ps m e q o = ground (arith, alone p q ps e m, vacate_once o)

pub some_there :
    (ps : FlatSet) (q : String) (o : Seat)
    → is_some (if FlatSet.contains q ps then vacate o else o) ≡ is_some o
some_there ps q o = ground (arith, vacate_there o)

pub gone :
    (k p j : String) (b : Bool) (o : Roster)
    → b ≡ true
    → only k (λ r. if b then none else drop p r) j o ≡ only k (λ r. none) j o
gone k p j b o e = rw e refl

pub only_twice :
    (k j : String) (f f' : Roster → Roster) (o : Roster)
    → only k f' j (only k f j o) ≡ only k (λ r. f' (f r)) j o
only_twice k j f f' o = ground arith

pub vacate_twice :
    (p q : String) (o : Seat) → only p vacate q (only p vacate q o) ≡ only p vacate q o
vacate_twice p q o = ground (arith, vacate_once o)
