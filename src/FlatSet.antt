-- ===== src/FlatSet.antt =====
-- `boost::container::flat_set<std::string>`: the members by rising order of their bytes.
use Prim.Native.String.{compare}
use tiny_lobby_tests.Prelude.{
  ◌+◌, ◌≤◌, String, Bool, true, false, List, [], ◌∷◌, ◌≡◌, refl, ◌==◌, if◌then◌else◌, length, arith,
  eq_iff, Ordering,
}

abbrev pub FlatSet : Type 0
FlatSet = List String

unfoldable pub contains : String → FlatSet → Bool
contains k [] = false
contains k (j ∷ s) = if j == k then true else contains k s

unfoldable pub insert : String → FlatSet → FlatSet
insert k [] = k ∷ []
insert k (j ∷ s) = elim (compare k j) [
  | Ordering.lt ↦ k ∷ j ∷ s
  | Ordering.eq ↦ j ∷ s
  | Ordering.gt ↦ j ∷ insert k s
]

-- Also `std::remove` on a vector: what equals `k` goes, the order of the rest stays.
unfoldable pub erase : String → List String → List String
erase k [] = []
erase k (j ∷ s) = let rest = erase k s in if j == k then rest else j ∷ rest

pub contains-insert :
    (k j : String) (s : FlatSet) → contains j (insert k s) ≡ (if k == j then true else contains j s)
unfolding contains insert
contains-insert k j [] = refl
contains-insert k j (i ∷ s) =
    ground (arith, eq_iff k j, eq_iff i j, eq_iff k i, contains-insert k j s)

pub contains-erase :
    (k j : String) (s : FlatSet) → contains j (erase k s) ≡ (if k == j then false else contains j s)
unfolding contains erase
contains-erase k j [] = ground arith
contains-erase k j (i ∷ s) =
    ground (arith, eq_iff k j, eq_iff i j, eq_iff i k, contains-erase k j s)

pub length-insert_le : (k : String) (s : FlatSet) → length (insert k s) ≤ length s + 1
unfolding insert
length-insert_le k [] = omega arith
length-insert_le k (i ∷ s) = ground (arith, length-insert_le k s)

pub length-erase_le : (k : String) (s : FlatSet) → length (erase k s) ≤ length s
unfolding erase
length-erase_le k [] = omega arith
length-erase_le k (i ∷ s) = ground (arith, length-erase_le k s)
