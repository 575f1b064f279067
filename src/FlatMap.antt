-- ===== src/FlatMap.antt =====
-- `boost::container::flat_map<std::string, V>` and `std::unordered_map<std::string, V>`: a list of
-- entries by rising key. A flat_map iterates in this order. The order of an unordered_map is not
-- specified; the model takes the same one. `compare` on texts is the order of their bytes.
use Prim.Native.String.{compare}
use tiny_lobby_tests.Prelude.{
  String, Bool, false, Option, none, some, List, [], ◌∷◌, ◌≡◌, refl, ◌==◌, if◌then◌else◌, is_some,
  arith, Option-cases, inl, inr, eq_iff, Ordering,
}

abbrev pub FlatMap {ℓ} : Type ℓ → Type ℓ
FlatMap V = List (String × V)

module _ {ℓ} {V : Type ℓ} where
  unfoldable pub find : String → FlatMap V → Option V
  find k [] = none
  find k ((j, v) ∷ m) = if j == k then some v else find k m

  -- m[k] = v, insert_or_assign
  unfoldable pub insert : String → V → FlatMap V → FlatMap V
  insert k v [] = (k, v) ∷ []
  insert k v ((j, w) ∷ m) = elim (compare k j) [
    | Ordering.lt ↦ (k, v) ∷ (j, w) ∷ m
    | Ordering.eq ↦ (k, v) ∷ m
    | Ordering.gt ↦ (j, w) ∷ insert k v m
  ]

  unfoldable pub erase : String → FlatMap V → FlatMap V
  erase k [] = []
  erase k ((j, v) ∷ m) = let rest = erase k m in if j == k then rest else (j, v) ∷ rest

  pub find-insert :
      (k j : String) (v : V) (m : FlatMap V)
      → find j (insert k v m) ≡ (if k == j then some v else find j m)
  unfolding find insert
  find-insert k j v [] = refl
  find-insert k j v ((i, w) ∷ m) =
      ground (arith, eq_iff k j, eq_iff i j, eq_iff k i, find-insert k j v m)

  pub find-erase :
      (k j : String) (m : FlatMap V) → find j (erase k m) ≡ (if k == j then none else find j m)
  unfolding find erase
  find-erase k j [] = ground arith
  find-erase k j ((i, w) ∷ m) = ground (arith, eq_iff k j, eq_iff i j, eq_iff i k, find-erase k j m)

  -- m.find(k) != m.end()
  abbrev pub contains : String → FlatMap V → Bool
  contains k m = is_some (find k m)

  -- m.emplace(k, v) keeps an entry that is there.
  unfoldable pub emplace : String → V → FlatMap V → FlatMap V
  emplace k v m = if contains k m then m else insert k v m

  pub find-emplace :
      (k j : String) (v : V) (m : FlatMap V)
      → find j (emplace k v m)
        ≡ (if contains k m then find j m else if k == j then some v else find j m)
  unfolding emplace
  find-emplace k j v m = ground (arith, find-insert k j v m)

  -- A write through a reference to the entry of `k`. If the entry is gone the write is lost.
  unfoldable pub adjust : String → (V → V) → FlatMap V → FlatMap V
  adjust k f m = elim (find k m) [ none ↦ m | some v ↦ insert k (f v) m ]

  abbrev pub map_some : (V → V) → Option V → Option V
  map_some f none = none
  map_some f (some v) = some (f v)

  pub find-adjust :
      (k j : String) (f : V → V) (m : FlatMap V)
      → find j (adjust k f m) ≡ (if k == j then map_some f (find j m) else find j m)
  unfolding adjust
  find-adjust k j f m = elim (Option-cases (find k m)) [
    | inl e ↦ rw (e, adjust) (ground (arith, eq_iff k j, e))
    | inr (v, e) ↦ rw (e, adjust) (ground (arith, eq_iff k j, e, find-insert k j (f v) m))
  ]

  unfoldable pub keys : FlatMap V → List String
  keys [] = []
  keys ((k, v) ∷ m) = k ∷ keys m

-- `m[k]` where the value type's default is `d`: a missing entry is made.
abbrev pub get_or {ℓ} : {V : Type ℓ} → V → Option V → V
get_or d none = d
get_or d (some v) = v

-- Assignments m[k] = v one after the other.
unfoldable pub assign_all {ℓ} : {V : Type ℓ} → List (String × V) → FlatMap V → FlatMap V
assign_all [] m = m
assign_all ((k, v) ∷ l) m = assign_all l (insert k v m)

-- No key stands twice, as in every map of the library.
unfoldable pub IsDistinct {ℓ} : {V : Type ℓ} → FlatMap V → Type 0
IsDistinct [] = Unit {0}
IsDistinct ((k, v) ∷ m) = (contains k m ≡ false) × IsDistinct m
