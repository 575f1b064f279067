-- ===== src/Game/Host/Changes.antt =====
-- The loop over changes of `on_lobby_tags` and `on_user_data` (src/game/game_thread.cpp), key by key.
use tiny_lobby_tests.Prelude.{
  Bool, true, false, String, Option, none, some, [], ◌∷◌, ◌≡◌, refl, sym, ap, ◌∙◌, ◌==◌,
  if◌then◌else◌, is_some, eq_of_test,
}
use tiny_lobby_tests.FlatMap.{FlatMap, IsDistinct}
use tiny_lobby_tests.FlatMap
use tiny_lobby_tests.AnyType.{AnyElement}
use tiny_lobby_tests.Game.Host.{is_null, apply_changes}

-- What one change makes of the entry under `j`.
abbrev change : String → String → AnyElement → Option AnyElement → Option AnyElement
change j k v o = if k == j then (if is_null v then none else some v) else o

-- What all of them make of it.
abbrev after_changes : String → FlatMap AnyElement → Option AnyElement → Option AnyElement
after_changes j [] o = o
after_changes j ((k, v) ∷ changes) o = after_changes j changes (change j k v o)

find-change :
    (j k : String) (v : AnyElement) (m : FlatMap AnyElement)
    → FlatMap.find j (if is_null v then FlatMap.erase k m else FlatMap.insert k v m)
      ≡ change j k v (FlatMap.find j m)
find-change j k v m = go (is_null v)
  where
    go :
        (b : Bool)
        → FlatMap.find j (if b then FlatMap.erase k m else FlatMap.insert k v m)
          ≡ (if k == j then (if b then none else some v) else FlatMap.find j m)
    go true = FlatMap.find-erase k j m
    go false = FlatMap.find-insert k j v m

find-apply_changes :
    (j : String) (changes m : FlatMap AnyElement)
    → FlatMap.find j (apply_changes changes m) ≡ after_changes j changes (FlatMap.find j m)
unfolding apply_changes
find-apply_changes j [] m = refl
find-apply_changes j ((k, v) ∷ changes) m =
    find-apply_changes j changes _ ∙ ap (after_changes j changes) (find-change j k v m)

-- What becomes of an entry, by the one change that names it, if there is one.
abbrev pub changed : Option AnyElement → Option AnyElement → Option AnyElement
changed none old = old
changed (some AnyElement.null) old = none
changed (some v) old = some v

changed_by :
    (v : AnyElement) (o : Option AnyElement)
    → (if is_null v then none else some v) ≡ changed (some v) o
changed_by AnyElement.null o = refl
changed_by (AnyElement.bool b) o = refl
changed_by (AnyElement.int z) o = refl
changed_by (AnyElement.real r) o = refl
changed_by (AnyElement.str s) o = refl
changed_by (AnyElement.arr xs) o = refl
changed_by (AnyElement.obj fs) o = refl

find_absent :
    (k j : String) (m : FlatMap AnyElement)
    → FlatMap.contains k m ≡ false
    → (k == j) ≡ true
    → FlatMap.find j m ≡ none
find_absent k j m e t = go (FlatMap.find k m) refl e
  where
    go :
        (o : Option AnyElement) → FlatMap.find k m ≡ o → is_some o ≡ false → FlatMap.find j m ≡ none
    go none f h = ap (λ i. FlatMap.find i m) (sym (eq_of_test k j t)) ∙ f
    go (some v) f h = cc

after_changes-changed :
    (j : String) (changes : FlatMap AnyElement) (o : Option AnyElement)
    → IsDistinct changes
    → after_changes j changes o ≡ changed (FlatMap.find j changes) o
unfolding FlatMap.find IsDistinct
after_changes-changed j [] o d = refl
after_changes-changed j ((k, v) ∷ changes) o d =
    go (λ old. after_changes-changed j changes old d.1) (k == j) refl
  where
    go :
        ((old : Option AnyElement)
          → after_changes j changes old ≡ changed (FlatMap.find j changes) old)
        → (b : Bool) → (k == j) ≡ b
        → after_changes j changes (if b then (if is_null v then none else some v) else o)
          ≡ changed (if b then some v else FlatMap.find j changes) o
    go rest true t =
        rest _
        ∙ ap (λ f. changed f (if is_null v then none else some v)) (find_absent k j changes d.0 t)
        ∙ changed_by v o
    go rest false t = rest o

pub find-apply_changes_distinct :
    (j : String) (changes m : FlatMap AnyElement)
    → IsDistinct changes
    → FlatMap.find j (apply_changes changes m) ≡ changed (FlatMap.find j changes) (FlatMap.find j m)
find-apply_changes_distinct j changes m d =
    find-apply_changes j changes m ∙ after_changes-changed j changes (FlatMap.find j m) d
