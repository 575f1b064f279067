-- ===== src/AnyType.antt =====
-- src/common/any_type.h and any_type.cpp: the element type that the server stores, and its
-- conversions from and to parsed JSON (Decode, Encode) and equality (Equality).
pub mod Decode
pub mod Encode
pub mod Equality
pub mod Totality
use tiny_lobby_tests.Prelude.{ℕ, Bool, String, List, [], ◌∷◌}
use tiny_lobby_tests.Prelude.Int.{ℤ}
use tiny_lobby_tests.FlatMap.{FlatMap}

-- AnyElement and its variant; `null` is std::monostate.
mutual
  pub data AnyElement : Type 0 where
    null : AnyElement
    bool : Bool → AnyElement
    int : ℤ → AnyElement
    real : ℕ → AnyElement
    str : String → AnyElement
    obj : Fields → AnyElement
    arr : Items → AnyElement

  pub data Items : Type 0 where
    nil : Items
    cons : AnyElement → Items → Items

  pub data Fields : Type 0 where
    end : Fields
    field : String → AnyElement → Fields → Fields

abbrev pub to_items : List AnyElement → Items
to_items [] = nil
to_items (x ∷ xs) = cons x (to_items xs)

abbrev pub to_list : Items → List AnyElement
to_list nil = []
to_list (cons x xs) = x ∷ to_list xs

abbrev pub to_fields : FlatMap AnyElement → Fields
to_fields [] = end
to_fields ((k, x) ∷ m) = field k x (to_fields m)

abbrev pub entries : Fields → FlatMap AnyElement
entries end = []
entries (field k x fs) = (k, x) ∷ entries fs

abbrev pub object : FlatMap AnyElement → AnyElement
object m = obj (to_fields m)

abbrev pub array : List AnyElement → AnyElement
array xs = arr (to_items xs)
