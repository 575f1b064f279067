-- ===== src/Yyjson.antt =====
-- A value of the parser, yyjson_val, by its documented kinds. An integer may lie outside of
-- `int64_t` (a uint). A real is the bit pattern of its double. An object may name a key twice. `other`
-- is a value of no kind or of the raw one, and `odd_field` a field whose key is no text; the parser
-- makes neither with the flags that the source gives it.
use tiny_lobby_tests.Prelude.{ℕ, Bool, String, Option, none, some, ◌==◌, if◌then◌else◌}
use tiny_lobby_tests.Prelude.Int.{ℤ}

mutual
  pub data Json : Type 0 where
    null : Json
    bool : Bool → Json
    num : ℤ → Json
    real : ℕ → Json
    str : String → Json
    arr : Items → Json
    obj : Fields → Json
    other : Json

  pub data Items : Type 0 where
    nil : Items
    cons : Json → Items → Items

  pub data Fields : Type 0 where
    end : Fields
    field : String → Json → Fields → Fields
    odd_field : Json → Json → Fields → Fields

-- yyjson_obj_get: the first field of the name; null where there is none or the value is no object.
abbrev pub find_field : String → Fields → Option Json
find_field k end = none
find_field k (odd_field j x fs) = find_field k fs
find_field k (field j x fs) = if j == k then some x else find_field k fs

abbrev pub obj_get : Option Json → String → Option Json
obj_get none k = none
obj_get (some (obj fs)) k = find_field k fs
obj_get (some _) k = none
