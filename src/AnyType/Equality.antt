-- ===== src/AnyType/Equality.antt =====
-- operator== of AnyElement (src/common/any_type.h), with the equality of boost's flat_map and vector,
-- which compare size and entries in order, and of doubles.
use tiny_lobby_tests.Prelude.{ℕ, ◌*◌, ◌%◌, ◌^◌, Bool, true, false, not, ◌&&◌, ◌||◌, ◌==◌, ltb, eqb}
use tiny_lobby_tests.Prelude.Int.{eqb_ℤ}
use tiny_lobby_tests.AnyType.{AnyElement, Items, Fields}

-- IEEE 754: a NaN equals nothing, and the two zeros are equal.
is_nan : ℕ → Bool
is_nan bits = ltb (2047 * 2 ^ 52) (bits % 2 ^ 63)

double_eq : ℕ → ℕ → Bool
unfolding is_nan
double_eq a b =
    not (is_nan a) && not (is_nan b) && (eqb a b || (eqb (a % 2 ^ 63) 0 && eqb (b % 2 ^ 63) 0))

bool_eq : Bool → Bool → Bool
bool_eq true b = b
bool_eq false b = not b

unfoldable mutual
  unfolding double_eq bool_eq

  pub element_eq : AnyElement → AnyElement → Bool
  element_eq AnyElement.null AnyElement.null = true
  element_eq (AnyElement.bool a) (AnyElement.bool b) = bool_eq a b
  element_eq (AnyElement.int a) (AnyElement.int b) = eqb_ℤ a b
  element_eq (AnyElement.real a) (AnyElement.real b) = double_eq a b
  element_eq (AnyElement.str a) (AnyElement.str b) = a == b
  element_eq (AnyElement.obj a) (AnyElement.obj b) = fields_eq a b
  element_eq (AnyElement.arr a) (AnyElement.arr b) = items_eq a b
  element_eq _ _ = false

  pub items_eq : Items → Items → Bool
  items_eq Items.nil Items.nil = true
  items_eq (Items.cons x xs) (Items.cons y ys) = element_eq x y && items_eq xs ys
  items_eq _ _ = false

  pub fields_eq : Fields → Fields → Bool
  fields_eq Fields.end Fields.end = true
  fields_eq (Fields.field j x xs) (Fields.field k y ys) =
      j == k && element_eq x y && fields_eq xs ys
  fields_eq _ _ = false
