-- ===== src/AnyType/Decode.antt =====
-- The decoders of src/common/any_type.cpp. A pointer that may be null is an `Option`. A decoder's
-- error text is `err`; its empty text is `ok` with what it wrote.
use Prim.Native.Char.{code}
use tiny_lobby_tests.Prelude.{
  ℕ, ◌-◌, ◌*◌, ◌/◌, ◌%◌, ◌+◌, ◌^◌, Bool, false, String, Option, none, some, [], suc, eqb, ltb,
  if◌then◌else◌,
}
use tiny_lobby_tests.Prelude.Int.{ℤ, pos, negsuc, cast_i32, cast_i64}
use tiny_lobby_tests.FlatMap.{FlatMap}
use tiny_lobby_tests.FlatMap
use tiny_lobby_tests.Yyjson.{Json, obj_get}
use tiny_lobby_tests.Yyjson
use tiny_lobby_tests.AnyType.{AnyElement, Items, to_fields}

pub data Result {ℓ} (A : Type ℓ) : Type ℓ where
  ok : A → Result A
  err : String → Result A

infixl 10 ◌>>=◌
abbrev pub ◌>>=◌ {ℓ κ} : {A : Type ℓ} {B : Type κ} → Result A → (A → Result B) → Result B
ok a >>= f = f a
err e >>= f = err e

-- std::string(const char *): up to the first NUL.
unfoldable pub c_str : String → String
c_str String.[] = ""
c_str (String.◌∷◌ c s) = elim (code c) [
  | Prim.Native.Nat.zero ↦ ""
  | suc n ↦ String.◌∷◌ c (c_str s)
]

-- static_cast<int> of a double, by its IEEE 754 bits: the magnitude is cut off towards zero.
unfoldable pub real_magnitude : ℕ → ℕ
real_magnitude bits =
    let e = bits / 2 ^ 52 % 2048 in
    let m = bits % 2 ^ 52 + 2 ^ 52 in
    if ltb e 1023 then 0 else if ltb e 1075 then m / 2 ^ (1075 - e) else m * 2 ^ (e - 1075)

unfoldable pub real_to_int : ℕ → ℤ
unfolding real_magnitude
real_to_int bits =
    if ltb bits (2 ^ 63)
    then cast_i32 (pos (real_magnitude bits))
    else if eqb (real_magnitude bits) 0
    then pos 0
    else cast_i32 (negsuc (real_magnitude bits - 1))

string_of : Option Json → String → String
string_of (some (Yyjson.Json.str s)) d = c_str s
string_of _ d = d

int_of : Option Json → ℤ → ℤ
int_of (some (Yyjson.Json.num z)) d = cast_i32 z
int_of (some (Yyjson.Json.real bits)) d = real_to_int bits
int_of _ d = d

-- yyjson_get_bool is false on a value of another kind.
bool_of : Option Json → Bool → Bool
bool_of (some (Yyjson.Json.bool b)) d = b
bool_of (some _) d = false
bool_of none d = d

unfoldable pub decode_string_or_default : Option Json → String → String → String
unfolding string_of
decode_string_or_default o key default_value = string_of (obj_get o key) default_value

unfoldable pub decode_int_or_default : Option Json → String → ℤ → ℤ
unfolding int_of
decode_int_or_default o key default_value = int_of (obj_get o key) default_value

unfoldable pub decode_bool_or_default : Option Json → String → Bool → Bool
unfolding bool_of
decode_bool_or_default o key default_value = bool_of (obj_get o key) default_value

-- decode_value of a pointer that is not null.
unfoldable mutual
  pub decode_present : Json → Result AnyElement
  decode_present Yyjson.Json.null = ok AnyElement.null
  decode_present (Yyjson.Json.bool b) = ok (AnyElement.bool b)
  decode_present (Yyjson.Json.num z) = ok (AnyElement.int (cast_i64 z))
  decode_present (Yyjson.Json.real bits) = ok (AnyElement.real bits)
  decode_present (Yyjson.Json.str s) = ok (AnyElement.str (c_str s))
  decode_present (Yyjson.Json.arr xs) = do items ← decode_items xs; ok (AnyElement.arr items)
  decode_present (Yyjson.Json.obj fs) = do
    map_result ← decode_fields fs []
    ok (AnyElement.obj (to_fields map_result))
  decode_present Yyjson.Json.other = err "Unknown JSON type"

  pub decode_items : Yyjson.Items → Result Items
  decode_items Yyjson.Items.nil = ok Items.nil
  decode_items (Yyjson.Items.cons x xs) = do
    child ← decode_present x
    rest ← decode_items xs
    ok (Items.cons child rest)

  pub decode_fields : Yyjson.Fields → FlatMap AnyElement → Result (FlatMap AnyElement)
  decode_fields Yyjson.Fields.end dict = ok dict
  decode_fields (Yyjson.Fields.field k x fs) dict = do
    element ← decode_present x
    decode_fields fs (FlatMap.insert (c_str k) element dict)
  decode_fields (Yyjson.Fields.odd_field k x fs) dict = err "Non-string key in object"

-- A null pointer is an error.
unfoldable pub decode_value : Option Json → Result AnyElement
unfolding decode_present
decode_value none = err "Null value"
decode_value (some x) = decode_present x

-- What decode_object has put into the map where it returns, with an error or without.
unfoldable pub decoded_fields : Yyjson.Fields → FlatMap AnyElement → FlatMap AnyElement
unfolding decode_present
decoded_fields Yyjson.Fields.end dict = dict
decoded_fields (Yyjson.Fields.odd_field k x fs) dict = dict
decoded_fields (Yyjson.Fields.field k x fs) dict =
    stop_or_go dict (decode_present x)
      λ element. decoded_fields fs (FlatMap.insert (c_str k) element dict)
  where
    stop_or_go :
        FlatMap AnyElement
        → Result AnyElement
        → (AnyElement → FlatMap AnyElement)
        → FlatMap AnyElement
    stop_or_go before (ok element) go = go element
    stop_or_go before (err e) go = before

unfoldable pub decoded_object : Option Json → FlatMap AnyElement
unfolding decoded_fields
decoded_object (some (Yyjson.Json.obj fs)) = decoded_fields fs []
decoded_object _ = []

-- What is no object adds nothing and is no error.
unfoldable pub decode_object : Option Json → FlatMap AnyElement → Result (FlatMap AnyElement)
unfolding decode_fields
decode_object (some (Yyjson.Json.obj fs)) dict = decode_fields fs dict
decode_object _ dict = ok dict

unfoldable pub decode_array : Option Json → Result AnyElement
unfolding decode_items
decode_array (some (Yyjson.Json.arr xs)) = do items ← decode_items xs; ok (AnyElement.arr items)
decode_array _ = err "Not an array"
