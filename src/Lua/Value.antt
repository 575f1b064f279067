-- ===== src/Lua/Value.antt =====
-- `decode_luavalue`, `decode_luatable`, `push_table` and `push_lua_value` of
-- src/lua/script_lua_functions.cpp.
use Prim.Native.Char.{code}
use tiny_lobby_tests.Prelude.{
  ℕ, suc, ◌+◌, ◌-◌, ◌*◌, Bool, true, false, not, ◌&&◌, String, none, some, List, [], ◌∷◌, ◌++◌,
  ◌==◌, ltb, leb, is_some, if◌then◌else◌,
}
use tiny_lobby_tests.Prelude.Int.{pos}
use tiny_lobby_tests.FlatMap.{FlatMap}
use tiny_lobby_tests.FlatMap
use tiny_lobby_tests.AnyType.{AnyElement, Items, Fields, array, object}
use tiny_lobby_tests.AnyType.Decode.{c_str}
use tiny_lobby_tests.Lua.{
  LuaValue, Entries, LuaKey, at_number, at_text, at_other, Numbers, raised, out_of_range, Outcome,
  done, fault, ◌>>=◌,
}

abbrev is_digit : ℕ → Bool
is_digit c = leb b'0' c && leb c b'9'

abbrev pub first_digit : String → Bool
first_digit String.[] = false
first_digit (String.◌∷◌ c s) = is_digit (code c)

-- std::stoi of a text that begins with a digit: the number of its digits, up to the first other.
unfoldable pub digits_value : ℕ → String → ℕ
digits_value n String.[] = n
digits_value n (String.◌∷◌ c s) =
    let more = digits_value (n * 10 + (code c - b'0')) s in if is_digit (code c) then more else n

-- Whether an element of that number is kept; above INT_MAX std::stoi throws.
unfoldable pub stoi_positive : String → Outcome Bool
unfolding digits_value
stoi_positive key =
    let n = digits_value 0 key in if ltb 2147483647 n then fault out_of_range else done (ltb 0 n)

abbrev pub is_null : AnyElement → Bool
is_null AnyElement.null = true
is_null _ = false

-- What the loop of decode_luatable holds: the array, the dictionary, and whether it is one.
pub record Found : Type 0 where
  pub result_array : List AnyElement
  pub result_dict : FlatMap AnyElement
  pub is_dict : Bool

abbrev append_item : AnyElement → Found → Found
append_item e f = record f { result_array = f.result_array ++ e ∷ [] }

unfoldable pub put_entry : String → AnyElement → Found → Found
put_entry key e f =
    if is_null e then f else record f { result_dict = FlatMap.emplace key e f.result_dict }

unfoldable pub result_of : Found → AnyElement
result_of f = if f.is_dict then object f.result_dict else array f.result_array

abbrev pub nothing_found : Found
nothing_found = record { result_array = []; result_dict = []; is_dict = true }

-- A text key that is not read as a number. Its value is decoded where it is kept.
unfoldable pub put_text : String → Outcome AnyElement → Found → Outcome Found
unfolding stoi_positive put_entry
put_text key decoded f =
    if first_digit key && not f.is_dict
    then (stoi_positive key >>= λ kept.
        if kept then (decoded >>= λ e. done (append_item e f)) else done f)
    else (decoded >>= λ e. done (put_entry key e f))

-- A value nil makes no entry. Of two keys with the same text up to a NUL the later one stays.
abbrev pub is_nil : LuaValue → Bool
is_nil LuaValue.nil = true
is_nil _ = false

abbrev pub set_entry : LuaKey → LuaValue → Entries → Entries
set_entry key v rest = if is_nil v then rest else Entries.entry key v rest

abbrev pub has_key : String → Fields → Bool
has_key key Fields.end = false
has_key key (Fields.field k x fs) = if c_str k == key then true else has_key key fs

module _ (numbers : Numbers) where
  -- lua_isnumber also holds of a text that is read as a number.
  abbrev pub is_number : String → Bool
  is_number key = is_some (numbers.read key)

  abbrev pub of_number : ℕ → AnyElement
  of_number bits = elim (numbers.whole bits) [
    | some z ↦ AnyElement.int z
    | none ↦ AnyElement.real bits
  ]

  unfoldable mutual
    unfolding put_text result_of

    pub decode_luavalue : LuaValue → Outcome AnyElement
    decode_luavalue LuaValue.nil = done AnyElement.null
    decode_luavalue (LuaValue.boolean b) = done (AnyElement.bool b)
    decode_luavalue (LuaValue.number bits) = done (of_number bits)
    decode_luavalue (LuaValue.text s) = done (AnyElement.str (c_str s))
    decode_luavalue (LuaValue.table t) = decode_luatable t nothing_found >>= λ f. done (result_of f)
    decode_luavalue LuaValue.other = done AnyElement.null

    pub decode_luatable : Entries → Found → Outcome Found
    decode_luatable Entries.end f = done f
    decode_luatable (Entries.entry (at_number n) v rest) f = do
      e ← decode_luavalue v
      decode_luatable rest (record (append_item e f) { is_dict = false })
    decode_luatable (Entries.entry (at_text s) v rest) f =
        let key = c_str s in
        let numbered = decode_luavalue v >>= λ e.
        decode_luatable rest (record (append_item e f) { is_dict = false }) in
        let named = put_text key (decode_luavalue v) f >>= λ f'. decode_luatable rest f' in
        if is_number s then numbered else if key == "" then fault (raised "empty key") else named
    decode_luatable (Entries.entry at_other v rest) f = fault (raised "invalid key type")

  unfoldable mutual
    pub push_lua_value : AnyElement → LuaValue
    push_lua_value AnyElement.null = LuaValue.nil
    push_lua_value (AnyElement.bool b) = LuaValue.boolean b
    push_lua_value (AnyElement.int z) = LuaValue.number (numbers.of_int z)
    push_lua_value (AnyElement.real bits) = LuaValue.number bits
    push_lua_value (AnyElement.str s) = LuaValue.text s
    push_lua_value (AnyElement.arr xs) = LuaValue.table (push_array 1 xs)
    push_lua_value (AnyElement.obj fs) = LuaValue.table (push_fields fs)

    pub push_array : ℕ → Items → Entries
    push_array i Items.nil = Entries.end
    push_array i (Items.cons x xs) =
        set_entry (at_number (numbers.of_int (pos i))) (push_lua_value x) (push_array (suc i) xs)

    pub push_fields : Fields → Entries
    push_fields Fields.end = Entries.end
    push_fields (Fields.field k x fs) =
        let rest = push_fields fs in
        if has_key (c_str k) fs then rest else set_entry (at_text (c_str k)) (push_lua_value x) rest
