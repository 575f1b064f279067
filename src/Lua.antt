-- ===== src/Lua.antt =====
-- What a script's functions get and give: the values of the Lua library, as src/lua/script_lua.cpp and
-- src/lua/script_lua_functions.cpp see them. A table is the list of its entries in the order of
-- lua_next. A number is the bit pattern of its double.
pub mod Value
pub mod Tables
pub mod Api
pub mod Userdata
pub mod Reads
pub mod Call
pub mod Writes
pub mod Looks
pub mod Script
pub mod Tests
use tiny_lobby_tests.Prelude.{ℕ, Bool, String, Option}
use tiny_lobby_tests.Prelude.Int.{ℤ}

-- `other` is a function, a userdata or another kind without a counterpart.
mutual
  pub data LuaValue : Type 0 where
    nil : LuaValue
    boolean : Bool → LuaValue
    number : ℕ → LuaValue
    text : String → LuaValue
    table : Entries → LuaValue
    other : LuaValue

  pub data Entries : Type 0 where
    end : Entries
    entry : LuaKey → LuaValue → Entries → Entries

  pub data LuaKey : Type 0 where
    at_number : ℕ → LuaKey
    at_text : String → LuaKey
    at_other : LuaKey

-- The library's arithmetic: the double of an integer, the integer that a double equals, if it is one,
-- the double that a text is read as, if it is read as one, and the text of a double; whether one
-- double is below another; and the casts of a double to `int64_t`, to `int`, and of its thousandfold
-- to `int`.
pub record Numbers : Type 0 where
  pub of_int : ℤ → ℕ
  pub whole : ℕ → Option ℤ
  pub read : String → Option ℕ
  pub show : ℕ → String
  pub below : ℕ → ℕ → Bool
  pub to_int : ℕ → ℤ
  pub to_int32 : ℕ → ℤ
  pub milliseconds : ℕ → ℕ

-- luaL_error with its text, the library's own error for an argument of a wrong kind, an exception of
-- the C++ library, or the use of a null pointer as a text, which is undefined.
pub data Fault : Type 0 where
  raised : String → Fault
  bad_argument : Fault
  out_of_range : Fault
  null_text : Fault

pub data Outcome {ℓ} (A : Type ℓ) : Type ℓ where
  done : A → Outcome A
  fault : Fault → Outcome A

infixl 10 ◌>>=◌
abbrev pub ◌>>=◌ {ℓ κ} : {A : Type ℓ} {B : Type κ} → Outcome A → (A → Outcome B) → Outcome B
done a >>= f = f a
fault e >>= f = fault e
