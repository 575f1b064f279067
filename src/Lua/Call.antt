-- ===== src/Lua/Call.antt =====
-- A call of a script's function: `ScriptLua::func_call` of src/lua/script_lua.cpp. What the script does
-- is an argument: an action on the world, under the registry of the call, with what lua_pcall gives.
use Prim.Native.String
use tiny_lobby_tests.Prelude.{
  Bool, true, false, not, String, Option, none, some, List, [], ◌∷◌, if◌then◌else◌,
}
use tiny_lobby_tests.AnyType.{AnyElement, str}
use tiny_lobby_tests.AnyType.Decode.{c_str}
use tiny_lobby_tests.Game.Monad.{M, ◌>>=◌, pure}
use tiny_lobby_tests.Lua.{LuaValue, Numbers, Outcome, done, fault}
use tiny_lobby_tests.Lua.Value.{decode_luavalue, push_lua_value}
use tiny_lobby_tests.Lua.Api.{Registry}

-- How a call ends: with an error, which has a text or not, or with the values returned, the first one
-- first. The table `main` is below them on the stack, as it is then.
pub data Ended : Type 0 where
  failed : Option String → Ended
  returned : LuaValue → List LuaValue → Ended

-- The functions are those of the table `main` at the start of a call.
pub record Engine : Type 0 where
  pub enabled : Bool
  pub opened : Bool
  pub main : LuaValue
  pub function : String → Option (List LuaValue → Registry → M Ended)

abbrev is_table : LuaValue → Bool
is_table (LuaValue.table t) = true
is_table _ = false

abbrev pub top : LuaValue → List LuaValue → LuaValue
top v [] = v
top v (u ∷ us) = top u us

module _ (numbers : Numbers) where
  unfoldable pub pushed : List AnyElement → List LuaValue
  pushed [] = []
  pushed (x ∷ xs) = push_lua_value numbers x ∷ pushed xs

  -- The value on top is decoded outside the protected call: a fault there is not caught.
  unfoldable pub end_call : Ended → Outcome (AnyElement × Bool)
  end_call (failed none) = done (str "Unknown Lua error", true)
  end_call (failed (some message)) = done (str (c_str message), true)
  end_call (returned main values) =
      tiny_lobby_tests.Lua.◌>>=◌ (decode_luavalue numbers (top main values)) λ e. done (e, false)

  unfoldable pub func_call :
      Engine → String → List AnyElement → Registry → M (Outcome (AnyElement × Bool))
  unfolding pushed end_call
  func_call engine func_name args registry =
      if not engine.enabled
      then pure (done (str "Lua script is not enabled", false))
      else if not engine.opened
      then pure (done (str "Lua state is nullptr", false))
      else if not (is_table engine.main)
      then pure (done (str "Main is not a table. ", false))
      else elim (engine.function func_name) [
        | none ↦ pure (done (str (String.◌++◌ "Function not found. " func_name), true))
        | some f ↦ (do ended ← f (pushed args) registry; pure (end_call ended))
      ]
