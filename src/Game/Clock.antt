-- ===== src/Game/Clock.antt =====
-- What the clock and the file watcher make a game do: `handle_tick` and `reload_game` of
-- src/game/game_thread.cpp and `GameData::open` of src/game/game_data.h, for one game.
pub mod Aligned
use tiny_lobby_tests.Prelude.{
  ℕ, ◌+◌, ◌*◌, ◌/◌, Bool, true, false, not, ◌&&◌, ◌||◌, String, Option, none, some, List, [], ◌∷◌,
  eqb, ltb, ◌==◌, if◌then◌else◌,
}
use tiny_lobby_tests.Prelude.Int.{pos}
use tiny_lobby_tests.FlatMap
use tiny_lobby_tests.FlatSet
use tiny_lobby_tests.FlatSet.{FlatSet}
use tiny_lobby_tests.AnyType.{AnyElement, int, str}
use tiny_lobby_tests.Game.{GameData}
use tiny_lobby_tests.Game.Monad.{M, ◌>>=◌, ◌>>◌, pure, skip, get_game, get_now, modify_game}
use tiny_lobby_tests.Game.Send.{on_error}
use tiny_lobby_tests.Game.Scripts.{LuaCall, scripted_function_call}

-- The last multiple of the rate, or what stood there without one.
unfoldable pub align : ℕ → ℕ → ℕ → ℕ
align rate now last = if ltb 0 rate then now / rate * rate else last

-- What the script engine reads when it opens a script is an argument: the callbacks that it has.
unfoldable pub open_game : FlatSet → ℕ → GameData → GameData
unfolding align
open_game callbacks now g = record g {
  enabled_callbacks = if g.lua_enabled then callbacks else g.enabled_callbacks;
  last_send_time = align g.send_rate now g.last_send_time;
  last_tick_time = align g.tick_rate now g.last_tick_time;
}

-- now = t
unfoldable pub set_now : ℕ → M (Unit {0})
set_now t w = (tt, record w { now = t })

-- An error of a call that is no text makes `std::get` throw, and nothing catches that: the result
-- says whether the loop goes on.
unfoldable pub report_tick : AnyElement × Bool → M Bool
report_tick (str s, has_error) = do on_error "" "" s false true; pure true
report_tick (value, has_error) = pure (not has_error)

module _ (lua : LuaCall) where
  unfoldable pub tick_each : List AnyElement → List String → M Bool
  unfolding report_tick
  tick_each args [] = pure true
  tick_each args (lobby_id ∷ ids) = do
    result ← scripted_function_call lua "" lobby_id "_on_lobby_tick" args
    fine ← report_tick result
    if fine then tick_each args ids else pure false

  -- False if an exception escapes. The lobbies are those at the start of the loop.
  unfoldable pub handle_tick : M Bool
  unfolding tick_each set_now
  handle_tick = do
    game ← get_game
    previous_tick ← get_now
    if eqb game.tick_rate 0 || ltb previous_tick (game.last_tick_time + game.tick_rate)
        then pure true
        else (do
          let tick = game.last_tick_time + game.tick_rate
          modify_game (λ g. record g { last_tick_time = tick })
          set_now tick
          fine ←
              (if not (FlatSet.contains "_on_lobby_tick" game.enabled_callbacks)
                then pure true
                else tick_each (int (pos game.tick_rate) ∷ []) (FlatMap.keys game.lobbies))
          if fine then (do set_now previous_tick; pure true) else pure false)

  -- The game's script is read again.
  unfoldable pub reload_game : FlatSet → ℕ → String → M (Unit {0})
  unfolding open_game
  reload_game callbacks time folder_name = do
    game ← get_game
    if not (game.folder_name == folder_name && game.lua_enabled) then skip else (do
      modify_game (open_game callbacks time)
      opened ← get_game
      if not (FlatSet.contains "_on_server_reload" opened.enabled_callbacks)
          then skip
          else (do _ ← scripted_function_call lua "" "" "_on_server_reload" []; skip))
