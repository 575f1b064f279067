-- ===== src/Lua/Api.antt =====
-- The functions that scripts call on a lobby: `start_timer`, `stop_timer`, `notify`, `notify_all`,
-- `broadcast_chat`, `kick_peer` and `set_leaderboard` of src/lua/script_lua_functions.cpp, and what the
-- game thread does for them in src/game/game_thread.cpp. The registry of the Lua library holds the peer,
-- the lobby and the game of the running call.
use tiny_lobby_tests.Prelude.{
  ℕ, ◌+◌, Bool, true, false, not, ◌||◌, String, none, some, List, [], ◌∷◌, ◌==◌, if◌then◌else◌,
}
use tiny_lobby_tests.Prelude.Int.{ℤ}
use tiny_lobby_tests.FlatMap.{FlatMap}
use tiny_lobby_tests.FlatMap
use tiny_lobby_tests.AnyType.{AnyElement, str, entries}
use tiny_lobby_tests.AnyType.Decode.{c_str}
use tiny_lobby_tests.Lobby.{LobbyData}
use tiny_lobby_tests.Messages.{
  notification_chat, notification_peer_notify, notification_lobby_host_changed,
}
use tiny_lobby_tests.Game.Monad.{
  M, ◌>>=◌, ◌>>◌, pure, skip, get_game, get_now, get_lobby, modify_lobby, modify_game,
}
use tiny_lobby_tests.Game.Send.{on_error, send_text, send_to_all}
use tiny_lobby_tests.Game.Scripts.{LuaCall, callback, text_result}
use tiny_lobby_tests.Game.Membership.{remove_peer_from_lobby}
use tiny_lobby_tests.Lua.{LuaValue, Numbers, Fault, raised, bad_argument, Outcome, done, fault}
use tiny_lobby_tests.Lua.Value.{decode_luavalue}

pub record Registry : Type 0 where
  pub peer_id : String
  pub lobby_id : String
  pub game_id : String

-- The functions of the game thread.
module _ (lua : LuaCall) where
  unfoldable pub kick : String → String → M (Unit {0})
  kick lobby_id peer_id = do
    game ← get_game
    if not (FlatMap.contains lobby_id game.lobbies) then skip else (do
      _ ← get_lobby lobby_id
      (value, has_error) ← callback lua "" lobby_id "_can_host_kick" (str peer_id ∷ [])
      elim (text_result (value, has_error)) [
        | some message ↦ on_error "" "" message false has_error
        | none ↦ remove_peer_from_lobby lua lobby_id peer_id "" true
      ])

unfoldable pub send_message : String → String → FlatMap AnyElement → M (Unit {0})
send_message lobby_id message chat_metadata = do
  lobby ← get_lobby lobby_id
  send_to_all lobby.peer_ids (notification_chat "" message "" chat_metadata)

unfoldable pub notify_peer : String → String → AnyElement → M (Unit {0})
notify_peer lobby_id peer_id notification = do
  _ ← get_lobby lobby_id
  send_text peer_id (notification_peer_notify notification peer_id)

unfoldable pub notify_members : String → AnyElement → M (Unit {0})
notify_members lobby_id notification = do
  lobby ← get_lobby lobby_id
  send_to_all lobby.peer_ids (notification_peer_notify notification "")

-- For the lobby that the source's reference names.
unfoldable pub set_lobby_host : String → LobbyData → String → M (Unit {0})
set_lobby_host lobby_id lobby new_host = if lobby.host == new_host then skip else (do
  modify_lobby lobby_id (λ l. record l { host = new_host })
  send_to_all lobby.peer_ids (notification_lobby_host_changed new_host))

-- A value of `luaL_checkstring` and `luaL_checknumber`: a number has a text, and a text may be read as
-- a number. A text ends at its first NUL.
abbrev pub check_string : Numbers → LuaValue → Outcome String
check_string numbers (LuaValue.text s) = done (c_str s)
check_string numbers (LuaValue.number bits) = done (numbers.show bits)
check_string numbers _ = fault bad_argument

abbrev pub check_number : Numbers → LuaValue → Outcome ℕ
check_number numbers (LuaValue.number bits) = done bits
check_number numbers (LuaValue.text s) = elim (numbers.read s) [
  | some bits ↦ done bits
  | none ↦ fault bad_argument
]
check_number numbers _ = fault bad_argument

-- Where a check fails the function ends with the fault and has done nothing.
abbrev pub checked {ℓ} :
    {A : Type ℓ} → Outcome A → (A → M (Outcome (Unit {0}))) → M (Outcome (Unit {0}))
checked (done a) f = f a
checked (fault e) f = pure (fault e)

abbrev pub after : M (Unit {0}) → M (Outcome (Unit {0}))
after m = m >> pure (done tt)

module _ (numbers : Numbers) (registry : Registry) where
  -- 0.1 and 600 as doubles.
  abbrev shortest : ℕ
  shortest = 0x3fb999999999999a

  abbrev longest : ℕ
  longest = 0x4082c00000000000

  unfoldable pub decode_values : List LuaValue → Outcome (List AnyElement)
  decode_values [] = done []
  decode_values (v ∷ vs) =
      tiny_lobby_tests.Lua.◌>>=◌ (decode_luavalue numbers v)
        λ e. tiny_lobby_tests.Lua.◌>>=◌ (decode_values vs) λ es. done (e ∷ es)

  unfoldable pub start_timer : List LuaValue → M (Outcome (Unit {0}))
  unfolding decode_values
  start_timer (id ∷ seconds ∷ rest) = checked (check_string numbers id) λ timer_id.
      checked (check_number numbers seconds) λ duration.
        if numbers.below duration shortest || numbers.below longest duration
        then pure (fault (raised "Timer duration must be between 0.1 second and 10 minutes."))
        else checked (decode_values rest) λ args. after (do
          now ← get_now
          modify_game (λ g. record g {
            timer_data =
                FlatMap.insert timer_id
                  (record {
                    id = timer_id;
                    lobby_id = registry.lobby_id;
                    game_id = registry.game_id;
                    peer_id = registry.peer_id;
                    end_time = numbers.milliseconds duration + now;
                    args = args;
                  })
                  g.timer_data;
          }))
  start_timer _ = pure (fault (raised "Expected at least 2 arguments."))

  unfoldable pub stop_timer : List LuaValue → M (Outcome (Unit {0}))
  stop_timer (id ∷ rest) = checked (check_string numbers id) λ timer_id.
      after (modify_game (λ g. record g { timer_data = FlatMap.erase timer_id g.timer_data }))
  stop_timer [] = pure (fault (raised "Expected 1 argument."))

  unfoldable pub notify : List LuaValue → M (Outcome (Unit {0}))
  unfolding notify_peer
  notify (peer ∷ value ∷ rest) = checked (check_string numbers peer) λ peer_id.
      checked (decode_luavalue numbers value)
        λ notification. after (notify_peer registry.lobby_id peer_id notification)
  notify _ = pure (fault (raised "Expected 2 arguments."))

  unfoldable pub notify_all : List LuaValue → M (Outcome (Unit {0}))
  unfolding notify_members
  notify_all (value ∷ rest) =
      checked (decode_luavalue numbers value)
        λ notification. after (notify_members registry.lobby_id notification)
  notify_all [] = pure (fault (raised "Expected 1 arguments."))

  abbrev metadata_of : AnyElement → Outcome (FlatMap AnyElement)
  metadata_of (AnyElement.obj fs) = done (entries fs)
  metadata_of _ = fault (raised "Expected a dictionary for chat metadata.")

  unfoldable pub broadcast_chat : List LuaValue → M (Outcome (Unit {0}))
  unfolding send_message
  broadcast_chat [] = pure (fault (raised "Expected 1 arguments."))
  broadcast_chat (message ∷ []) =
      checked (check_string numbers message) λ text. after (send_message registry.lobby_id text [])
  broadcast_chat (message ∷ metadata ∷ rest) = checked (check_string numbers message) λ text.
      checked (decode_luavalue numbers metadata) λ e.
        checked (metadata_of e)
          λ chat_metadata. after (send_message registry.lobby_id text chat_metadata)

  unfoldable pub kick_peer : LuaCall → List LuaValue → M (Outcome (Unit {0}))
  unfolding kick
  kick_peer lua (peer ∷ rest) =
      checked (check_string numbers peer) λ peer_id. after (kick lua registry.lobby_id peer_id)
  kick_peer lua [] = pure (fault (raised "Expected 1 arguments."))

-- What `leaderboards_set_score` puts into the database's queue.
pub record DatabaseReceivedMessage : Type 0 where
  pub game_id : String
  pub peer_id : String
  pub score : ℤ
  pub leaderboard_id : String
  pub leaderboard_type : String

abbrev pub is_leaderboard_type : String → Bool
is_leaderboard_type s = s == "best" || s == "set" || s == "inc" || s == "dec"

abbrev optional_string : Numbers → String → List LuaValue → Outcome String
optional_string numbers absent [] = done absent
optional_string numbers absent (v ∷ vs) = check_string numbers v

unfoldable pub scored :
    Numbers
    → Registry
    → LuaValue
    → LuaValue
    → List LuaValue
    → List LuaValue
    → Outcome DatabaseReceivedMessage
scored numbers registry peer score kind board =
    tiny_lobby_tests.Lua.◌>>=◌ (check_string numbers peer) λ peer_id.
      tiny_lobby_tests.Lua.◌>>=◌ (check_number numbers score) λ points.
        tiny_lobby_tests.Lua.◌>>=◌ (optional_string numbers "best" kind) λ leaderboard_type.
          if not (is_leaderboard_type leaderboard_type)
          then fault
              (raised "Invalid leaderboard type. Expected 'best' or 'set' or 'inc' or 'dec'.")
          else (tiny_lobby_tests.Lua.◌>>=◌ (optional_string numbers "" board) λ leaderboard_id.
              done (record {
                game_id = registry.game_id;
                peer_id = peer_id;
                score = numbers.to_int points;
                leaderboard_id = leaderboard_id;
                leaderboard_type = leaderboard_type;
              }))

unfoldable pub set_leaderboard :
    Numbers → Registry → List LuaValue → Outcome DatabaseReceivedMessage
unfolding scored
set_leaderboard numbers registry (peer ∷ score ∷ []) = scored numbers registry peer score [] []
set_leaderboard numbers registry (peer ∷ score ∷ kind ∷ board) =
    scored numbers registry peer score (kind ∷ []) board
set_leaderboard numbers registry _ = fault (raised "Expected 2 arguments.")
