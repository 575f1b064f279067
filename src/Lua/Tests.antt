-- ===== src/Lua/Tests.antt =====
-- The theorems about scripts at work on the small game, with a small part of the doubles.
use tiny_lobby_tests.Prelude.{
  ℕ, true, false, Option, none, some, List, [], ◌∷◌, ◌≡◌, refl, eqb, ltb, ◌==◌, ne_of_test,
  if◌then◌else◌,
}
use tiny_lobby_tests.Prelude.Int.{ℤ, pos, negsuc}
use tiny_lobby_tests.FlatMap
use tiny_lobby_tests.FlatSet
use tiny_lobby_tests.AnyType.{AnyElement, Items, Fields}
use tiny_lobby_tests.AnyType.Decode.{c_str}
use tiny_lobby_tests.Game.Rules.{SameMembership}
use tiny_lobby_tests.Game.Consistency.{IsConsistent}
use tiny_lobby_tests.Game.Samples.{lobby1, start, chess-IsConsistent}
use tiny_lobby_tests.Lua.{LuaValue, Numbers, done}
use tiny_lobby_tests.Lua.Value.{decode_luavalue, push_lua_value}
use tiny_lobby_tests.Lua.Tables.{IsPlain, decode_luavalue-push_lua_value, number_key_lost}
use tiny_lobby_tests.Lua.Api.{Registry}
use tiny_lobby_tests.Lua.Userdata.{lobby_newindex}
use tiny_lobby_tests.Lua.Script.{
  Access, write, read, notifies_all, chats, perform_all, Within, scripts_keep_membership,
  lobby_object, host_not_member,
}

-- The doubles of 0, 1, 2 and 7.
abbrev of_int : ℤ → ℕ
of_int (pos n) =
    if eqb n 1
    then 0x3ff0000000000000
    else if eqb n 2
    then 0x4000000000000000
    else if eqb n 7
    then 0x401c000000000000
    else 0
of_int (negsuc n) = 0

abbrev whole : ℕ → Option ℤ
whole b =
    if eqb b 0x3ff0000000000000
    then some (pos 1)
    else if eqb b 0x4000000000000000
    then some (pos 2)
    else if eqb b 0x401c000000000000
    then some (pos 7)
    else if eqb b 0
    then some (pos 0)
    else none

abbrev to_integer : ℕ → ℤ
to_integer b = elim (whole b) [ some z ↦ z | none ↦ pos 0 ]

abbrev small : Numbers
small = record {
  of_int = of_int;
  whole = whole;
  read = λ s. if s == "7" then some 0x401c000000000000 else none;
  show = λ b. if eqb b 0x401c000000000000 then "7" else "0";
  below = ltb;
  to_int = to_integer;
  to_int32 = to_integer;
  milliseconds = λ b. if eqb b 0x3ff0000000000000 then 1000 else 0;
}

-- {"hand": [1, 2], "on": true}
abbrev hand : AnyElement
hand = AnyElement.obj (
    Fields.field "hand"
      (AnyElement.arr
        (Items.cons (AnyElement.int (pos 1)) (Items.cons (AnyElement.int (pos 2)) Items.nil)))
      (Fields.field "on" (AnyElement.bool true) Fields.end))

hand-IsPlain : IsPlain small hand
unfolding IsPlain FlatMap.emplace FlatMap.find FlatMap.insert c_str
hand-IsPlain = (
  refl,
  (
    refl,
    refl,
    ne_of_test "hand" "" refl,
    refl,
    refl,
    (refl, refl, (refl, refl, tt)),
    (refl, refl, ne_of_test "on" "" refl, refl, refl, tt, tt),
  ),
)

decode_luavalue-push_lua_value_example :
    decode_luavalue small (push_lua_value small hand) ≡ done hand
decode_luavalue-push_lua_value_example = decode_luavalue-push_lua_value small hand hand-IsPlain

seven_read : small.read (c_str "7") ≡ some 0x401c000000000000
unfolding c_str
seven_read = refl

one-IsPlain : IsPlain small (AnyElement.int (pos 1))
unfolding IsPlain
one-IsPlain = refl

number_key_lost_example :
    (decode_luavalue small (
        push_lua_value small
          (AnyElement.obj (Fields.field "7" (AnyElement.int (pos 1)) Fields.end)))
      ≡ done (AnyElement.arr (Items.cons (AnyElement.int (pos 1)) Items.nil)))
    × (decode_luavalue small (push_lua_value small (AnyElement.arr Items.nil))
        ≡ done (AnyElement.obj Fields.end))
number_key_lost_example =
    number_key_lost small "7" (AnyElement.int (pos 1)) 0x401c000000000000 seven_read refl
      one-IsPlain

abbrev call_of_alice : Registry
call_of_alice = record { peer_id = "alice"; lobby_id = "l1"; game_id = "chess" }

-- lobby.sealed = true; lobby.peers; lobby.notify_all(true); lobby.broadcast_chat("hi")
abbrev seal_and_tell : List Access
seal_and_tell =
    write (lobby_object "chess" "l1" "alice") (LuaValue.text "sealed") (LuaValue.boolean true)
    ∷ read (lobby_object "chess" "l1" "alice") (LuaValue.text "peers")
    ∷ notifies_all (LuaValue.boolean true ∷ [])
    ∷ chats (LuaValue.text "hi" ∷ [])
    ∷ []

seal_and_tell-Within : Within small call_of_alice seal_and_tell start.game
unfolding Within FlatMap.find c_str
seal_and_tell-Within = (
  ((chess-IsConsistent, refl, λ e. cc e), refl),
  (((chess-IsConsistent, refl, λ e. cc e), refl), (refl, (refl, chess-IsConsistent))),
)

scripts_keep_membership_example :
    SameMembership start.game (perform_all small call_of_alice seal_and_tell start).1.game
    × IsConsistent (perform_all small call_of_alice seal_and_tell start).1.game
scripts_keep_membership_example =
    scripts_keep_membership small call_of_alice seal_and_tell start chess-IsConsistent
      seal_and_tell-Within

lobby_there : FlatMap.find "l1" start.game.lobbies ≡ some lobby1
unfolding FlatMap.find
lobby_there = refl

other_host : (lobby1.host == c_str "eve") ≡ false
unfolding c_str
other_host = refl

eve_absent : FlatSet.contains (c_str "eve") lobby1.peer_ids ≡ false
unfolding c_str FlatSet.contains
eve_absent = refl

host_not_member_example :
    ¬ IsConsistent
      (lobby_newindex small
        (lobby_object "chess" "l1" "alice")
        (LuaValue.text "host")
        (LuaValue.text "eve")
        start).1.game
host_not_member_example =
    host_not_member small "chess" "l1" "alice" "eve" lobby1 start lobby_there other_host eve_absent
