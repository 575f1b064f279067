-- ===== src/Game/Samples/Tests.antt =====
-- The theorems at work on the small game.
use tiny_lobby_tests.Prelude.{
  true, false, String, Option, none, some, List, [], ◌∷◌, ◌++◌, ◌≡◌, refl, ne_of_test, ◌<◌, ◌⊎◌,
  ◌↔◌, length, is_nil, arith, eq_iff, ◌==◌, if◌then◌else◌,
}
use tiny_lobby_tests.FlatMap
use tiny_lobby_tests.FlatMap.{IsDistinct}
use tiny_lobby_tests.FlatSet
use tiny_lobby_tests.AnyType.Decode.{
  decode_string_or_default, decode_int_or_default, c_str, decode_value, decode_present,
  decode_object, decode_fields, ok,
}
use tiny_lobby_tests.Yyjson.{Json}
use tiny_lobby_tests.Yyjson
use tiny_lobby_tests.Prelude.Int.{pos, negsuc, eqb_ℤ, to_u64}
use tiny_lobby_tests.AnyType.{AnyElement, null, bool}
use tiny_lobby_tests.Game.Host.{decode_changes}
use tiny_lobby_tests.Game.Host.Changes.{changed}
use tiny_lobby_tests.Game.Moves.Tags.{lobby_tags_lem}
use tiny_lobby_tests.Messages.Command.{Command}
use tiny_lobby_tests.Game.{World, Content, plain}
use tiny_lobby_tests.Game.Entry.Joining.{on_join_lobby_lem}
use tiny_lobby_tests.Game.Membership.{on_join_lobby, remove_peer_from_lobby}
use tiny_lobby_tests.Messages.Errors.{error_peer_not_host}
use tiny_lobby_tests.Game.Send.{on_error}
use tiny_lobby_tests.Game.Scripts.{no_lua}
use tiny_lobby_tests.Game.Dispatch.{run_command, on_message}
use tiny_lobby_tests.Game.Access.{host_only_refused}
use tiny_lobby_tests.Game.Rules.{SameMembership, seat, roster}
use tiny_lobby_tests.Game.Consistency.{IsConsistent}
use tiny_lobby_tests.Game.Keeping.Settled.{settled_command}
use tiny_lobby_tests.Game.Moves.Farewell.{leave_lobby_lem, kick_peer_lem}
use tiny_lobby_tests.Game.Moves.Loops.{AllKnown}
use tiny_lobby_tests.Game.Moves.Orphan.{relay_lobby_orphaned}
use tiny_lobby_tests.Game.Moves.Bounds.{negative_bound_accepted}
use tiny_lobby_tests.Game.Moves.Settings.{lobby_password_lem}
use tiny_lobby_tests.Game.Moves.{vacate}
use tiny_lobby_tests.Game.Entry.{on_message_stranger}
use tiny_lobby_tests.Game.Send.Batches.{batches_match, waiting, delivered, send_texts}
use tiny_lobby_tests.AnyType.Totality.{decode_value-ok, is_plain_json}
use tiny_lobby_tests.Game.Send.{handle_send}
use tiny_lobby_tests.Game.Clock.{align}
use tiny_lobby_tests.Game.Clock.Aligned.{times, batches_go_out}
use tiny_lobby_tests.Game.Samples.{
  alice, bob, carol, lobby1, chess, start, chess-IsConsistent, no_lua-IsTame,
}

-- {"p": "bob"}
abbrev kick_bob : Option Json
kick_bob = some (Yyjson.Json.obj (Yyjson.field "p" (Yyjson.Json.str "bob") Yyjson.end))

bob_known : FlatMap.find "bob" start.game.peers ≡ some bob
unfolding FlatMap.find
bob_known = refl

bob_there : FlatMap.contains "bob" start.game.peers ≡ true
unfolding FlatMap.find
bob_there = refl

alice_known : FlatMap.find "alice" start.game.peers ≡ some alice
unfolding FlatMap.find
alice_known = refl

lobby_found : FlatMap.find "l1" start.game.lobbies ≡ some lobby1
unfolding FlatMap.find
lobby_found = refl

bob_inside : FlatSet.contains "bob" lobby1.peer_ids ≡ true
unfolding FlatSet.contains
bob_inside = refl

kick_names_bob : decode_string_or_default kick_bob "p" "" ≡ "bob"
unfolding decode_string_or_default c_str
kick_names_bob = refl

host_only_refused_example :
    run_command no_lua Command.lobby_seal "7" "bob" none "" start
    ≡ on_error "7" "bob" error_peer_not_host false false start
host_only_refused_example =
    host_only_refused "bob" bob lobby1 start bob_known (ne_of_test "l1" "" refl) lobby_found
      (ne_of_test "alice" "bob" refl) no_lua Command.lobby_seal "7" none "" refl

settled_command_example :
    SameMembership start.game
      (run_command no_lua Command.lobby_ready "7" "bob" none "" start).1.game
settled_command_example =
    settled_command no_lua-IsTame "7" "bob" none "" start Command.lobby_ready
      (chess-IsConsistent, bob_there) refl

leave_lobby_lem_example :
    IsConsistent (run_command no_lua Command.leave_lobby "7" "alice" none "" start).1.game
    × (seat (
          FlatMap.find "alice"
            (run_command no_lua Command.leave_lobby "7" "alice" none "" start).1.game.peers)
        ≡ some ("alice", ""))
leave_lobby_lem_example =
    leave_lobby_lem no_lua "alice" "7" "" none alice lobby1 start chess-IsConsistent refl
      alice_known (ne_of_test "l1" "" refl) lobby_found refl (λ r. cc r)

kick_peer_lem_example :
    IsConsistent (run_command no_lua Command.kick_peer "7" "alice" kick_bob "" start).1.game
    × (seat (
          FlatMap.find "bob"
            (run_command no_lua Command.kick_peer "7" "alice" kick_bob "" start).1.game.peers)
        ≡ some ("bob", ""))
kick_peer_lem_example =
    kick_peer_lem no_lua "alice" "7" "" kick_bob alice lobby1 start chess-IsConsistent refl
      alice_known (ne_of_test "l1" "" refl) lobby_found refl (λ r. cc r) "bob" refl kick_names_bob
      (ne_of_test "bob" "" refl) (ne_of_test "bob" "alice" refl) bob_inside

-- {"_p": "secret"}
abbrev secret : Option Json
secret = some (Yyjson.Json.obj (Yyjson.field "_p" (Yyjson.Json.str "secret") Yyjson.end))

lobby_password_lem_example :
    FlatMap.find "l1"
      (run_command no_lua Command.lobby_password "7" "bob" secret "" start).1.game.lobbies
    ≡ some (record lobby1 { password = decode_string_or_default secret "_p" "" })
lobby_password_lem_example =
    lobby_password_lem no_lua "bob" "7" "" secret bob lobby1 start bob_known
      (ne_of_test "l1" "" refl) lobby_found "l1"

-- The small game as one that relays.
abbrev relayed : World
relayed = record start { game = record chess { lobby_control = "relay" } }

members_known : AllKnown lobby1.peer_ids relayed.game
unfolding FlatMap.find FlatSet.contains
members_known q m = ground (arith, eq_iff "alice" q, eq_iff "bob" q)

relayed_found : FlatMap.find "l1" relayed.game.lobbies ≡ some lobby1
unfolding FlatMap.find
relayed_found = refl

alice_inside : FlatSet.contains "alice" lobby1.peer_ids ≡ true
unfolding FlatSet.contains
alice_inside = refl

bob_remains : is_nil (FlatSet.erase "alice" lobby1.peer_ids) ≡ false
unfolding FlatSet.erase
bob_remains = refl

relay_lobby_orphaned_example :
    (roster (
        FlatMap.find "l1"
          (remove_peer_from_lobby no_lua "l1" "alice" "7" false relayed).1.game.lobbies)
      ≡ some ("l1", "alice", FlatSet.erase "alice" lobby1.peer_ids))
    × ((q : String)
        → FlatSet.contains q lobby1.peer_ids ≡ true
        → seat (
            FlatMap.find q
              (remove_peer_from_lobby no_lua "l1" "alice" "7" false relayed).1.game.peers)
          ≡ vacate (seat (FlatMap.find q relayed.game.peers)))
relay_lobby_orphaned_example =
    relay_lobby_orphaned no_lua "l1" "alice" "7" false lobby1 relayed members_known relayed_found
      refl alice_inside refl refl refl refl refl bob_remains

-- The small game with batches.
abbrev batched : World
batched = record start { game = record chess { send_rate = 50 } }

abbrev two_texts : List (String × Content)
two_texts = ("bob", plain "one") ∷ ("bob", plain "two") ∷ []

nothing_waits : waiting "bob" batched.net ≡ delivered "bob" start.net.outgoing
unfolding FlatMap.find
nothing_waits = refl

batches_match_example :
    waiting "bob" (send_texts two_texts batched).1.net
    ≡ delivered "bob" (send_texts two_texts start).1.net.outgoing
batches_match_example = batches_match "bob" two_texts start batched refl refl refl nothing_waits

-- {"l": "l1"}
abbrev join_l1 : Option Json
join_l1 = some (Yyjson.Json.obj (Yyjson.field "l" (Yyjson.Json.str "l1") Yyjson.end))

l1_named : (if "" == "" then decode_string_or_default join_l1 "l" "" else "") ≡ "l1"
unfolding decode_string_or_default c_str
l1_named = refl

carol_known : FlatMap.find "carol" start.game.peers ≡ some carol
unfolding FlatMap.find
carol_known = refl

join_not_asked : FlatSet.contains "_can_peer_join" start.game.enabled_callbacks ≡ false
unfolding FlatSet.contains
join_not_asked = refl

end_not_told : FlatSet.contains "_on_peer_joined" start.game.enabled_callbacks ≡ false
unfolding FlatSet.contains
end_not_told = refl

on_join_lobby_lem_example :
    (((on_join_lobby no_lua "7" "carol" join_l1 "" start).0 ≡ true) ↔ (
      (carol.lobby_id ≡ "")
      × (lobby1.password ≡ decode_string_or_default join_l1 "_p" "")
      × ((eqb_ℤ lobby1.max_players (pos 0) ≡ true)
          ⊎ (length lobby1.peer_ids < to_u64 lobby1.max_players))))
    × ((((on_join_lobby no_lua "7" "carol" join_l1 "" start).0 ≡ true)
          × (seat (
                FlatMap.find "carol"
                  (on_join_lobby no_lua "7" "carol" join_l1 "" start).1.game.peers)
              ≡ some ("carol", "l1")))
        ⊎ (((on_join_lobby no_lua "7" "carol" join_l1 "" start).0 ≡ false)
            × ((on_join_lobby no_lua "7" "carol" join_l1 "" start).1.game ≡ start.game)))
on_join_lobby_lem_example =
    on_join_lobby_lem no_lua "7" "carol" "l1" "" join_l1 carol lobby1 start carol_known refl
      l1_named (ne_of_test "l1" "" refl) lobby_found join_not_asked end_not_told

decode_value-ok_example :
    ((e : AnyElement) × (decode_value (some (Yyjson.Json.bool true)) ≡ ok e))
    ↔ (is_plain_json (Yyjson.Json.bool true) ≡ true)
decode_value-ok_example = decode_value-ok (Yyjson.Json.bool true)

dave_unknown : FlatMap.contains "dave" start.game.peers ≡ false
unfolding FlatMap.find
dave_unknown = refl

on_message_stranger_example :
    ((on_message no_lua "dave" secret "" start).1.game ≡ start.game)
    × (message : String) × (id : String) × (on_message no_lua "dave" secret "" start
        ≡ on_error id "dave" message true false start)
on_message_stranger_example = on_message_stranger no_lua "dave" "" secret start dave_unknown

-- {"t": {"mode": null, "turn": true}}
abbrev tag_changes : Option Json
tag_changes = some (
    Yyjson.Json.obj (
      Yyjson.field "t"
        (Yyjson.Json.obj (
          Yyjson.field "mode" Yyjson.Json.null
            (Yyjson.field "turn" (Yyjson.Json.bool true) Yyjson.end)))
        Yyjson.end))

-- One entry erased and one set.
abbrev two_changes : FlatMap.FlatMap AnyElement
two_changes = ("mode", null) ∷ ("turn", bool true) ∷ []

tags_decoded : decode_changes tag_changes "t" ≡ ok two_changes
unfolding decode_changes decode_object decode_fields decode_present c_str FlatMap.insert
tags_decoded = refl

two_changes-IsDistinct : IsDistinct two_changes
unfolding IsDistinct FlatMap.find
two_changes-IsDistinct = (refl, (refl, tt))

no_callbacks : FlatSet.contains "_can_host_set_tags" start.game.enabled_callbacks ≡ false
unfolding FlatSet.contains
no_callbacks = refl

lobby_tags_lem_example :
    (tags : FlatMap.FlatMap AnyElement) × (FlatMap.find "l1"
        (run_command no_lua Command.lobby_tags "7" "alice" tag_changes "" start).1.game.lobbies
      ≡ some (record lobby1 { tags = tags }))
    × ((j : String)
        → FlatMap.find j tags ≡ changed (FlatMap.find j two_changes) (FlatMap.find j lobby1.tags))
lobby_tags_lem_example =
    lobby_tags_lem no_lua "alice" "7" "" tag_changes alice lobby1 two_changes start alice_known
      (ne_of_test "l1" "" refl) lobby_found refl tags_decoded no_callbacks two_changes-IsDistinct

-- {"m": -1}
abbrev minus_one : Option Json
minus_one = some (Yyjson.Json.obj (Yyjson.field "m" (Yyjson.Json.num (negsuc 0)) Yyjson.end))

minus_one_decoded : decode_int_or_default minus_one "m" (pos 0) ≡ negsuc 0
unfolding decode_int_or_default
minus_one_decoded = refl

negative_bound_accepted_example :
    FlatMap.find "l1"
      (run_command no_lua Command.lobby_max_players "7" "bob" minus_one "" start).1.game.lobbies
    ≡ some (record lobby1 { max_players = negsuc 0 })
negative_bound_accepted_example =
    negative_bound_accepted no_lua "bob" "7" "" minus_one bob lobby1 start refl bob_known
      (ne_of_test "l1" "" refl) lobby_found 0 "l1" minus_one_decoded (omega arith) (omega arith)

-- A game that sends every 16 ms, late by 60 steps, with a text for Alice.
abbrev late : World
late = record start {
  game = record start.game { send_rate = 16; last_send_time = 32 };
  net = record start.net { peers_send_data = ("alice", plain "hi" ∷ []) ∷ [] };
}

late-IsDistinct : IsDistinct late.net.peers_send_data
unfolding IsDistinct FlatMap.find
late-IsDistinct = (refl, tt)

batches_go_out_example :
    ((times 60 handle_send late).game.last_send_time
      ≡ align late.game.send_rate late.now late.game.last_send_time)
    × ((times 60 handle_send late).net.peers_send_data ≡ [])
    × (delivered "alice" (times 60 handle_send late).net.outgoing
        ≡ delivered "alice" late.net.outgoing ++ waiting "alice" late.net)
batches_go_out_example =
    batches_go_out 60 2 "alice" late (omega arith) refl (omega arith) (omega arith) late-IsDistinct
