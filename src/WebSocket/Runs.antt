-- ===== src/WebSocket/Runs.antt =====
-- Runs of the socket server of src/websocket/websocket_server.cpp: any sequence of its calls.
use mathlib.Core.Path.{fun_ext}
use tiny_lobby_tests.Prelude.{
  ℕ, Bool, true, false, String, Option, none, some, List, [], ◌∷◌, ◌≡◌, ◌≢◌, refl, sym, ap, ◌∙◌,
  arith, ◌==◌, if◌then◌else◌,
}
use tiny_lobby_tests.FlatSet
use tiny_lobby_tests.Game.{text_frame, close_frame}
use tiny_lobby_tests.WebSocket.{WebSocketServer, Env}
use tiny_lobby_tests.WebSocket.Handlers.{is_socket, on_close, reconnection_of}
use tiny_lobby_tests.WebSocket.Links.{IsLinked}
use tiny_lobby_tests.WebSocket.Opening.{holder, IsFresh}
use tiny_lobby_tests.WebSocket.Admission.{admitted}
use tiny_lobby_tests.WebSocket.Sessions.{
  Event, opened, received, closed, told, told_all, cleared, step, Table, Change, taken, dropped,
  left, apply, opening, change, IsOrderly, step-Refines,
}

unfoldable pub run : List Event → WebSocketServer → WebSocketServer
run [] s = s
run (e ∷ es) s = run es (step e s)

-- The same calls on a table. What each changes is read off the server that it meets.
unfoldable pub replay : List Event → WebSocketServer → Table → Table
replay [] s table = table
replay (e ∷ es) s table = replay es (step e s) (apply (change e s) table)

abbrev pub AreOrderly : List Event → WebSocketServer → Type 0
AreOrderly [] s = Unit {0}
AreOrderly (e ∷ es) s = IsOrderly e s × AreOrderly es (step e s)

-- From a server whose entries agree with their sockets, whatever calls follow, where no socket is
-- opened while an entry points to it, each id has the socket that the table of sessions has for it
-- after the changes of the calls, and the entries agree with their sockets again.
pub run_refines :
    (es : List Event) (s : WebSocketServer)
    → IsLinked s.connection_data s.sockets
    → AreOrderly es s
    → (holder (run es s).connection_data ≡ replay es s (holder s.connection_data))
      × IsLinked (run es s).connection_data (run es s).sockets
unfolding run replay
run_refines [] s linked orderly = (refl, linked)
run_refines (e ∷ es) s linked orderly =
    let first = step-Refines e s linked orderly.0 in
    let rest = run_refines es (step e s) first.1 orderly.1 in
    (rest.0 ∙ ap (replay es (step e s)) (fun_ext first.0), rest.1)

-- The calls do not open the socket.
abbrev pub IsOther : ℕ → Event → Type 0
IsOther ws (opened env v) = v ≢ ws
IsOther ws _ = Unit {0}

abbrev pub AreOther : ℕ → List Event → Type 0
AreOther ws [] = Unit {0}
AreOther ws (e ∷ es) = IsOther ws e × AreOther ws es

taken_other :
    (b : Bool) (v ws : ℕ) (o : Option ℕ)
    → v ≢ ws
    → o ≢ some ws
    → (if b then some v else o) ≢ some ws
taken_other true v ws o other fresh e = other (cc)
taken_other false v ws o other fresh e = fresh e

still_other : (b : Bool) (ws : ℕ) (o : Option ℕ) → o ≢ some ws → (if b then none else o) ≢ some ws
still_other true ws o fresh e = cc
still_other false ws o fresh e = fresh e

left_free : (o : Option ℕ) (ws : ℕ) → (if is_socket o ws then none else o) ≢ some ws
left_free none ws e = cc
left_free (some v) ws e = ground arith

abbrev IsTakenBy : ℕ → Change → Type 0
IsTakenBy ws (taken id v) = v ≡ ws
IsTakenBy ws _ = ⊥

apply-IsFresh :
    (c : Change) (ws : ℕ) (table : Table)
    → ¬ (IsTakenBy ws c)
    → ((j : String) → table j ≢ some ws)
    → (j : String) → apply c table j ≢ some ws
apply-IsFresh (taken id v) ws table other fresh j =
    taken_other (id == j) v ws (table j) other (fresh j)
apply-IsFresh (dropped ids) ws table other fresh j =
    still_other (FlatSet.contains j ids) ws (table j) (fresh j)
apply-IsFresh (left v) ws table other fresh j =
    still_other (is_socket (table j) v) ws (table j) (fresh j)

opening_other :
    (accepts : Bool) (ws v : ℕ) (o : Option String)
    → v ≢ ws
    → ¬ (IsTakenBy ws (opening accepts v o))
opening_other accepts ws v none other h = h
opening_other true ws v (some id) other h = other h
opening_other false ws v (some id) other h = h

change_other :
    (e : Event) (s : WebSocketServer) (ws : ℕ) → IsOther ws e → ¬ (IsTakenBy ws (change e s))
change_other (opened env v) s ws other h =
    opening_other env.accepts ws v
      (admitted env (s.sockets v) (reconnection_of (s.sockets v) s) s.connection_data) other h
change_other (received env v message) s ws other h = h
change_other (closed env v message) s ws other h = h
change_other (told env id message text_frame) s ws other h = h
change_other (told env id message close_frame) s ws other h = h
change_other (told_all env message text_frame) s ws other h = h
change_other (told_all env message close_frame) s ws other h = h
change_other (cleared env ids) s ws other h = h

pub run-IsFresh :
    (es : List Event) (s : WebSocketServer) (ws : ℕ)
    → IsLinked s.connection_data s.sockets
    → AreOrderly es s
    → AreOther ws es
    → IsFresh s.connection_data ws
    → IsFresh (run es s).connection_data ws
unfolding run
run-IsFresh [] s ws linked orderly other fresh = fresh
run-IsFresh (e ∷ es) s ws linked orderly other fresh =
    let first = step-Refines e s linked orderly.0 in
    run-IsFresh es (step e s) ws first.1 orderly.1 other.1 λ j held.
      apply-IsFresh (change e s) ws (holder s.connection_data) (change_other e s ws other.0) fresh j
        (sym (first.0 j) ∙ held)

-- After the close of a socket the server keeps no pointer to it: whatever calls follow, where no
-- socket is opened while an entry points to it and that one is not opened again, no id has it.
pub closed_socket_forgotten :
    (env : Env) (ws : ℕ) (message : String) (es : List Event) (s : WebSocketServer)
    → IsLinked s.connection_data s.sockets
    → AreOrderly es (on_close env ws message s)
    → AreOther ws es
    → (id : String) → holder (run es (on_close env ws message s)).connection_data id ≢ some ws
unfolding step
closed_socket_forgotten env ws message es s linked orderly other =
    let first = step-Refines (closed env ws message) s linked tt in
    run-IsFresh es (on_close env ws message s) ws first.1 orderly other
      λ j held. left_free (holder s.connection_data j) ws (sym (first.0 j) ∙ held)
