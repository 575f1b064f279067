-- ===== src/WebSocket/RateLimit.antt =====
-- The rate limit of `on_message` of src/websocket/websocket_server.cpp.
pub mod Meter
use native.Mathlib.Decide.{dec_lt}
use tiny_lobby_tests.Prelude.{
  ℕ, ◌+◌, ◌-◌, ◌*◌, ◌≤◌, ◌<◌, Bool, true, false, String, Option, none, some, List, [], ◌∷◌, ◌++◌,
  ◌≡◌, refl, ap, ◌∙◌, arith, ltb, if◌then◌else◌,
}
use tiny_lobby_tests.Prelude.Int.{ℤ, pos, negsuc, ltb_ℤ}
use tiny_lobby_tests.FlatMap
use tiny_lobby_tests.Game.{close_frame}
use tiny_lobby_tests.WebSocket.{
  PerSocketData, WebSocketReceivedMessage, WebSocketEvent, message_event, WebSocketServer, Env,
  set_data, ended,
}
use tiny_lobby_tests.WebSocket.Handlers.{
  on_message, count_message, send, send_to, end_socket, on_close, hand, put, received, socket_of,
}
use tiny_lobby_tests.WebSocket.Closing.{send-sockets}
use tiny_lobby_tests.WebSocket.RateLimit.Meter.{
  is_message, counter, arrivals, allowance, Quiet, Meters, true_not_false, on_message-Meters,
}

-- The messages of one socket, one after the other. Other calls may stand between them in a run of
-- the server; they leave the socket's counter alone.
unfoldable pub deliver : ℕ → List (Env × String) → WebSocketServer → WebSocketServer
deliver ws [] s = s
deliver ws ((env, message) ∷ calls) s = deliver ws calls (on_message env ws message s)

-- All calls are made at a time from `from` on and before `until`.
abbrev pub AreWithin : ℕ → ℕ → List (Env × String) → Type 0
AreWithin from until [] = Unit {0}
AreWithin from until ((env, message) ∷ calls) =
    (from ≤ env.now) × (env.now < until) × AreWithin from until calls

abbrev passed : WebSocketServer → ℕ
passed s = arrivals s.receive_queue

abbrev bound : WebSocketServer → ℕ
bound s = allowance s.max_messages_per_second

count_inside :
    (now : ℕ) (d : PerSocketData)
    → now < d.last_message_time + 1000
    → ((count_message now d).message_count ≡ d.message_count + 1)
      × ((count_message now d).last_message_time ≡ d.last_message_time)
unfolding count_message
count_inside now d h = (ground arith, ground arith)

count_outside :
    (now : ℕ) (d : PerSocketData)
    → d.last_message_time + 1000 ≤ now
    → ((count_message now d).message_count ≡ 1) × ((count_message now d).last_message_time ≡ now)
unfolding count_message
count_outside now d h = (ground arith, ground arith)

gained :
    (x y r m n : ℕ)
    → x ≤ y + (if ltb m (n + 1) then 0 else 1)
    → r ≤ x + (m - (n + 1))
    → r ≤ y + (m - n)
gained x y r m n p q = ground arith

gained_more :
    (x y r m n : ℕ)
    → x ≤ y + (if ltb m (n + 1) then 0 else 1)
    → r ≤ x + (m - (n + 1)) + m
    → r ≤ y + (m - n) + m
gained_more x y r m n p q = ground arith

restarted :
    (x y r m n : ℕ) → x ≤ y + (if ltb m 1 then 0 else 1) → r ≤ x + (m - 1) → r ≤ y + (m - n) + m
restarted x y r m n p q = ground arith

AreWithin-later :
    (a b c d : ℕ) (calls : List (Env × String))
    → c ≤ a
    → b ≤ d
    → AreWithin a b calls
    → AreWithin c d calls
AreWithin-later a b c d [] p q w = tt
AreWithin-later a b c d ((env, message) ∷ calls) p q w =
    (omega (arith, w.0), omega (arith, w.1), AreWithin-later a b c d calls p q w.2)

recast :
    (x y a b m n : ℕ)
    → x ≤ y + (if ltb a b then 0 else 1)
    → a ≡ m
    → b ≡ n
    → x ≤ y + (if ltb m n then 0 else 1)
recast x y a b m n h p q = ground arith

-- The socket's counter stands at c in the window from l, and the bound is m.
abbrev At : ℕ → ℕ → ℕ → ℕ → WebSocketServer → Type 0
At ws c l m s =
    ((s.sockets ws).message_count ≡ c) × ((s.sockets ws).last_message_time ≡ l) × (bound s ≡ m)

-- After a message it stands at n in the window from k, and the message passed at most if n is
-- within the bound.
abbrev Counts : ℕ → ℕ → ℕ → ℕ → WebSocketServer → WebSocketServer → Type 0
Counts ws n k m s t = At ws n k m t × (passed t ≤ passed s + (if ltb m n then 0 else 1))

on_message-Counts :
    (env : Env) (ws n k m : ℕ) (message : String) (s : WebSocketServer)
    → bound s ≡ m
    → (counter env ws s).message_count ≡ n
    → (counter env ws s).last_message_time ≡ k
    → Counts ws n k m s (on_message env ws message s)
on_message-Counts env ws n k m message s em en ek =
    let meters = on_message-Meters env ws s message in
    (
      (
        ap (λ (d : PerSocketData). d.message_count) meters.0 ∙ en,
        ap (λ (d : PerSocketData). d.last_message_time) meters.0 ∙ ek,
        ap (λ (z : ℤ). allowance z) meters.1 ∙ em,
      ),
      recast (passed (on_message env ws message s)) (passed s) (bound s)
          (counter env ws s).message_count m n meters.2 em en,
    )

inside-Counts :
    (env : Env) (ws c l m : ℕ) (message : String) (s : WebSocketServer)
    → At ws c l m s
    → env.now < l + 1000
    → Counts ws (c + 1) l m s (on_message env ws message s)
inside-Counts env ws c l m message s at h =
    let counts = count_inside env.now (s.sockets ws) (omega (arith, at.1)) in
    on_message-Counts env ws (c + 1) l m message s at.2 (counts.0 ∙ ap (λ (n : ℕ). n + 1) at.0)
      (counts.1 ∙ at.1)

outside-Counts :
    (env : Env) (ws c l m : ℕ) (message : String) (s : WebSocketServer)
    → At ws c l m s
    → l + 1000 ≤ env.now
    → Counts ws 1 env.now m s (on_message env ws message s)
outside-Counts env ws c l m message s at h =
    let counts = count_outside env.now (s.sockets ws) (omega (arith, at.1)) in
    on_message-Counts env ws 1 env.now m message s at.2 counts.0 counts.1

-- Within the window of the last count, what is left of the bound.
window_bound :
    (ws from c l m : ℕ) (calls : List (Env × String)) (s : WebSocketServer)
    → At ws c l m s
    → AreWithin from (l + 1000) calls
    → passed (deliver ws calls s) ≤ passed s + (m - c)
unfolding deliver
window_bound ws from c l m [] s at within = omega arith
window_bound ws from c l m ((env, message) ∷ calls) s at within =
    let next = on_message env ws message s in
    let counts = inside-Counts env ws c l m message s at within.1 in
    gained (passed next) (passed s) (passed (deliver ws calls next)) m c counts.1
      (window_bound ws from (c + 1) l m calls next counts.0 within.2)

second_bound :
    (ws from c l m : ℕ) (calls : List (Env × String)) (s : WebSocketServer)
    → At ws c l m s
    → AreWithin from (from + 1000) calls
    → passed (deliver ws calls s) ≤ passed s + (m - c) + m
unfolding deliver
second_bound ws from c l m [] s at within = omega arith
second_bound ws from c l m ((env, message) ∷ calls) s at within =
    let next : WebSocketServer = on_message env ws message s in
    elim (dec_lt env.now (l + 1000)) [
      | yes h ↦
          let counts = inside-Counts env ws c l m message s at h in
          gained_more (passed next) (passed s) (passed (deliver ws calls next)) m c counts.1
            (second_bound ws from (c + 1) l m calls next counts.0 within.2)
      | no h ↦
          let counts = outside-Counts env ws c l m message s at (omega arith) in
          restarted (passed next) (passed s) (passed (deliver ws calls next)) m c counts.1 (
            window_bound ws from 1 env.now m calls next counts.0 (
              AreWithin-later from (from + 1000) from (env.now + 1000) calls (omega arith)
                (omega (arith, within.0)) within.2))
    ]

-- Of the messages of a socket in any one second, at most twice the bound reach the game thread,
-- whatever stood in the socket's counter before.
pub burst_bound :
    (ws from : ℕ) (calls : List (Env × String)) (s : WebSocketServer)
    → AreWithin from (from + 1000) calls
    → arrivals (deliver ws calls s).receive_queue
      ≤ arrivals s.receive_queue + 2 * allowance s.max_messages_per_second
burst_bound ws from calls s within = omega (
  arith,
  second_bound ws from (s.sockets ws).message_count (s.sockets ws).last_message_time (bound s) calls
      s (refl, refl, refl) within,
)
