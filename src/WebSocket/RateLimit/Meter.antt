-- ===== src/WebSocket/RateLimit/Meter.antt =====
-- What one message does to the counter of its socket: `on_message` of
-- src/websocket/websocket_server.cpp.
use tiny_lobby_tests.Prelude.{
  ℕ, ◌+◌, ◌≤◌, Bool, true, false, String, Option, none, some, List, [], ◌∷◌, ◌++◌, ◌≡◌, refl, ap,
  ◌∙◌, arith, ltb, if◌then◌else◌,
}
use tiny_lobby_tests.Prelude.Int.{ℤ, pos, negsuc, ltb_ℤ}
use tiny_lobby_tests.FlatMap
use tiny_lobby_tests.Game.{close_frame}
use tiny_lobby_tests.WebSocket.{
  PerSocketData, WebSocketReceivedMessage, WebSocketEvent, message_event, WebSocketServer, Env,
  set_data, ended,
}
use tiny_lobby_tests.WebSocket.Handlers.{
  on_message, count_message, send, send_to, end_socket, on_close, hand, put, received, socket_of,
}
use tiny_lobby_tests.WebSocket.Closing.{send-sockets}

abbrev pub is_message : WebSocketEvent → ℕ
is_message message_event = 1
is_message _ = 0

-- How many messages of players the game thread has been given.
abbrev pub arrivals : List WebSocketReceivedMessage → ℕ
arrivals [] = 0
arrivals (m ∷ ms) = is_message m.event + arrivals ms

arrivals-append :
    (ms : List WebSocketReceivedMessage) (m : WebSocketReceivedMessage)
    → arrivals (ms ++ m ∷ []) ≡ arrivals ms + is_message m.event
arrivals-append [] m = omega arith
arrivals-append (n ∷ ms) m = omega (arith, arrivals-append ms m)

-- The bound as a number: a negative one lets nothing through.
abbrev pub allowance : ℤ → ℕ
allowance (pos n) = n
allowance (negsuc n) = 0

-- Sending changes neither the number of messages nor the bound.
abbrev pub Quiet : WebSocketServer → WebSocketServer → Type 0
Quiet s t =
    (arrivals t.receive_queue ≡ arrivals s.receive_queue)
    × (t.max_messages_per_second ≡ s.max_messages_per_second)

put-Quiet :
    (env : Env) (m : WebSocketReceivedMessage) (s : WebSocketServer)
    → is_message m.event ≡ 0
    → Quiet s (put env m s)
put-Quiet env m s e =
    elim env.accepts
      as (λ b. Quiet s (if b then record s { receive_queue = s.receive_queue ++ m ∷ [] } else s)) [
        | true ↦ (omega (arith, arrivals-append s.receive_queue m), refl)
        | false ↦ (refl, refl)
      ]

on_close-Quiet :
    (env : Env) (ws : ℕ) (message : String) (s : WebSocketServer)
    → Quiet s (on_close env ws message s)
unfolding on_close
on_close-Quiet env ws message s = put-Quiet env _ _ refl

end_socket-Quiet :
    (env : Env) (ws code : ℕ) (message : String) (s : WebSocketServer)
    → Quiet s (end_socket env ws code message s)
unfolding end_socket
end_socket-Quiet env ws code message s =
    elim env.closes_at_once
      as (λ b. Quiet s (
        if b
        then on_close env ws message (hand (ended ws code message) s)
        else hand (ended ws code message) s)) [
          | true ↦ on_close-Quiet env ws message (hand (ended ws code message) s)
          | false ↦ (refl, refl)
        ]

send_to-Quiet :
    (env : Env) (id message : String) (o : Option ℕ) (s : WebSocketServer)
    → Quiet s (send_to env id message close_frame o s)
unfolding send_to
send_to-Quiet env id message none s = (refl, refl)
send_to-Quiet env id message (some ws) s = end_socket-Quiet env ws 1002 message s

send-Quiet :
    (env : Env) (id message : String) (s : WebSocketServer)
    → Quiet s (send env id message close_frame s)
unfolding send
send-Quiet env id message s =
    send_to-Quiet env id message (socket_of (FlatMap.find id s.connection_data)) s

-- What a message does: its socket's count goes on, and it arrives at most if the count is within
-- the bound.
abbrev pub Meters : ℕ → PerSocketData → WebSocketServer → WebSocketServer → Type 0
Meters ws d s t =
    (t.sockets ws ≡ d)
    × (t.max_messages_per_second ≡ s.max_messages_per_second)
    × (arrivals t.receive_queue
        ≤ arrivals s.receive_queue
          + (if ltb (allowance s.max_messages_per_second) d.message_count then 0 else 1))

set_data_own :
    (ws : ℕ) (f : PerSocketData → PerSocketData) (sockets : ℕ → PerSocketData)
    → set_data ws f sockets ws ≡ f (sockets ws)
set_data_own ws f sockets = ground arith

within : (z : ℤ) (n : ℕ) → ltb_ℤ z (pos n) ≡ false → ltb (allowance z) n ≡ false
within (pos m) n e = ground arith
within (negsuc m) n e = ground arith

pub true_not_false : {b : Bool} → b ≡ true → b ≡ false → ⊥
true_not_false p q = cc

on_test :
    (R : WebSocketServer → Type 0) (b : Bool) (x y : WebSocketServer)
    → (b ≡ true → R x)
    → (b ≡ false → R y)
    → R (if b then x else y)
on_test R true x y p q = p refl
on_test R false x y p q = q refl

module _ (env : Env) (ws : ℕ) (s : WebSocketServer) where
  abbrev pub counter : PerSocketData
  counter = count_message env.now (s.sockets ws)

  abbrev counted : WebSocketServer
  counted = record s { sockets = set_data ws (count_message env.now) s.sockets }

  refused-Meters :
      (message : String) → Meters ws counter s (send env counter.id message close_frame counted)
  refused-Meters message = (
    ap (λ (f : ℕ → PerSocketData). f ws) (send-sockets env counter.id message close_frame counted)
        ∙ set_data_own ws (count_message env.now) s.sockets,
    (send-Quiet env counter.id message counted).1,
    omega (arith, (send-Quiet env counter.id message counted).0),
  )

  passed-Meters :
      (m : WebSocketReceivedMessage)
      → is_message m.event ≡ 1
      → ltb_ℤ s.max_messages_per_second (pos counter.message_count) ≡ false
      → Meters ws counter s (record counted { receive_queue = counted.receive_queue ++ m ∷ [] })
  passed-Meters m e below = (
    set_data_own ws (count_message env.now) s.sockets,
    refl,
    rw (within s.max_messages_per_second counter.message_count below)
        (omega (arith, arrivals-append s.receive_queue m)),
  )

  pub on_message-Meters : (message : String) → Meters ws counter s (on_message env ws message s)
  unfolding on_message
  on_message-Meters message =
      on_test (Meters ws counter s) (ltb_ℤ s.max_messages_per_second (pos counter.message_count)) _
        _ (λ above. refused-Meters "ERROR_SERVER_RATE_LIMIT")
        (λ below.
          on_test (Meters ws counter s) env.accepts _ _
            (λ accepts.
              on_test (Meters ws counter s) env.accepts _ _
                (λ again. passed-Meters (received counter message) refl below)
                (λ full. absurd (true_not_false accepts full)))
            (λ full. refused-Meters "ERROR_SERVER_QUEUE_FULL"))
