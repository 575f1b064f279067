-- ===== src/Game/Clock/Aligned.antt =====
-- The clocks of a game: `handle_send` of src/game/game_thread.cpp keeps up with the time, in whole
-- steps of the rate, and meets the clock that `GameData::open` of src/game/game_data.h sets.
use native.Mathlib.Decide.{dec_lt}
use mathlib.Core.List.{append-nil}
use tiny_lobby_tests.FlatMap.{FlatMap, IsDistinct}
use tiny_lobby_tests.Game.Send.Delivery.{delivered-append, flush-delivered}
use tiny_lobby_tests.Game.Send.Batches.{delivered, waiting}
use tiny_lobby_tests.Prelude.{
  String, ℕ, zero, suc, ◌+◌, ◌*◌, ◌/◌, ◌≤◌, ◌<◌, Bool, true, false, ◌||◌, List, [], ◌++◌, ◌≡◌, refl,
  ap, ◌∙◌, arith, eqb, ltb, if◌then◌else◌,
}
use tiny_lobby_tests.Game.{World, Content}
use tiny_lobby_tests.Game.Monad.{M}
use tiny_lobby_tests.Game.Send.{handle_send, flush, flushed}
use tiny_lobby_tests.Game.Clock.{align}

pub times : ℕ → M (Unit {0}) → World → World
times zero m w = w
times (suc n) m w = times n m (m w).1

-- One step of a clock.
abbrev advance : ℕ → ℕ → ℕ → ℕ
advance rate now last = if eqb rate 0 || ltb now (last + rate) then last else last + rate

div_bounds : (n r : ℕ) → 0 < r → (n / r * r ≤ n) × (n < n / r * r + r)
div_bounds n r h = (grind arith, grind arith)

step_up :
    (k q r now : ℕ) → 0 < r → q * r ≤ now → now < q * r + r → k < q → ltb now (k * r + r) ≡ false
step_up k q r now pos low high below = grind arith

eq_of_le : (k q : ℕ) → k ≤ q → q ≤ k → q ≡ k
eq_of_le k q h g = omega arith

above : (k q r now : ℕ) → q * r ≤ now → k ≡ q → now < q * r + r → ltb now (k * r + r) ≡ true
above k q r now low e high = grind arith

-- What a call leaves of the world: the clock makes a step, and rate and time stay.
abbrev Steps : World → World → Type 0
Steps w v =
    (v.game.last_send_time ≡ advance w.game.send_rate w.now w.game.last_send_time)
    × (v.game.send_rate ≡ w.game.send_rate)
    × (v.now ≡ w.now)

handle_send-Steps : (w : World) → Steps w (handle_send w).1
unfolding handle_send
handle_send-Steps w = (ground arith, ground arith, ground arith)

-- The clock stands at k steps of the rate r, and the time is `now`.
abbrev StandsAt : ℕ → ℕ → ℕ → World → Type 0
StandsAt k r now w = (w.game.last_send_time ≡ k * r) × (w.game.send_rate ≡ r) × (w.now ≡ now)

advance_due : (r now last : ℕ) → 0 < r → ltb now (last + r) ≡ false → advance r now last ≡ last + r
advance_due r now last pos due = ground arith

advance_early : (r now last : ℕ) → ltb now (last + r) ≡ true → advance r now last ≡ last
advance_early r now last early = ground arith

next_step : (k r : ℕ) → k * r + r ≡ suc k * r
next_step k r = grind arith

module _ (q r now : ℕ) (pos : 0 < r) (low : q * r ≤ now) (high : now < q * r + r) where
  StandsAt-due :
      (k : ℕ) (w : World) → k < q → StandsAt k r now w → StandsAt (suc k) r now (handle_send w).1
  StandsAt-due k w below at =
      let steps = handle_send-Steps w in
      (
        steps.0
            ∙ (rw (at.0, at.1, at.2)
                (advance_due r now (k * r) pos (step_up k q r now pos low high below)
                  ∙ next_step k r)),
        steps.1 ∙ at.1,
        steps.2 ∙ at.2,
      )

  StandsAt-early : (w : World) → StandsAt q r now w → StandsAt q r now (handle_send w).1
  StandsAt-early w at =
      let steps = handle_send-Steps w in
      (
        steps.0
            ∙ (rw (at.0, at.1, at.2) (advance_early r now (q * r) (above q q r now low refl high))),
        steps.1 ∙ at.1,
        steps.2 ∙ at.2,
      )

  StandsAt-end :
      (n k : ℕ) (w : World)
      → k ≤ q
      → q ≤ k + n
      → StandsAt k r now w
      → StandsAt q r now (times n handle_send w)
  unfolding times
  StandsAt-end zero k w le ge at = rw (eq_of_le k q le (omega arith)) at
  StandsAt-end (suc n) k w le ge at = elim (dec_lt k q) [
    | yes h ↦
        StandsAt-end n (suc k) (handle_send w).1 (omega arith) (omega arith) (StandsAt-due k w h at)
    | no h ↦
        StandsAt-end n q (handle_send w).1 (omega arith) (omega arith)
          (StandsAt-early w (rw (eq_of_le k q le (omega arith)) at))
  ]

-- What a call does to the batches.
abbrev IsIdle : World → Unit {0} × World → Type 0
IsIdle w (_, v) = (v.net.outgoing ≡ w.net.outgoing) × (v.net.peers_send_data ≡ [])

flushed-IsIdle :
    (idle : Bool) (w : World)
    → w.net.peers_send_data ≡ []
    → IsIdle w (if idle then (tt, w) else (tt, flushed w))
unfolding flush
flushed-IsIdle true w e = (refl, e)
flushed-IsIdle false w e = (
  ap (λ (b : FlatMap (List Content)). w.net.outgoing ++ flush b) e ∙ append-nil w.net.outgoing,
  refl,
)

handle_send-empty :
    (w : World)
    → w.net.peers_send_data ≡ []
    → ((handle_send w).1.net.outgoing ≡ w.net.outgoing)
      × ((handle_send w).1.net.peers_send_data ≡ [])
unfolding handle_send flush
handle_send-empty w e =
    flushed-IsIdle (eqb w.game.send_rate 0 || ltb w.now (w.game.last_send_time + w.game.send_rate))
      w e

times-empty :
    (n : ℕ) (w : World)
    → w.net.peers_send_data ≡ []
    → ((times n handle_send w).net.outgoing ≡ w.net.outgoing)
      × ((times n handle_send w).net.peers_send_data ≡ [])
unfolding times
times-empty zero w e = (refl, e)
times-empty (suc n) w e =
    let first = handle_send-empty w e in
    let rest = times-empty n (handle_send w).1 first.1 in (rest.0 ∙ first.0, rest.1)

handle_send-flush :
    (w : World)
    → (eqb w.game.send_rate 0 || ltb w.now (w.game.last_send_time + w.game.send_rate)) ≡ false
    → ((handle_send w).1.net.outgoing ≡ w.net.outgoing ++ flush w.net.peers_send_data)
      × ((handle_send w).1.net.peers_send_data ≡ [])
unfolding handle_send
handle_send-flush w due = (ground arith, ground arith)

due_now :
    (r now last : ℕ) → 0 < r → ltb now (last + r) ≡ false → (eqb r 0 || ltb now (last + r)) ≡ false
due_now r now last pos late = ground arith

aligned : (r q last : ℕ) → 0 < r → q * r ≡ (if ltb 0 r then q * r else last)
aligned r q last pos = ground arith

-- If a game's sending clock stands at a whole number of steps of its rate and at least one more is
-- over, then by calls at that time, as many as steps are over or more, the clock reaches the time that
-- opening the game now would set, nothing waits any more, and each peer has been delivered, behind
-- what it was delivered before, exactly the texts that waited for it, in their order; where no peer
-- has two batches.
pub batches_go_out :
    (n k : ℕ) (p : String) (w : World)
    → 0 < w.game.send_rate
    → w.game.last_send_time ≡ k * w.game.send_rate
    → k < w.now / w.game.send_rate
    → w.now / w.game.send_rate ≤ k + n
    → IsDistinct w.net.peers_send_data
    → ((times n handle_send w).game.last_send_time
        ≡ align w.game.send_rate w.now w.game.last_send_time)
      × ((times n handle_send w).net.peers_send_data ≡ [])
      × (delivered p (times n handle_send w).net.outgoing
          ≡ delivered p w.net.outgoing ++ waiting p w.net)
unfolding times align
batches_go_out zero k p w pos at below enough distinct = absurd (omega arith)
batches_go_out (suc n) k p w pos at below enough distinct =
    let r = w.game.send_rate in
    let q = w.now / r in
    let bounds = div_bounds w.now r pos in
    let due =
      due_now r w.now w.game.last_send_time pos
        (rw at (step_up k q r w.now pos bounds.0 bounds.1 below)) in
    let first = handle_send-flush w due in
    let rest = times-empty n (handle_send w).1 first.1 in
    (
      (StandsAt-end q r w.now pos bounds.0 bounds.1 (suc n) k w (omega arith) enough
            (at, refl, refl)).0
          ∙ aligned r q w.game.last_send_time pos,
      rest.1,
      ap (delivered p) (rest.0 ∙ first.0)
          ∙ delivered-append p w.net.outgoing (flush w.net.peers_send_data)
          ∙ ap (delivered p w.net.outgoing ++◌) (flush-delivered p w.net.peers_send_data distinct),
    )
