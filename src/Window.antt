-- ===== src/Window.antt =====
-- The flow-control window of common.go: add, close, reserveShouldReturn and reserve.
-- A call of reserve that has to wait is a state of its own: `waiting n` until the condition
-- variable wakes it. What other goroutines do meanwhile are events of a schedule.
pub mod Laws
pub mod Pool
pub mod Schedule
use xcryptossh.Prelude.{
  ℕ, ◌+◌, ◌-◌, ◌%◌, ◌^◌, ◌<◌, List, [], ◌∷◌, Option, none, some, Bytes, Bool, true, false, ◌==◌,
  not, ◌&&◌, if◌then◌else◌, ltb,
}
use xcryptossh.Errors.{Error}
use xcryptossh.Signals.{Signal, received, stop_requested}

pub record Window : Type 0 where
  pub win : ℕ
  pub write_waiters : ℕ
  pub closed : Bool

unfoldable pub add : ℕ → Window → Bool × Window
add n w =
    if n == 0
    then (true, w)
    else if ltb ((w.win + n) % 2 ^ 32) n
    then (false, w)
    else (true, record w { win = (w.win + n) % 2 ^ 32 })

unfoldable pub close : Window → Window
close w = record w { closed = true }

unfoldable pub should_return : Signal → Option Error
should_return stop_requested = some Error.eof
should_return (received []) = none
should_return (received (c ∷ cs)) = some (Error.timed_out (c ∷ cs))

-- Where a call of reserve stands.
pub data Attempt : Type 0 where
  returned : (num : ℕ) → Option Error → Attempt
  waiting : (win : ℕ) → Attempt

-- The part of reserve behind its loop.
unfoldable pub take_window : ℕ → Window → Attempt × Window
take_window n w =
    let num : ℕ = if ltb w.win n then w.win else n in
    (
      returned num (if w.closed then some Error.eof else none),
      record w { win = w.win - num; write_waiters = w.write_waiters - 1 },
    )

-- The loop's test, `for w.win == 0 && !w.closed`.
unfoldable pub check_window : ℕ → Window → Attempt × Window
unfolding take_window
check_window n w = if (w.win == 0) && not w.closed then (waiting n, w) else take_window n w

-- `if bye, err := w.reserveShouldReturn(); bye { return 0, err }`, in front of the rest.
abbrev pub unless_bye : Option Error → Window → Attempt × Window → Attempt × Window
unless_bye (some e) w next = (returned 0 (some e), w)
unless_bye none w next = next

-- A call of `reserve(n)`, up to its return or its first Wait.
unfoldable pub reserve_enter : Signal → ℕ → Window → Attempt × Window
unfolding check_window should_return
reserve_enter signal n w =
    unless_bye (should_return signal) w
      (check_window n (record w { write_waiters = w.write_waiters + 1 }))

-- From the return of Wait up to the next one.
unfoldable pub reserve_wake : Signal → ℕ → Window → Attempt × Window
unfolding check_window should_return
reserve_wake signal n w = unless_bye (should_return signal) w (check_window n w)

-- What can happen to the window while a writer waits.
pub data Event : Type 0 where
  adjust : ℕ → Event
  shut : Event
  wake : Signal → Event

-- A waiting call over a schedule: what it returns (`none`: it still waits at the end), the events
-- that it has left over, and the window.
unfoldable pub reserve_wait :
    ℕ → List Event → Window → Option (ℕ × Option Error) × List Event × Window
unfolding add close reserve_wake
reserve_wait n [] w = (none, [], w)
reserve_wait n (adjust k ∷ es) w = reserve_wait n es (add k w).1
reserve_wait n (shut ∷ es) w = reserve_wait n es (close w)
reserve_wait n (wake signal ∷ es) w =
    let (a, w') = reserve_wake signal n w in
    elim a [ returned num e ↦ (some (num, e), es, w') | waiting n' ↦ reserve_wait n' es w' ]

unfoldable pub reserve :
    Signal → ℕ → List Event → Window → Option (ℕ × Option Error) × List Event × Window
unfolding reserve_enter reserve_wait
reserve signal n es w =
    let (a, w') = reserve_enter signal n w in
    elim a [ returned num e ↦ (some (num, e), es, w') | waiting n' ↦ reserve_wait n' es w' ]
