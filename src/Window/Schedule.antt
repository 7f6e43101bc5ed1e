-- ===== src/Window/Schedule.antt =====
-- A call of reserve over a whole schedule.
use xcryptossh.Prelude.{ℕ, ◌≤◌, List, [], ◌∷◌, Option, none, some}
use xcryptossh.Errors.{Error}
use xcryptossh.Signals.{Signal}
use xcryptossh.Window.{
  Window, add, close, Attempt, returned, waiting, Event, adjust, shut, wake, reserve_wait, reserve,
}
use xcryptossh.Window.Laws.{Granted, NotNothing, reserve_enter-Granted, reserve_wake-Granted}

-- An answer to a request for `n`: at most `n`, and not nothing without an error.
abbrev pub Answers : ℕ → Option (ℕ × Option Error) → Type 0
Answers n none = Unit
Answers n (some (num, e)) = (num ≤ n) × NotNothing n num e

abbrev Reply : Type 0
Reply = Option (ℕ × Option Error) × List Event × Window

abbrev resume : Attempt × Window → List Event → Reply
resume (a, w) es = elim a [
  | returned num e ↦ (some (num, e), es, w)
  | waiting n ↦ reserve_wait n es w
]

resume-Answers :
    (n : ℕ) (w : Window) (es : List Event) (a : Attempt) (w' : Window)
    → Granted n w (a, w')
    → ((w'' : Window) → Answers n (reserve_wait n es w'').0)
    → Answers n (resume (a, w') es).0
resume-Answers n w es (returned num e) w' g ih = (g.0, g.2)
resume-Answers n w es (waiting n') w' g ih = rw g.0 (ih w')

reserve_wait-Answers : (n : ℕ) (es : List Event) (w : Window) → Answers n (reserve_wait n es w).0
unfolding reserve_wait
reserve_wait-Answers n [] w = tt
reserve_wait-Answers n (adjust k ∷ es) w = reserve_wait-Answers n es (add k w).1
reserve_wait-Answers n (shut ∷ es) w = reserve_wait-Answers n es (close w)
reserve_wait-Answers n (wake signal ∷ es) w =
    resume-Answers n w es _ _ (reserve_wake-Granted signal n w) (reserve_wait-Answers n es)

-- Whatever happens while a call of reserve waits, what it returns is no more than was asked for,
-- and not 0 without an error where something was asked for.
pub reserve-Answers :
    (signal : Signal) (n : ℕ) (es : List Event) (w : Window) → Answers n (reserve signal n es w).0
unfolding reserve
reserve-Answers signal n es w =
    resume-Answers n w es _ _ (reserve_enter-Granted signal n w) (reserve_wait-Answers n es)
