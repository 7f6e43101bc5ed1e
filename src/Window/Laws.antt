-- ===== src/Window/Laws.antt =====
-- What one operation on a window does.
use xcryptossh.Prelude.{
  ℕ, ℕ_discrete, ◌⊎◌, inl, inr, ◌+◌, ◌^◌, ◌<◌, ◌≤◌, ◌≡◌, ◌≢◌, Option, none, some, false, ◌==◌, ltb,
  if◌then◌else◌, arith, not, ◌&&◌, Bool-cases, refl,
}
use xcryptossh.Errors.{Error}
use xcryptossh.Signals.{Signal}
use xcryptossh.Window.{
  Window, add, Attempt, returned, waiting, check_window, reserve_enter, reserve_wake, should_return,
  unless_bye,
}

-- For an adjustment and a window that fit a uint32: the adjustment is refused exactly if the
-- window would pass 2^32 - 1, and is added in full otherwise. A refused one changes nothing, and
-- the result fits a uint32.
pub add_lem :
    (n : ℕ) (w : Window)
    → n < 2 ^ 32
    → w.win < 2 ^ 32
    → ((add n w).0 ≡ ltb (w.win + n) (2 ^ 32))
      × ((add n w).1.win ≡ (if ltb (w.win + n) (2 ^ 32) then w.win + n else w.win))
      × ((add n w).1.win < 2 ^ 32)
      × ((add n w).1.closed ≡ w.closed)
      × ((add n w).1.write_waiters ≡ w.write_waiters)
unfolding add
add_lem n w h k = (ground arith, ground arith, ground arith, ground arith, ground arith)

-- No error means that something was granted, if it was asked for.
abbrev pub NotNothing : ℕ → ℕ → Option Error → Type 0
NotNothing n num (some e) = Unit
NotNothing n num none = (n ≡ 0) ⊎ (num ≢ 0)

-- What a call that returns was granted: no more than it asked for, taken off the window, and not
-- nothing without an error, if it asked for something.
abbrev pub Granted : ℕ → Window → Attempt × Window → Type 0
Granted n w (returned num e, w') =
    (num ≤ n) × (w'.win + num ≡ w.win) × NotNothing n num e × (w'.closed ≡ w.closed)
Granted n w (waiting n', w') =
    (n' ≡ n) × (w.win ≡ 0) × (w'.win ≡ 0) × (w.closed ≡ false) × (w'.closed ≡ false)

free_NotNothing :
    (n : ℕ) (w : Window)
    → ((w.win == 0) && not w.closed) ≡ false
    → NotNothing n (if ltb w.win n then w.win else n) (if w.closed then some Error.eof else none)
free_NotNothing n w free = elim (Bool-cases w.closed) [
  | inl c ↦ rw c tt
  | inr o ↦ rw o (elim (ℕ_discrete n 0) [ yes z ↦ inl z | no p ↦ inr (ground arith) ])
]

check_window-Granted : (n : ℕ) (w : Window) → Granted n w (check_window n w)
unfolding check_window
check_window-Granted n w = elim (Bool-cases ((w.win == 0) && not w.closed)) [
  | inl blocked ↦ rw blocked (ground arith, ground arith, ground arith, ground arith, ground arith)
  | inr free ↦ rw free (ground arith, ground arith, free_NotNothing n w free, refl)
]

unless_bye-Granted :
    (r : Option Error) (n : ℕ) (w : Window) (next : Attempt × Window)
    → Granted n w next
    → Granted n w (unless_bye r w next)
unless_bye-Granted none n w next h = h
unless_bye-Granted (some e) n w next h = (ground arith, ground arith, tt, refl)

-- A call of reserve, up to its first wait. Where it returns, what it was granted is no more than it
-- asked for, is taken off the window, and is not nothing without an error if something was asked
-- for. It waits only on a window that is empty and open.
pub reserve_enter-Granted :
    (signal : Signal) (n : ℕ) (w : Window) → Granted n w (reserve_enter signal n w)
unfolding reserve_enter
reserve_enter-Granted signal n w =
    unless_bye-Granted (should_return signal) n w _
      (check_window-Granted n (record w { write_waiters = w.write_waiters + 1 }))

-- The same for a call that Wait lets go on.
pub reserve_wake-Granted :
    (signal : Signal) (n : ℕ) (w : Window) → Granted n w (reserve_wake signal n w)
unfolding reserve_wake
reserve_wake-Granted signal n w =
    unless_bye-Granted (should_return signal) n w _ (check_window-Granted n w)
