-- ===== src/Window/Pool.antt =====
-- Any number of goroutines on one window: calls of add, close and reserve in any order, and
-- wake-ups of the calls that wait.
use xcryptossh.Prelude.{
  ℕ, zero, suc, ◌+◌, ◌^◌, ◌<◌, ◌≡◌, List, [], ◌∷◌, ◌++◌, none, some, if◌then◌else◌, arith,
  get_elem?, All, Option-cases, inl, inr,
}
use xcryptossh.Signals.{Signal}
use xcryptossh.Window.{Window, add, close, Attempt, returned, waiting, reserve_enter, reserve_wake}
use xcryptossh.Window.Laws.{add_lem, Granted, reserve_enter-Granted, reserve_wake-Granted}

-- `waiters` are the requests of the calls in Wait. `added` and `granted` only count.
pub record Pool : Type 0 where
  pub window : Window
  pub waiters : List ℕ
  pub added : ℕ
  pub granted : ℕ

pub data Call : Type 0 where
  adjust : ℕ → Call
  shut : Call
  enter : Signal → ℕ → Call
  wake : Signal → ℕ → Call

abbrev pub erase_idx {ℓ} : {A : Type ℓ} → List A → ℕ → List A
erase_idx [] i = []
erase_idx (x ∷ xs) zero = xs
erase_idx (x ∷ xs) (suc i) = x ∷ erase_idx xs i

-- A call that returns adds to `granted`; one that waits joins the others.
abbrev settle : Pool → List ℕ → Attempt × Window → Pool
settle p ws (returned num e, w) = record p { window = w; waiters = ws; granted = p.granted + num }
settle p ws (waiting n, w) = record p { window = w; waiters = ws ++ (n ∷ []) }

unfoldable pub step : Call → Pool → Pool
step (adjust n) p =
    let (done, w) = add n p.window in
    record p { window = w; added = p.added + (if done then n else 0) }
step shut p = record p { window = close p.window }
step (enter signal n) p = settle p p.waiters (reserve_enter signal n p.window)
step (wake signal i) p = elim (get_elem? p.waiters i) [
  | none ↦ p
  | some n ↦ settle p (erase_idx p.waiters i) (reserve_wake signal n p.window)
]

unfoldable pub run : List Call → Pool → Pool
unfolding step
run [] p = p
run (c ∷ cs) p = run cs (step c p)

abbrev IsU32Call : Call → Type 0
IsU32Call (adjust n) = n < 2 ^ 32
IsU32Call _ = Unit

-- Every byte of window is accounted for, and the window fits a uint32.
pub record IsBalanced (start : ℕ) (p : Pool) : Type 0 where
  pub conserved : p.window.win + p.granted ≡ start + p.added
  pub fits : p.window.win < 2 ^ 32

settle-IsBalanced :
    (start n : ℕ) (p : Pool) (ws : List ℕ) (a : Attempt) (w : Window)
    → Granted n p.window (a, w)
    → IsBalanced start p
    → IsBalanced start (settle p ws (a, w))
settle-IsBalanced start n p ws (returned num e) w g b = omega arith
settle-IsBalanced start n p ws (waiting n') w g b = omega arith

step-IsBalanced :
    (start : ℕ) (c : Call) (p : Pool)
    → IsU32Call c
    → IsBalanced start p
    → IsBalanced start (step c p)
unfolding step
step-IsBalanced start (adjust n) p h b = ground (arith, add_lem n p.window h b.fits)
step-IsBalanced start shut p h b = unfold close in record { conserved = b.conserved; fits = b.fits }
step-IsBalanced start (enter signal n) p h b =
    settle-IsBalanced start n p p.waiters _ _ (reserve_enter-Granted signal n p.window) b
step-IsBalanced start (wake signal i) p h b = elim (Option-cases (get_elem? p.waiters i)) [
  | inl e ↦ rw (e, step) b
  | inr (n, e) ↦
      rw (e, step)
        (settle-IsBalanced start n p (erase_idx p.waiters i) _ _
          (reserve_wake-Granted signal n p.window) b)
]

-- Whatever the goroutines do and in whichever order, with adjustments that fit a uint32: what the
-- calls of reserve were granted and what is left add up to what was there at the start and was
-- added since, and the window still fits a uint32. So no byte is granted twice, and none is lost.
pub run-IsBalanced :
    (start : ℕ) (cs : List Call) (p : Pool)
    → All IsU32Call cs
    → IsBalanced start p
    → IsBalanced start (run cs p)
unfolding run
run-IsBalanced start [] p h b = b
run-IsBalanced start (c ∷ cs) p h b =
    run-IsBalanced start cs (step c p) h.1 (step-IsBalanced start c p h.0 b)
