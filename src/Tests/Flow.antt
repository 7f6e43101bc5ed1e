-- ===== src/Tests/Flow.antt =====
-- Windows of common.go, buffers of buffer.go and channel lists of mux.go, in short histories.
use xcryptossh.Prelude.{ℕ, ◌-◌, ◌^◌, ◌≡◌, refl, List, [], ◌∷◌, ◌++◌, some, none, true, false, arith}
use xcryptossh.Signals.{received, stop_requested}
use xcryptossh.Window.{Window, adjust, wake, reserve}
use xcryptossh.Window.Pool
use xcryptossh.Window.Pool.{Pool, IsBalanced, run-IsBalanced}
use xcryptossh.Window.Schedule.{Answers, reserve-Answers}
use xcryptossh.Buffer.{Buffer, contents}
use xcryptossh.Buffer.Fifo.{run, written, put, end, get, run_fifo}
use xcryptossh.ChanList.{ChanList}
use xcryptossh.ChanList.Laws.{IsSmall}

abbrev nearly_full : Window
nearly_full = record { win = 2 ^ 32 - 3; write_waiters = 0; closed = false }

abbrev empty_window : Window
empty_window = record { win = 0; write_waiters = 0; closed = false }

reserve-Answers_example :
    Answers 9
      (reserve
        (received [])
        9
        (wake (received []) ∷ adjust 4 ∷ wake (received []) ∷ [])
        empty_window).0
reserve-Answers_example =
    reserve-Answers (received []) 9 (wake (received []) ∷ adjust 4 ∷ wake (received []) ∷ [])
      empty_window

abbrev idle_pool : Pool
idle_pool = record { window = empty_window; waiters = []; added = 0; granted = 0 }

abbrev two_writers : List Pool.Call
two_writers =
    Pool.enter (received []) 9
    ∷ Pool.enter (received []) 5
    ∷ Pool.adjust 7
    ∷ Pool.wake (received []) 1
    ∷ Pool.wake (received []) 0
    ∷ Pool.shut
    ∷ []

run-IsBalanced_example : IsBalanced 0 (Pool.run two_writers idle_pool)
run-IsBalanced_example =
    run-IsBalanced 0 two_writers idle_pool (tt, (tt, (omega arith, (tt, (tt, (tt, tt))))))
      (record { conserved = refl; fits = omega arith })

abbrev two_parts : Buffer
two_parts = record { head = 1 ∷ []; behind = (2 ∷ 3 ∷ []) ∷ []; closed = false }

abbrev no_parts : Buffer
no_parts = record { head = []; behind = [] ∷ []; closed = true }

run_fifo_example :
    (run (put (4 ∷ 5 ∷ []) ∷ get (received []) 2 ∷ end ∷ get stop_requested 9 ∷ []) two_parts).0
      ++ contents
          (run
            (put (4 ∷ 5 ∷ []) ∷ get (received []) 2 ∷ end ∷ get stop_requested 9 ∷ [])
            two_parts).1
    ≡ contents two_parts
      ++ written (put (4 ∷ 5 ∷ []) ∷ get (received []) 2 ∷ end ∷ get stop_requested 9 ∷ [])
run_fifo_example =
    run_fifo (put (4 ∷ 5 ∷ []) ∷ get (received []) 2 ∷ end ∷ get stop_requested 9 ∷ []) two_parts

-- Two channels, with a free slot between them, and ids that start at 10.
abbrev three_slots : ChanList ℕ
three_slots = record { chans = some 5 ∷ none ∷ some 6 ∷ []; offset = 10 }

three_slots-IsSmall : IsSmall three_slots
three_slots-IsSmall = record { slots = omega arith; offset_fits = omega arith }
