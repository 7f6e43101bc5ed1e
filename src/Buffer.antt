-- ===== src/Buffer.antt =====
-- The buffer of buffer.go: newBuffer, write, eof and Read. The linked list from `head` to `tail` is
-- its first element's bytes and the list of the elements behind; `head == tail` is an empty list.
pub mod Fifo
pub mod Loop
use mathlib.Core.List.{flatten}
use xcryptossh.Prelude.{
  ℕ, zero, suc, ◌+◌, ◌-◌, ◌*◌, List, [], ◌∷◌, ◌++◌, Option, none, some, Bytes, Bool, true, false,
  ◌==◌, ltb, if◌then◌else◌, length, take, drop, min,
}
use xcryptossh.Errors.{Error}
use xcryptossh.Signals.{Signal, received, stop_requested}

pub record Buffer : Type 0 where
  pub head : Bytes
  pub behind : List Bytes
  pub closed : Bool

abbrev pub new_buffer : Buffer
new_buffer = record { head = []; behind = []; closed = false }

unfoldable pub write : Bytes → Buffer → Buffer
write buf b = record b { behind = b.behind ++ (buf ∷ []) }

unfoldable pub eof : Buffer → Buffer
eof b = record b { closed = true }

-- What a call of Read comes to: bytes and an error, or a wait on the condition variable.
-- `out_of_fuel` is no result of the code: the rounds of the loop are used up.
pub data Outcome : Type 0 where
  read : Bytes → Option Error → Outcome
  waits : Outcome
  out_of_fuel : Outcome

-- Nothing to read and not closed: only a timeout ends the call.
abbrev pub on_signal : Signal → Outcome
on_signal stop_requested = waits
on_signal (received []) = waits
on_signal (received (c ∷ cs)) = read [] (some (Error.timed_out (c ∷ cs)))

-- The part of the loop behind its two `continue`s: there is nothing to copy.
unfoldable pub read_empty : Signal → Bytes → Buffer → Outcome
read_empty signal (c ∷ cs) b = read (c ∷ cs) none
read_empty signal [] b = if b.closed then read [] (some Error.eof) else on_signal signal

-- The loop of Read, with room for `room` more bytes and `out` copied so far.
unfoldable pub read_loop : ℕ → Signal → ℕ → Bytes → Buffer → Outcome × Buffer
unfolding read_empty
read_loop zero signal room out b = (out_of_fuel, b)
read_loop (suc fuel) signal room out b =
    let r : ℕ = min room (length b.head) in
    let copied : Outcome × Buffer =
      read_loop fuel signal (room - r) (out ++ take r b.head) (record b { head = drop r b.head }) in
    if room == 0
    then (read out none, b)
    else if ltb 0 (length b.head)
    then copied
    else elim b.behind [
      | [] ↦ (read_empty signal out b, b)
      | e ∷ es ↦ read_loop fuel signal room out (record b { head = e; behind = es })
    ]

-- The rounds that the loop takes at most.
abbrev pub rounds : Buffer → ℕ
rounds b = 2 * length b.behind + 2

-- A call of Read from its start, or from where Wait returned, with nothing copied.
unfoldable pub read_bytes : Signal → ℕ → Buffer → Outcome × Buffer
unfolding read_loop
read_bytes signal room b = read_loop (rounds b) signal room [] b

abbrev pub contents : Buffer → Bytes
contents b = b.head ++ flatten b.behind
