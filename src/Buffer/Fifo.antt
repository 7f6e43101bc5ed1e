-- ===== src/Buffer/Fifo.antt =====
-- A buffer is a queue of bytes: Read returns the oldest ones, in order, each once.
use mathlib.Core.List.{flatten}
use xcryptossh.Prelude.{
  ℕ, zero, suc, ◌<◌, ◌≡◌, ◌≢◌, ◌⊎◌, inl, inr, refl, List, [], ◌∷◌, ◌++◌, none, some, Bytes, Bool,
  true, false, ◌==◌, if◌then◌else◌, length, take, drop, arith, append-nil, append_assoc, dec_lt,
  take-append-drop, ap, ◌∙◌, sym,
}
use xcryptossh.Errors.{Error}
use xcryptossh.Signals.{Signal}
use xcryptossh.Buffer.{
  Buffer, write, eof, Outcome, read, waits, out_of_fuel, read_loop, rounds, read_bytes, contents,
  on_signal,
}
use xcryptossh.Buffer.Loop.{HasBytes, buffer_of, read_loop_lem}

flatten-snoc : (es : List Bytes) (e : Bytes) → flatten (es ++ (e ∷ [])) ≡ flatten es ++ e
unfolding flatten
flatten-snoc [] e = append-nil e
flatten-snoc (x ∷ xs) e = ap (λ l. x ++ l) (flatten-snoc xs e) ∙ sym (append_assoc x (flatten xs) e)

-- Written bytes go to the end.
pub contents-write : (buf : Bytes) (b : Buffer) → contents (write buf b) ≡ contents b ++ buf
unfolding write
contents-write buf b =
    ap (λ l. b.head ++ l) (flatten-snoc b.behind buf)
    ∙ sym (append_assoc b.head (flatten b.behind) buf)

-- Where there is something to read, or no room, Read returns the oldest bytes that there is room
-- for, with no error, and leaves the others in order; it never runs out of rounds.
pub read_bytes_lem :
    (signal : Signal) (room : ℕ) (b : Buffer)
    → (room ≡ 0) ⊎ (contents b ≢ [])
    → ((read_bytes signal room b).0 ≡ read (take room (contents b)) none)
      × (contents (read_bytes signal room b).1 ≡ drop room (contents b))
      × ((read_bytes signal room b).1.closed ≡ b.closed)
unfolding read_bytes
read_bytes_lem signal room b k =
    read_loop_lem (rounds b) signal room [] b.head b.behind b.closed (ground arith) (has k)
  where
    has : (room ≡ 0) ⊎ (contents b ≢ []) → HasBytes room [] b
    has (inl z) = unfold HasBytes in inl z
    has (inr n) = unfold HasBytes in inr (inr n)

-- What a call comes to that finds nothing.
abbrev pub found_nothing : Signal → Bool → Outcome
found_nothing signal closed = if closed then read [] (some Error.eof) else on_signal signal

append-eq-nil : (xs ys : Bytes) → xs ++ ys ≡ [] → (xs ≡ []) × (ys ≡ [])
append-eq-nil [] ys e = (refl, e)
append-eq-nil (x ∷ xs) ys e = cc

read_loop_empty :
    (fuel : ℕ) (signal : Signal) (room : ℕ) (es : List Bytes) (c : Bool)
    → (room == 0) ≡ false
    → length es < fuel
    → flatten es ≡ []
    → ((read_loop fuel signal room [] (buffer_of [] es c)).0 ≡ found_nothing signal c)
      × (contents (read_loop fuel signal room [] (buffer_of [] es c)).1 ≡ [])
      × ((read_loop fuel signal room [] (buffer_of [] es c)).1.closed ≡ c)
unfolding read_loop flatten
read_loop_empty zero signal room es c more enough e = elim enough [ ]
read_loop_empty (suc fuel) signal room [] c more enough e = rw more (refl, refl, refl)
read_loop_empty (suc fuel) signal room (x ∷ es) c more enough e =
    let (p, q) = append-eq-nil x (flatten es) e in
    rw (more, p) (read_loop_empty fuel signal room es c more (omega arith) q)

-- Where there is nothing to read and room for it, Read returns io.EOF if the buffer was closed,
-- otherwise the timeout if the timer reports one, and waits if not. The buffer stays empty, and
-- open or closed as it was.
pub read_bytes_empty :
    (signal : Signal) (room : ℕ) (b : Buffer)
    → 0 < room
    → contents b ≡ []
    → ((read_bytes signal room b).0 ≡ found_nothing signal b.closed)
      × (contents (read_bytes signal room b).1 ≡ [])
      × ((read_bytes signal room b).1.closed ≡ b.closed)
unfolding read_bytes
read_bytes_empty signal room b pos e =
    let (p, q) = append-eq-nil b.head (flatten b.behind) e in
    rw p (read_loop_empty (rounds b) signal room b.behind b.closed (ground arith) (omega arith) q)

-- A history of a buffer: what producers and consumers do, in order.
pub data Op : Type 0 where
  put : Bytes → Op
  end : Op
  get : Signal → ℕ → Op

abbrev pub bytes_of : Outcome → Bytes
bytes_of (read bs e) = bs
bytes_of waits = []
bytes_of out_of_fuel = []

-- The bytes that the reads of a history return, one after the other, and the buffer left over.
unfoldable pub run : List Op → Buffer → Bytes × Buffer
run [] b = ([], b)
run (put bs ∷ ops) b = run ops (write bs b)
run (end ∷ ops) b = run ops (eof b)
run (get signal room ∷ ops) b =
    let (o, b') = read_bytes signal room b in let (bs, b'') = run ops b' in (bytes_of o ++ bs, b'')

unfoldable pub written : List Op → Bytes
written [] = []
written (put bs ∷ ops) = bs ++ written ops
written (end ∷ ops) = written ops
written (get signal room ∷ ops) = written ops

bytes_of-found_nothing : (signal : Signal) (c : Bool) → bytes_of (found_nothing signal c) ≡ []
bytes_of-found_nothing signal true = refl
bytes_of-found_nothing Signal.stop_requested false = refl
bytes_of-found_nothing (Signal.received []) false = refl
bytes_of-found_nothing (Signal.received (x ∷ xs)) false = refl

nil_or_not : (xs : Bytes) → (xs ≡ []) ⊎ (xs ≢ [])
nil_or_not [] = inl refl
nil_or_not (x ∷ xs) = inr (λ e. cc)

contents-eof : (b : Buffer) → contents (eof b) ≡ contents b
unfolding eof
contents-eof b = refl

-- A read takes its bytes off the front.
pub read_bytes_front :
    (signal : Signal) (room : ℕ) (b : Buffer)
    → bytes_of (read_bytes signal room b).0 ++ contents (read_bytes signal room b).1 ≡ contents b
read_bytes_front signal room b = elim (nil_or_not (contents b)) [
  | inr n ↦
      let l = read_bytes_lem signal room b (inr n) in
      rw (l.0, l.1) (take-append-drop room (contents b))
  | inl e ↦ elim (dec_lt 0 room) [
    | yes pos ↦
        let l = read_bytes_empty signal room b pos e in
        rw (l.0, l.1, e, bytes_of-found_nothing signal b.closed)
    | no z ↦
        let l = read_bytes_lem signal room b (inl (omega arith)) in
        rw (l.0, l.1) (take-append-drop room (contents b))
  ]
]

-- Bytes come out in the order in which they went in, none is lost and none comes twice, however
-- reads and writes alternate and however large they are.
pub run_fifo :
    (ops : List Op) (b : Buffer)
    → (run ops b).0 ++ contents (run ops b).1 ≡ contents b ++ written ops
unfolding run written
run_fifo [] b = sym (append-nil (contents b))
run_fifo (put bs ∷ ops) b =
    run_fifo ops (write bs b)
    ∙ ap (λ l. l ++ written ops) (contents-write bs b)
    ∙ append_assoc (contents b) bs (written ops)
run_fifo (end ∷ ops) b = run_fifo ops (eof b) ∙ ap (λ l. l ++ written ops) (contents-eof b)
run_fifo (get signal room ∷ ops) b =
    let (o, b') = read_bytes signal room b in
    append_assoc (bytes_of o) (run ops b').0 (contents (run ops b').1)
    ∙ ap (λ l. bytes_of o ++ l) (run_fifo ops b')
    ∙ sym (append_assoc (bytes_of o) (contents b') (written ops))
    ∙ ap (λ l. l ++ written ops) (read_bytes_front signal room b)
