-- ===== src/Channel/Receive/Reading.antt =====
-- Reading gives the peer back the window that it takes out of the buffers.
use xcryptossh.Prelude.{
  ℕ, ◌+◌, ◌%◌, ◌^◌, ◌<◌, ◌≡◌, [], ◌∷◌, Bytes, length, arith, length-append, ap, true, false,
  Bool-cases, inl, inr, ◌==◌, ◌∙◌, if_true, if_false,
}
use xcryptossh.Signals.{Signal}
use xcryptossh.Messages.{window_adjust, Message}
use xcryptossh.Buffer.{Buffer, contents, read, waits, out_of_fuel, Outcome, read_bytes}
use xcryptossh.Buffer.Fifo.{bytes_of, read_bytes_front}
use xcryptossh.Channel.{Side, send_message, write_packet}
use xcryptossh.Channel.Receive.{adjust_window, read_adjust, with_buffer, read_extended}
use xcryptossh.Channel.Receive.Laws.{in_use}

-- A write to the connection changes neither the window nor the buffers.
in_use-write_packet : (p : Bytes) (s : Side) → in_use (write_packet p s).1.ch ≡ in_use s.ch
unfolding write_packet
in_use-write_packet p s = ground arith

in_use-send_message : (m : Message) (s : Side) → in_use (send_message m s).1.ch ≡ in_use s.ch
unfolding send_message
in_use-send_message m s = in_use-write_packet _ s

in_use-read_adjust :
    (o : Outcome) (s : Side)
    → in_use s.ch + length (bytes_of o) < 2 ^ 32
    → in_use (read_adjust o s).1.ch ≡ in_use s.ch + length (bytes_of o)
unfolding read_adjust adjust_window
in_use-read_adjust (read [] e) s h = omega arith
in_use-read_adjust waits s h = omega arith
in_use-read_adjust out_of_fuel s h = omega arith
in_use-read_adjust (read (b ∷ bs) e) s h = omega (
  arith,
  in_use-send_message (window_adjust 0 (length (b ∷ bs) % 2 ^ 32)) (record s {
    ch = record s.ch { my_window = (s.ch.my_window + length (b ∷ bs) % 2 ^ 32) % 2 ^ 32 };
  }),
)

front :
    (signal : Signal) (room : ℕ) (b : Buffer)
    → length (bytes_of (read_bytes signal room b).0)
        + length (contents (read_bytes signal room b).1)
      ≡ length (contents b)
front signal room b = omega (
  arith,
  ap length (read_bytes_front signal room b),
  length-append (bytes_of (read_bytes signal room b).0) (contents (read_bytes signal room b).1),
)

stderr_in_use :
    (signal : Signal) (room : ℕ) (s : Side)
    → in_use s.ch < 2 ^ 32
    → let (o, b) = read_bytes signal room s.ch.ext_pending in
      in_use (read_adjust o (with_buffer true b s)).1.ch ≡ in_use s.ch
stderr_in_use signal room s h =
    let (o, b) = read_bytes signal room s.ch.ext_pending in
    let taken : length (bytes_of o) + length (contents b) ≡ length (contents s.ch.ext_pending) =
      front signal room s.ch.ext_pending in
    omega (arith, in_use-read_adjust o (with_buffer true b s) (omega arith))

stdout_in_use :
    (signal : Signal) (room : ℕ) (s : Side)
    → in_use s.ch < 2 ^ 32
    → let (o, b) = read_bytes signal room s.ch.pending in
      in_use (read_adjust o (with_buffer false b s)).1.ch ≡ in_use s.ch
stdout_in_use signal room s h =
    let (o, b) = read_bytes signal room s.ch.pending in
    let taken : length (bytes_of o) + length (contents b) ≡ length (contents s.ch.pending) =
      front signal room s.ch.pending in
    omega (arith, in_use-read_adjust o (with_buffer false b s) (omega arith))

-- ReadExtended gives back exactly what it reads: the window and the bytes that wait add up to the
-- same as before, on both streams, whether or not the adjustment reaches the peer. What they add
-- up to fits a uint32.
pub in_use-read_extended :
    (signal : Signal) (extended room : ℕ) (s : Side)
    → in_use s.ch < 2 ^ 32
    → in_use (read_extended signal extended room s).1.ch ≡ in_use s.ch
unfolding read_extended
in_use-read_extended signal extended room s h = elim (Bool-cases (extended == 1)) [
  | inl e ↦
      ap (λ r. in_use r.1.ch) (if_true {A = Outcome × Side} _ _ e) ∙ stderr_in_use signal room s h
  | inr e ↦
      ap (λ r. in_use r.1.ch) (if_false {A = Outcome × Side} _ _ e)
      ∙ elim (Bool-cases (extended == 0)) [
        | inl z ↦
            ap (λ r. in_use r.1.ch) (if_true {A = Outcome × Side} _ _ z)
            ∙ stdout_in_use signal room s h
        | inr z ↦ ap (λ r. in_use r.1.ch) (if_false {A = Outcome × Side} _ _ z)
      ]
]
