-- ===== src/Channel/Decided.antt =====
-- Writing, reading and the packets that arrive do not take back that a channel was decided on.
use xcryptossh.Prelude.{
  ℕ, ◌+◌, ◌≡◌, refl, List, [], ◌∷◌, Option, none, some, Bytes, true, false, arith, ◌∙◌, drop, take,
  Result, ok, err,
}
use xcryptossh.Errors.{Error}
use xcryptossh.Signals.{Signal}
use xcryptossh.Messages.{Message, channel_close}
use xcryptossh.Messages.Decode.{decode}
use xcryptossh.Buffer.{read, waits, out_of_fuel, Outcome, read_bytes}
use xcryptossh.Channel.{
  Channel, Side, Turn, Written, write_packet, send_message, write_chunk, packet_written, write_loop,
  write_extended, write_data, data_packet, with_win,
}
use xcryptossh.Channel.Receive.{
  Select, adjust_window, read_adjust, read_extended, read_data, handle_message, handle_packet,
  handle_data, accept_data, response_message_received, on_decoded, close, with_buffer,
}

abbrev IsKept : Side → Side → Type 0
IsKept s s' = s'.ch.decided ≡ s.ch.decided

send_message-IsKept : (m : Message) (s : Side) → IsKept s (send_message m s).1
unfolding send_message write_packet
send_message-IsKept m s = ground arith

write_packet-IsKept : (p : Bytes) (s : Side) → IsKept s (write_packet p s).1
unfolding write_packet
write_packet-IsKept p s = ground arith

packet_written-IsKept :
    (next : ℕ → Side → Written × Side) (n size : ℕ) (s : Side) (r : Option Error × Side)
    → ((m : ℕ) (s' : Side) → IsKept s' (next m s').1)
    → IsKept s r.1
    → IsKept s (packet_written next n size r).1
packet_written-IsKept next n size s (some e, s') ih k = k
packet_written-IsKept next n size s (none, s') ih k = ih (n + size) s' ∙ k

write_chunk-IsKept :
    (next : Bytes → ℕ → Side → Written × Side) (code : ℕ) (input : Bytes) (n : ℕ) (s : Side)
    (r : Option (ℕ × Option Error))
    → ((rest : Bytes) (m : ℕ) (s' : Side) → IsKept s' (next rest m s').1)
    → IsKept s (write_chunk next code input n s r).1
write_chunk-IsKept next code input n s none ih = refl
write_chunk-IsKept next code input n s (some (num, some e)) ih = refl
write_chunk-IsKept next code input n s (some (num, none)) ih =
    packet_written-IsKept (next (drop num input)) n _ s _ (ih (drop num input))
      (write_packet-IsKept (data_packet s.ch.remote_id code (take num input)) s)

write_loop-IsKept :
    (ts : List Turn) (code : ℕ) (input : Bytes) (n : ℕ) (s : Side)
    → IsKept s (write_loop ts code input n s).1
unfolding write_loop
write_loop-IsKept ts code [] n s = refl
write_loop-IsKept [] code (b ∷ bs) n s = refl
write_loop-IsKept (t ∷ ts) code (b ∷ bs) n s =
    write_chunk-IsKept (write_loop ts code) code (b ∷ bs) n (with_win s _) _
      (write_loop-IsKept ts code)

pub decided-write_extended :
    (ts : List Turn) (code : ℕ) (input : Bytes) (s : Side)
    → (write_extended ts code input s).1.ch.decided ≡ s.ch.decided
unfolding write_extended
decided-write_extended ts code input s = ground (arith, write_loop-IsKept ts code input 0 s)

pub decided-write_data :
    (ts : List Turn) (input : Bytes) (s : Side)
    → (write_data ts input s).1.ch.decided ≡ s.ch.decided
unfolding write_data
decided-write_data ts input s = ground (arith, decided-write_extended ts 0 input s)

read_adjust-IsKept : (o : Outcome) (s : Side) → IsKept s (read_adjust o s).1
unfolding read_adjust adjust_window
read_adjust-IsKept (read [] e) s = refl
read_adjust-IsKept waits s = refl
read_adjust-IsKept out_of_fuel s = refl
read_adjust-IsKept (read (b ∷ bs) e) s = send_message-IsKept _ _

pub decided-read_extended :
    (signal : Signal) (extended room : ℕ) (s : Side)
    → (read_extended signal extended room s).1.ch.decided ≡ s.ch.decided
unfolding read_extended
decided-read_extended signal extended room s =
    let r0 = read_bytes signal room s.ch.pending in
    let r1 = read_bytes signal room s.ch.ext_pending in
    ground (
      arith,
      read_adjust-IsKept r1.0 (with_buffer true r1.1 s),
      read_adjust-IsKept r0.0 (with_buffer false r0.1 s),
    )

pub decided-read_data :
    (signal : Signal) (room : ℕ) (s : Side) → (read_data signal room s).1.ch.decided ≡ s.ch.decided
unfolding read_data
decided-read_data signal room s = ground (arith, decided-read_extended signal 0 room s)

handle_message_decided :
    (sel : Select) (m : Message) (s : Side)
    → s.ch.decided ≡ true
    → (handle_message sel m s).1.ch.decided ≡ true
unfolding handle_message response_message_received
handle_message_decided sel m s h = ground arith

on_decoded_decided :
    (sel : Select) (r : Result Error Message) (s : Side)
    → s.ch.decided ≡ true
    → (on_decoded sel r s).1.ch.decided ≡ true
on_decoded_decided sel (err e) s h = h
on_decoded_decided sel (ok m) s h = handle_message_decided sel m s h

handle_data_decided : (p : Bytes) (c : Channel) → (handle_data p c).1.decided ≡ c.decided
unfolding handle_data accept_data
handle_data_decided [] c = refl
handle_data_decided (t ∷ rest) c = ground arith

-- handlePacket can only make a channel decided.
pub decided-handle_packet :
    (sel : Select) (p : Bytes) (s : Side)
    → s.ch.decided ≡ true
    → (handle_packet sel p s).1.ch.decided ≡ true
unfolding handle_packet close
decided-handle_packet sel [] s h = h
decided-handle_packet sel (t ∷ rest) s h = ground (
  arith,
  handle_data_decided (t ∷ rest) s.ch,
  send_message-IsKept (channel_close s.ch.remote_id) s,
  on_decoded_decided sel (decode (t ∷ rest)) s h,
)
