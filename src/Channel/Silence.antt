-- ===== src/Channel/Silence.antt =====
-- A channel that has sent its close sends nothing more: the calls of channel.go that go through
-- writePacket, the loops and the packets that arrive.
use xcryptossh.Prelude.{
  ℕ, ◌+◌, ◌%◌, ◌^◌, ◌≡◌, refl, List, [], ◌∷◌, Option, none, some, Bytes, true, false, arith, length,
  take, Result, ok, err,
}
use xcryptossh.Errors.{Error}
use xcryptossh.Signals.{Signal}
use xcryptossh.Messages.{Message, window_adjust, channel_close}
use xcryptossh.Messages.Decode.{decode}
use xcryptossh.Buffer.{read, waits, out_of_fuel, Outcome, read_bytes}
use xcryptossh.Channel.{
  Channel, Side, Turn, Written, write_packet, send_message, write_chunk, write_loop, write_extended,
  write_data, data_packet, with_win,
}
use xcryptossh.Channel.Receive.{
  Select, adjust_window, read_adjust, read_extended, read_data, handle_message, handle_packet,
  handle_data, accept_data, response_message_received, on_decoded, close, with_buffer,
}

-- Between two states nothing was sent, and the close stays sent.
abbrev pub IsSilent : Side → Side → Type 0
IsSilent s s' = (s'.conn.sent ≡ s.conn.sent) × (s'.ch.sent_close ≡ true)

-- After a close, writePacket has an error and changes nothing.
write_packet_closed :
    (p : Bytes) (s : Side) → s.ch.sent_close ≡ true → write_packet p s ≡ (some Error.eof, s)
unfolding write_packet
write_packet_closed p s h = ground arith

pub send_message_closed :
    (m : Message) (s : Side) → s.ch.sent_close ≡ true → send_message m s ≡ (some Error.eof, s)
unfolding send_message
send_message_closed m s h = write_packet_closed _ s h

write_chunk-IsSilent :
    (next : Bytes → ℕ → Side → Written × Side) (code : ℕ) (input : Bytes) (n : ℕ) (s : Side)
    (r : Option (ℕ × Option Error))
    → s.ch.sent_close ≡ true
    → IsSilent s (write_chunk next code input n s r).1
write_chunk-IsSilent next code input n s none h = (refl, h)
write_chunk-IsSilent next code input n s (some (num, some e)) h = (refl, h)
write_chunk-IsSilent next code input n s (some (num, none)) h =
    rw (write_packet_closed (data_packet s.ch.remote_id code (take num input)) s h) (refl, h)

write_loop-IsSilent :
    (ts : List Turn) (code : ℕ) (input : Bytes) (n : ℕ) (s : Side)
    → s.ch.sent_close ≡ true
    → IsSilent s (write_loop ts code input n s).1
unfolding write_loop
write_loop-IsSilent ts code [] n s h = (refl, h)
write_loop-IsSilent [] code (b ∷ bs) n s h = (refl, h)
write_loop-IsSilent (t ∷ ts) code (b ∷ bs) n s h =
    write_chunk-IsSilent (write_loop ts code) code (b ∷ bs) n (with_win s _) _ h

pub write_extended-IsSilent :
    (ts : List Turn) (code : ℕ) (input : Bytes) (s : Side)
    → s.ch.sent_close ≡ true
    → IsSilent s (write_extended ts code input s).1
unfolding write_extended
write_extended-IsSilent ts code input s h = ground (arith, write_loop-IsSilent ts code input 0 s h)

pub write_data-IsSilent :
    (ts : List Turn) (input : Bytes) (s : Side)
    → s.ch.sent_close ≡ true
    → IsSilent s (write_data ts input s).1
unfolding write_data
write_data-IsSilent ts input s h = ground (arith, write_extended-IsSilent ts 0 input s h)

adjust_window-IsSilent :
    (n : ℕ) (s : Side) → s.ch.sent_close ≡ true → IsSilent s (adjust_window n s).1
unfolding adjust_window
adjust_window-IsSilent n s h =
    let opened : Side = record s {
      ch = record s.ch { my_window = (s.ch.my_window + n) % 2 ^ 32 };
    } in
    rw (send_message_closed (window_adjust 0 n) opened h) (refl, h)

read_adjust-IsSilent :
    (o : Outcome) (s : Side) → s.ch.sent_close ≡ true → IsSilent s (read_adjust o s).1
unfolding read_adjust
read_adjust-IsSilent (read [] e) s h = (refl, h)
read_adjust-IsSilent waits s h = (refl, h)
read_adjust-IsSilent out_of_fuel s h = (refl, h)
read_adjust-IsSilent (read (b ∷ bs) e) s h = adjust_window-IsSilent (length (b ∷ bs) % 2 ^ 32) s h

pub read_extended-IsSilent :
    (signal : Signal) (extended room : ℕ) (s : Side)
    → s.ch.sent_close ≡ true
    → IsSilent s (read_extended signal extended room s).1
unfolding read_extended
read_extended-IsSilent signal extended room s h =
    let r0 = read_bytes signal room s.ch.pending in
    let r1 = read_bytes signal room s.ch.ext_pending in
    ground (
      arith,
      read_adjust-IsSilent r1.0 (with_buffer true r1.1 s) h,
      read_adjust-IsSilent r0.0 (with_buffer false r0.1 s) h,
    )

pub read_data-IsSilent :
    (signal : Signal) (room : ℕ) (s : Side)
    → s.ch.sent_close ≡ true
    → IsSilent s (read_data signal room s).1
unfolding read_data
read_data-IsSilent signal room s h = ground (arith, read_extended-IsSilent signal 0 room s h)

handle_message-IsSilent :
    (sel : Select) (m : Message) (s : Side)
    → s.ch.sent_close ≡ true
    → IsSilent s (handle_message sel m s).1
unfolding handle_message response_message_received
handle_message-IsSilent sel m s h = ground arith

on_decoded-IsSilent :
    (sel : Select) (r : Result Error Message) (s : Side)
    → s.ch.sent_close ≡ true
    → IsSilent s (on_decoded sel r s).1
on_decoded-IsSilent sel (err e) s h = (refl, h)
on_decoded-IsSilent sel (ok m) s h = handle_message-IsSilent sel m s h

handle_data_closed : (p : Bytes) (c : Channel) → (handle_data p c).1.sent_close ≡ c.sent_close
unfolding handle_data accept_data
handle_data_closed [] c = refl
handle_data_closed (t ∷ rest) c = ground arith

pub handle_packet-IsSilent :
    (sel : Select) (p : Bytes) (s : Side)
    → s.ch.sent_close ≡ true
    → IsSilent s (handle_packet sel p s).1
unfolding handle_packet close
handle_packet-IsSilent sel [] s h = (refl, h)
handle_packet-IsSilent sel (t ∷ rest) s h = ground (
  arith,
  handle_data_closed (t ∷ rest) s.ch,
  send_message_closed (channel_close s.ch.remote_id) s h,
  on_decoded-IsSilent sel (decode (t ∷ rest)) s h,
)
