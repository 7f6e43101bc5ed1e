-- ===== src/Channel/Receive.antt =====
-- The incoming side of a channel: handleData, adjustWindow, ReadExtended, responseMessageReceived,
-- close and handlePacket.
pub mod Laws
pub mod Reading
use xcryptossh.Prelude.{
  ℕ, ◌+◌, ◌-◌, ◌*◌, ◌%◌, ◌^◌, List, [], ◌∷◌, ◌++◌, Option, none, some, Bytes, Bool, true, false,
  ◌==◌, ltb, ◌||◌, if◌then◌else◌, length, take, drop, Result, ok, err,
}
use xcryptossh.Errors.{Error}
use xcryptossh.Signals.{Signal}
use xcryptossh.Wire.Numbers.{be32}
use xcryptossh.Messages.{
  Message, channel_open_failure, channel_open_confirm, window_adjust, channel_request,
  channel_close,
}
use xcryptossh.Messages.Decode.{decode}
use xcryptossh.Window
use xcryptossh.Buffer
use xcryptossh.Buffer.{Buffer, Outcome, read, waits, out_of_fuel, read_bytes}
use xcryptossh.Channel.{
  Channel, Direction, inbound, outbound, Request, Side, send_message, channel_max_packet,
}

-- `binary.BigEndian.Uint32(packet[i:])` where four bytes are there
abbrev pub be32_at : ℕ → Bytes → ℕ
be32_at i packet = elim (drop i packet) [ a ∷ b ∷ c ∷ d ∷ rest ↦ be32 a b c d | _ ↦ 0 ]

-- Where the payload goes, by its extended code.
abbrev pub deliver : ℕ → Bytes → Channel → Channel
deliver extended input c =
    if extended == 1
    then record c { ext_pending = Buffer.write input c.ext_pending }
    else if ltb 0 extended
    then c
    else record c { pending = Buffer.write input c.pending }

-- handleData behind the header: `len` is the length field, `input` what follows the header.
unfoldable pub accept_data : ℕ → ℕ → Bytes → Channel → Option Error × Channel
accept_data extended len input c =
    if len == 0
    then (none, c)
    else if ltb c.max_incoming_payload len
    then (some Error.payload_too_large, c)
    else if len == length input % 2 ^ 32
    then (if ltb c.my_window len
        then (some Error.wrote_too_much, c)
        else (none, deliver extended input (record c { my_window = c.my_window - len })))
    else (some Error.wrong_length, c)

unfoldable pub handle_data : Bytes → Channel → Option Error × Channel
handle_data [] c = (some Error.index_out_of_range, c)
handle_data (t ∷ rest) c =
    let packet : Bytes = t ∷ rest in
    if t == 95
    then (if ltb (length packet) 13
        then (some (Error.parse_error t), c)
        else accept_data (be32_at 5 packet) (be32_at 9 packet) (drop 13 packet) c)
    else (if ltb (length packet) 9
        then (some (Error.parse_error t), c)
        else accept_data 0 (be32_at 5 packet) (drop 9 packet) c)

unfoldable pub adjust_window : ℕ → Side → Option Error × Side
unfolding send_message
adjust_window n s =
    send_message (window_adjust 0 n)
      (record s { ch = record s.ch { my_window = (s.ch.my_window + n) % 2 ^ 32 } })

-- io.EOF from the window adjustment is not passed on while there were bytes.
abbrev pub not_eof : Option Error → Option Error
not_eof (some Error.eof) = none
not_eof e = e

abbrev pub with_buffer : Bool → Buffer → Side → Side
with_buffer true b s = record s { ch = record s.ch { ext_pending = b } }
with_buffer false b s = record s { ch = record s.ch { pending = b } }

-- ReadExtended behind the call of the buffer's Read: the window opens by what was read.
unfoldable pub read_adjust : Outcome → Side → Outcome × Side
unfolding adjust_window
read_adjust (read (b ∷ bs) e) s =
    let (e', s') = adjust_window (length (b ∷ bs) % 2 ^ 32) s in (read (b ∷ bs) (not_eof e'), s')
read_adjust (read [] e) s = (read [] e, s)
read_adjust waits s = (waits, s)
read_adjust out_of_fuel s = (out_of_fuel, s)

unfoldable pub read_extended : Signal → ℕ → ℕ → Side → Outcome × Side
unfolding read_adjust
read_extended signal extended room s =
    let (o0, b0) = read_bytes signal room s.ch.pending in
    let (o1, b1) = read_bytes signal room s.ch.ext_pending in
    if extended == 1
    then read_adjust o1 (with_buffer true b1 s)
    else if extended == 0
    then read_adjust o0 (with_buffer false b0 s)
    else (read [] (some (Error.unimplemented_extended extended)), s)

-- `Read` of the channel itself: not before Accept or Reject.
unfoldable pub read_data : Signal → ℕ → Side → Outcome × Side
unfolding read_extended
read_data signal room s =
    if s.ch.decided then read_extended signal 0 room s else (read [] (some Error.undecided), s)

unfoldable pub close : Channel → Channel
close c = record c {
  pending = Buffer.eof c.pending;
  ext_pending = Buffer.eof c.ext_pending;
  queues_closed = true;
  sent_close = true;
  remote_win = Window.close c.remote_win;
  stopped = true;
}

unfoldable pub response_message_received : Channel → Option Error × Channel
response_message_received c = elim c.direction [
  | inbound ↦ (some Error.response_on_inbound, c)
  | outbound ↦
      if c.decided then (some Error.duplicate_response, c) else (none, record c { decided = true })
]

-- How a select that queues a value ends: the value is taken, or the mux or the channel was asked to
-- stop.
pub data Select : Type 0 where
  queued : Select
  stopped : Select

abbrev pub select_msg : Select → Message → Side → Option Error × Side
select_msg queued m s = (none, record s { ch = record s.ch { msgs = s.ch.msgs ++ (m ∷ []) } })
select_msg stopped m s = (some Error.eof, s)

abbrev pub select_request : Select → Request → Side → Option Error × Side
select_request queued r s =
    (none, record s { ch = record s.ch { requests = s.ch.requests ++ (r ∷ []) } })
select_request stopped r s = (some Error.eof, s)

abbrev pub bad_max_packet : ℕ → Bool
bad_max_packet n = ltb n 9 || ltb (2 ^ 31) n

abbrev pub confirmed : ℕ → ℕ → ℕ → Channel → Channel
confirmed my_id my_window max_packet c = record c {
  remote_id = my_id;
  max_remote_payload = max_packet;
  remote_win = (Window.add my_window c.remote_win).1;
}

abbrev pub after_response :
    Option Error × Channel → Side → (Channel → Option Error × Side) → Option Error × Side
after_response (some e, c) s k = (some e, record s { ch = c })
after_response (none, c) s k = k c

-- The message switch at the end of handlePacket.
unfoldable pub handle_message : Select → Message → Side → Option Error × Side
unfolding response_message_received
handle_message sel (channel_open_failure id reason m l) s =
    after_response (response_message_received s.ch) s λ c.
      select_msg sel (channel_open_failure id reason m l)
        (record s { ch = c; removed = s.removed ++ (id ∷ []) })
handle_message sel (channel_open_confirm id my_id my_window max_packet d) s =
    after_response (response_message_received s.ch) s λ c.
      if bad_max_packet max_packet
      then (some (Error.invalid_max_packet max_packet), record s { ch = c })
      else select_msg sel (channel_open_confirm id my_id my_window max_packet d)
          (record s { ch = confirmed my_id my_window max_packet c })
handle_message sel (window_adjust id n) s =
    let (fits, w) = Window.add n s.ch.remote_win in
    if fits
    then (none, record s { ch = record s.ch { remote_win = w } })
    else (some (Error.invalid_window_update n), s)
handle_message sel (channel_request id request want_reply specific) s =
    select_request sel (record { type' = request; want_reply = want_reply; payload = specific }) s
handle_message sel m s = select_msg sel m s

abbrev pub on_decoded : Select → Result Error Message → Side → Option Error × Side
on_decoded sel (err e) s = (some e, s)
on_decoded sel (ok m) s = handle_message sel m s

unfoldable pub handle_packet : Select → Bytes → Side → Option Error × Side
unfolding handle_data accept_data close handle_message
handle_packet sel [] s = (some Error.index_out_of_range, s)
handle_packet sel (t ∷ rest) s =
    let (e, c) = handle_data (t ∷ rest) s.ch in
    let (e', s') = send_message (channel_close s.ch.remote_id) s in
    if (t == 94) || (t == 95)
    then (e, record s { ch = c })
    else if t == 97
    then (none, record s' { ch = close s'.ch; removed = s'.removed ++ (s.ch.local_id ∷ []) })
    else if t == 96
    then (
      none,
      record s {
        ch = record s.ch {
          pending = Buffer.eof s.ch.pending;
          ext_pending = Buffer.eof s.ch.ext_pending;
        };
      },
    )
    else on_decoded sel (decode (t ∷ rest)) s
