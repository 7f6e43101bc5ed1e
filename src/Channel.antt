-- ===== src/Channel.antt =====
-- The channel of channel.go: its state, its writes to the connection, and WriteExtended.
-- `Channel.Receive` has the incoming side, `Channel.Control` the calls that open and close it.
pub mod Receive
pub mod Control
pub mod WriteLaws
pub mod Silence
pub mod Decided
use xcryptossh.Prelude.{
  ℕ, zero, suc, ◌+◌, ◌-◌, ◌*◌, ◌%◌, ◌^◌, List, [], ◌∷◌, ◌++◌, Option, none, some, Bytes, Bool, true,
  false, ◌==◌, ltb, if◌then◌else◌, length, take, drop,
}
use xcryptossh.Errors.{Error}
use xcryptossh.Signals.{Signal}
use xcryptossh.Wire.Numbers.{u32_bytes}
use xcryptossh.Messages.{Message, encode}
use xcryptossh.Window.{Window, Event, adjust, shut, wake, reserve}
use xcryptossh.Window
use xcryptossh.Buffer.{Buffer}

pub data Direction : Type 0 where
  inbound outbound : Direction

-- A Request on the queue `incomingRequests`.
pub record Request : Type 0 where
  pub type' : Bytes
  pub want_reply : Bool
  pub payload : Bytes

-- `msgs` and `requests` are what is queued in the Go channels `msg` and `incomingRequests`.
pub record Channel : Type 0 where
  pub chan_type : Bytes
  pub extra_data : Bytes
  pub local_id : ℕ
  pub remote_id : ℕ
  pub max_incoming_payload : ℕ
  pub max_remote_payload : ℕ
  pub decided : Bool
  pub direction : Direction
  pub msgs : List Message
  pub requests : List Request
  pub queues_closed : Bool
  pub sent_eof : Bool
  pub remote_win : Window
  pub pending : Buffer
  pub ext_pending : Buffer
  pub my_window : ℕ
  pub sent_close : Bool
  pub has_closed : Bool
  pub stopped : Bool

-- The packetConn under the mux: what was written, and the error that a write runs into, if any.
pub record Conn : Type 0 where
  pub sent : List Bytes
  pub broken : Option Error

-- A channel with what its operations reach: the connection, and the ids that they had removed from
-- the mux's channel list.
pub record Side : Type 0 where
  pub ch : Channel
  pub conn : Conn
  pub removed : List ℕ

abbrev pub channel_window_size : ℕ
channel_window_size = 64 * 2 ^ 15

abbrev pub channel_max_packet : ℕ
channel_max_packet = 2 ^ 15

abbrev pub is_close : Bytes → Bool
is_close [] = false
is_close (t ∷ rest) = t == 97

-- `c.mux.conn.writePacket(packet)`
unfoldable pub conn_write : Bytes → Conn → Option Error × Conn
conn_write packet c = elim c.broken [
  | some e ↦ (some e, c)
  | none ↦ (none, record c { sent = c.sent ++ (packet ∷ []) })
]

unfoldable pub write_packet : Bytes → Side → Option Error × Side
unfolding conn_write
write_packet packet s =
    let (e, conn) = conn_write packet s.conn in
    if s.ch.sent_close
    then (some Error.eof, s)
    else (e, record s { ch = record s.ch { sent_close = is_close packet }; conn = conn })

-- `binary.BigEndian.PutUint32(p[1:], id)`
abbrev pub put_id : ℕ → Bytes → Bytes
put_id id (t ∷ a ∷ b ∷ c ∷ d ∷ rest) = t ∷ (u32_bytes id ++ rest)
put_id id p = p

unfoldable pub send_message : Message → Side → Option Error × Side
unfolding write_packet
send_message m s = write_packet (put_id s.ch.remote_id (encode m)) s

-- A data packet as WriteExtended lays it out.
unfoldable pub data_packet : ℕ → ℕ → Bytes → Bytes
data_packet id code todo =
    if ltb 0 code
    then 95 ∷ (u32_bytes id ++ (u32_bytes code ++ (u32_bytes (length todo) ++ todo)))
    else 94 ∷ (u32_bytes id ++ (u32_bytes (length todo) ++ todo))

-- `min(a uint32, b int)`
abbrev pub min_u32 : ℕ → ℕ → ℕ
min_u32 a b = if ltb a (b % 2 ^ 32) then a else b % 2 ^ 32

-- What happens around one call of reserve: what the timer says when it is entered, and the events
-- while it waits.
pub record Turn : Type 0 where
  pub signal : Signal
  pub events : List Event

-- The bytes written and the error; `blocked`: the last call of reserve still waits.
pub data Written : Type 0 where
  finished : (n : ℕ) → Option Error → Written
  blocked : (n : ℕ) → Written

-- What others still do to the window when reserve has returned.
unfoldable pub settle : List Event → Window → Window
settle [] w = w
settle (adjust n ∷ es) w = settle es (Window.add n w).1
settle (shut ∷ es) w = settle es (Window.close w)
settle (wake signal ∷ es) w = settle es w

abbrev pub with_win : Side → Window → Side
with_win s w = record s { ch = record s.ch { remote_win = w } }

-- The end of a round: an error of the write ends the loop, else `next` goes on.
abbrev pub packet_written :
    (ℕ → Side → Written × Side) → ℕ → ℕ → Option Error × Side → Written × Side
packet_written next n size (some e, s) = (finished n (some e), s)
packet_written next n size (none, s) = next (n + size) s

-- A round behind the call of reserve, which has answered `r`.
abbrev pub write_chunk :
    (Bytes → ℕ → Side → Written × Side)
    → ℕ
    → Bytes
    → ℕ
    → Side
    → Option (ℕ × Option Error)
    → Written × Side
write_chunk next code input n s none = (blocked n, s)
write_chunk next code input n s (some (num, some e)) = (finished n (some e), s)
write_chunk next code input n s (some (num, none)) =
    packet_written (next (drop num input)) n (length (take num input))
      (write_packet (data_packet s.ch.remote_id code (take num input)) s)

-- The loop of WriteExtended, with `n` bytes written and the rest of the input to go.
unfoldable pub write_loop : List Turn → ℕ → Bytes → ℕ → Side → Written × Side
unfolding write_packet settle data_packet
write_loop ts code [] n s = (finished n none, s)
write_loop [] code (b ∷ bs) n s = (blocked n, s)
write_loop (t ∷ ts) code (b ∷ bs) n s =
    let space : ℕ = min_u32 s.ch.max_remote_payload (length (b ∷ bs)) in
    let (r, es, w) = reserve t.signal space t.events s.ch.remote_win in
    write_chunk (write_loop ts code) code (b ∷ bs) n (with_win s (settle es w)) r

unfoldable pub write_extended : List Turn → ℕ → Bytes → Side → Written × Side
unfolding write_loop
write_extended ts code input s =
    if s.ch.sent_eof then (finished 0 (some Error.eof), s) else write_loop ts code input 0 s

-- `Write` of the channel itself: not before Accept or Reject.
unfoldable pub write_data : List Turn → Bytes → Side → Written × Side
unfolding write_extended
write_data ts input s =
    if s.ch.decided then write_extended ts 0 input s else (finished 0 (some Error.undecided), s)
