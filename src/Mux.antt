-- ===== src/Mux.antt =====
-- The multiplexer of mux.go: onePacket with its handlers, loop, openChannel, SendRequest and
-- ackRequest. Its channels stand in the channel list; the connection is shared.
pub mod Laws
pub mod Steps
pub mod Ending
use xcryptossh.Prelude.{
  ℕ, ◌+◌, ◌-◌, ◌*◌, ◌%◌, ◌^◌, List, [], ◌∷◌, ◌++◌, Option, none, some, Bytes, Bool, true, false,
  ◌==◌, ltb, ◌||◌, if◌then◌else◌, length, take, drop, Result, ok, err, ◌>>=◌, codes, map, set,
}
use xcryptossh.Errors.{Error}
use xcryptossh.Messages.{
  Message, encode, channel_open, channel_open_failure, channel_open_confirm, global_request,
  global_request_success, global_request_failure,
}
use xcryptossh.Messages.Decode.{decode}
use xcryptossh.Window
use xcryptossh.ChanList.{ChanList, put_back}
use xcryptossh.ChanList
use xcryptossh.Channel.{
  Channel, Direction, inbound, outbound, Request, Conn, Side, conn_write, channel_max_packet,
}
use xcryptossh.Channel.Receive.{
  Select, queued, stopped, be32_at, bad_max_packet, handle_packet, close,
}
use xcryptossh.Channel.Control.{new_channel}

-- `accepts` are the ids of the channels queued in `incomingChannels`.
pub record Mux : Type 0 where
  pub conn : Conn
  pub chan_list : ChanList Channel
  pub accepts : List ℕ
  pub global_responses : List Message
  pub requests : List Request
  pub queues_closed : Bool
  pub conn_closed : Bool
  pub error : Option Error

abbrev pub new_mux : Conn → Mux
new_mux conn = record {
  conn = conn;
  chan_list = record { chans = []; offset = 0 };
  accepts = [];
  global_responses = [];
  requests = [];
  queues_closed = false;
  conn_closed = false;
  error = none;
}

-- `Close` of the mux.
abbrev pub close_conn : Mux → Mux
close_conn x = record x { conn_closed = true }

unfoldable pub send_message : Message → Mux → Option Error × Mux
send_message m x = let (e, c) = conn_write (encode m) x.conn in (e, record x { conn = c })

unfoldable pub remove_all : List ℕ → ChanList Channel → ChanList Channel
remove_all [] c = c
remove_all (id ∷ ids) c = remove_all ids (ChanList.remove id c)

abbrev pub absorb : ℕ → Option Error × Side → Mux → Option Error × Mux
absorb id (e, s) x =
    (e, record x { conn = s.conn; chan_list = remove_all s.removed (put_back id s.ch x.chan_list) })

-- `ch.handlePacket(packet)` for the channel that the packet names.
abbrev pub to_channel : Select → ℕ → Bytes → Option Channel → Mux → Option Error × Mux
to_channel sel id packet none x = (some (Error.invalid_channel id), x)
to_channel sel id packet (some ch) x =
    absorb id (handle_packet sel packet (record { ch = ch; conn = x.conn; removed = [] })) x

abbrev pub queue_request : Select → Request → Mux → Option Error × Mux
queue_request queued r x = (none, record x { requests = x.requests ++ (r ∷ []) })
queue_request stopped r x = (some Error.eof, x)

abbrev pub queue_response : Select → Message → Mux → Option Error × Mux
queue_response queued m x = (none, record x { global_responses = x.global_responses ++ (m ∷ []) })
queue_response stopped m x = (some Error.eof, x)

unfoldable pub handle_global : Select → Result Error Message → Mux → Option Error × Mux
handle_global sel (err e) x = (some e, x)
handle_global sel (ok (global_request t w d)) x =
    queue_request sel (record { type' = t; want_reply = w; payload = d }) x
handle_global sel (ok (global_request_success d)) x =
    queue_response sel (global_request_success d) x
handle_global sel (ok (global_request_failure d)) x =
    queue_response sel (global_request_failure d) x
handle_global sel (ok m) x = (some Error.not_global, x)

-- A channel that the peer opens.
abbrev pub opened : Bytes → ℕ → ℕ → ℕ → Bytes → ℕ → Channel
opened chan_type peers_id peers_window max_packet specific local_id =
    let ch = new_channel chan_type inbound specific local_id in
    record ch {
      remote_id = peers_id;
      max_remote_payload = max_packet;
      remote_win = (Window.add peers_window ch.remote_win).1;
    }

-- chanList.add gives the id, which the channel then carries.
unfoldable pub add_channel : (ℕ → Channel) → ChanList Channel → ℕ × ChanList Channel
add_channel make c = let (id, c') = ChanList.add (make 0) c in (id, put_back id (make id) c')

abbrev pub queue_accept : Select → ℕ → Mux → Option Error × Mux
queue_accept queued id x = (none, record x { accepts = x.accepts ++ (id ∷ []) })
queue_accept stopped id x = (some Error.eof, x)

unfoldable pub handle_open : Select → Result Error Message → Mux → Option Error × Mux
unfolding send_message
handle_open sel (ok (channel_open chan_type peers_id peers_window max_packet specific)) x =
    let (id, c) =
      add_channel (opened chan_type peers_id peers_window max_packet specific) x.chan_list in
    if bad_max_packet max_packet
    then send_message
        (channel_open_failure peers_id 2 (codes "invalid request") (codes "en_US.UTF-8")) x
    else queue_accept sel id (record x { chan_list = c })
handle_open sel (ok m) x = (some Error.bad_fields, x)
handle_open sel (err e) x = (some e, x)

-- onePacket behind readPacket.
unfoldable pub one_packet : Select → Bytes → Mux → Option Error × Mux
one_packet sel [] x = (some Error.index_out_of_range, x)
one_packet sel (t ∷ rest) x =
    let packet : Bytes = t ∷ rest in
    if t == 90
    then handle_open sel (decode packet) x
    else if ((t == 80) || (t == 81)) || (t == 82)
    then handle_global sel (decode packet) x
    else if ltb (length packet) 5
    then (some (Error.parse_error t), x)
    else let id : ℕ = be32_at 1 packet in
      to_channel sel id packet (ChanList.get_chan id x.chan_list) x

-- The end of loop: every channel is closed and forgotten, and then the queues and the connection.
unfoldable pub loop_end : Error → Mux → List Channel × Mux
loop_end e x =
    let (chans, c) = ChanList.drop_all x.chan_list in
    (
      map close chans,
      record x { chan_list = c; queues_closed = true; conn_closed = true; error = some e },
    )

-- An error with the method Timeout, which loop does not end on.
abbrev pub is_timeout : Error → Bool
is_timeout (Error.timed_out s) = true
is_timeout e = false

-- What readPacket returns, and how a select of its handler ends.
pub data Incoming : Type 0 where
  packet : Select → Bytes → Incoming
  failed : Error → Incoming

abbrev pub receive : Incoming → Mux → Option Error × Mux
receive (packet sel p) x = one_packet sel p x
receive (failed e) x = (some e, x)

-- How a round ends: an error that is no timeout ends the loop, and all else goes on.
abbrev pub loop_round : (Mux → List Channel × Mux) → Option Error × Mux → List Channel × Mux
loop_round next (none, x) = next x
loop_round next (some e, x) = if is_timeout e then next x else loop_end e x

-- loop over what the connection delivers: the channels that it closed at its end, and the mux.
-- With an empty list the loop waits in readPacket.
unfoldable pub loop : List Incoming → Mux → List Channel × Mux
loop [] x = ([], x)
loop (i ∷ is) x = loop_round (loop is) (receive i x)

-- What the select of openChannel or SendRequest ends with: a message, the end of the queue, or a
-- stop of the mux or of the context.
pub data Reply : Type 0 where
  message : Message → Reply
  queue_closed : Reply
  stop : Reply

-- openChannel returns the id of the channel, which stays in the list also where it fails.
abbrev pub open_reply : ℕ → Reply → Result Error ℕ
open_reply id (message (channel_open_confirm i j w m d)) = ok id
open_reply id (message (channel_open_failure i reason m l)) = err (Error.open_channel reason m)
open_reply id (message m) = err Error.unexpected_response
open_reply id queue_closed = err Error.unexpected_response
open_reply id stop = err Error.eof

abbrev pub open_sent : ℕ → Reply → Option Error × Mux → Result Error ℕ × Mux
open_sent id reply (some e, x) = (err e, x)
open_sent id reply (none, x) = (open_reply id reply, x)

abbrev pub outgoing : Bytes → Bytes → ℕ → Channel
outgoing chan_type extra id =
    let ch = new_channel chan_type outbound extra id in
    record ch { max_incoming_payload = channel_max_packet }

unfoldable pub open_channel : Bytes → Bytes → Reply → Mux → Result Error ℕ × Mux
unfolding send_message add_channel
open_channel chan_type extra reply x =
    let (id, c) = add_channel (outgoing chan_type extra) x.chan_list in
    let ch = outgoing chan_type extra id in
    open_sent id reply (
      send_message (channel_open chan_type id ch.my_window ch.max_incoming_payload extra)
        (record x { chan_list = c }))

abbrev pub global_reply : Reply → Result Error (Bool × Bytes)
global_reply (message (global_request_failure d)) = ok (false, d)
global_reply (message (global_request_success d)) = ok (true, d)
global_reply (message m) = err Error.unexpected_response
global_reply queue_closed = err Error.eof
global_reply stop = err Error.eof

abbrev pub request_sent : Bool → Reply → Option Error × Mux → Result Error (Bool × Bytes) × Mux
request_sent want_reply reply (some e, x) = (err e, x)
request_sent want_reply reply (none, x) =
    (if want_reply then global_reply reply else ok (false, []), x)

unfoldable pub send_request : Bytes → Bool → Bytes → Reply → Mux → Result Error (Bool × Bytes) × Mux
unfolding send_message
send_request name want_reply payload reply x =
    request_sent want_reply reply (send_message (global_request name want_reply payload) x)

unfoldable pub ack_request : Bool → Bytes → Mux → Option Error × Mux
unfolding send_message
ack_request done d x =
    send_message (if done then global_request_success d else global_request_failure d) x
