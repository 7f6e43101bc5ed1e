-- ===== src/Channel/Control.antt =====
-- The calls that decide on, close and use a channel: newChannel, Accept, Reject, CloseWrite, Close,
-- SendRequest and ackRequest of channel.go.
pub mod Laws
use xcryptossh.Prelude.{
  ℕ, ◌+◌, List, [], ◌∷◌, ◌++◌, Option, none, some, Bytes, Bool, true, false, if◌then◌else◌, codes,
  Result, ok, err, not,
}
use xcryptossh.Errors.{Error}
use xcryptossh.Messages.{
  Message, channel_open_confirm, channel_open_failure, channel_eof, channel_close, channel_request,
  channel_request_success, channel_request_failure,
}
use xcryptossh.Window.{Window}
use xcryptossh.Buffer.{new_buffer}
use xcryptossh.Channel.{
  Channel, Direction, Side, send_message, channel_window_size, channel_max_packet,
}

-- A new channel; the mux's list gives it its `local_id`.
abbrev pub new_channel : Bytes → Direction → Bytes → ℕ → Channel
new_channel chan_type direction extra_data local_id = record {
  chan_type = chan_type;
  extra_data = extra_data;
  local_id = local_id;
  remote_id = 0;
  max_incoming_payload = 0;
  max_remote_payload = 0;
  decided = false;
  direction = direction;
  msgs = [];
  requests = [];
  queues_closed = false;
  sent_eof = false;
  remote_win = record { win = 0; write_waiters = 0; closed = false };
  pending = new_buffer;
  ext_pending = new_buffer;
  my_window = channel_window_size;
  sent_close = false;
  has_closed = false;
  stopped = false;
}

unfoldable pub accept : Side → Option Error × Side
unfolding send_message
accept s =
    let confirm : Message =
      channel_open_confirm s.ch.remote_id s.ch.local_id s.ch.my_window channel_max_packet [] in
    if s.ch.decided
    then (some Error.decided_already, s)
    else send_message confirm (record s {
      ch = record s.ch { max_incoming_payload = channel_max_packet; decided = true };
    })

unfoldable pub reject : ℕ → Bytes → Side → Option Error × Side
unfolding send_message
reject reason message s =
    if s.ch.decided
    then (some Error.decided_already, s)
    else send_message (channel_open_failure s.ch.remote_id reason message (codes "en"))
        (record s { ch = record s.ch { decided = true } })

unfoldable pub close_write : Side → Option Error × Side
unfolding send_message
close_write s =
    if s.ch.decided
    then send_message (channel_eof s.ch.remote_id)
        (record s { ch = record s.ch { sent_eof = true } })
    else (some Error.undecided, s)

-- Close marks the channel before it looks whether it was decided.
unfoldable pub close_channel : Side → Option Error × Side
unfolding send_message
close_channel s =
    let marked : Side = record s { ch = record s.ch { has_closed = true; stopped = true } } in
    if s.ch.has_closed
    then (none, s)
    else if s.ch.decided
    then send_message (channel_close s.ch.remote_id) marked
    else (some Error.undecided, marked)

-- What the select of SendRequest receives: a message of the queue, its end, or a stop request.
pub data Answer : Type 0 where
  message : Message → Answer
  queue_closed : Answer
  stop : Answer

abbrev pub answer_of : Answer → Result Error Bool
answer_of stop = err Error.eof
answer_of queue_closed = err Error.eof
answer_of (message (channel_request_failure id)) = ok false
answer_of (message (channel_request_success id)) = ok true
answer_of (message m) = err Error.unexpected_response

abbrev pub request_sent : Bool → Answer → Option Error × Side → Result Error Bool × Side
request_sent want_reply answer (some e, s) = (err e, s)
request_sent want_reply answer (none, s) = (if want_reply then answer_of answer else ok false, s)

unfoldable pub send_request : Bytes → Bool → Bytes → Answer → Side → Result Error Bool × Side
unfolding send_message
send_request name want_reply payload answer s =
    if s.ch.decided
    then request_sent want_reply answer
        (send_message (channel_request s.ch.remote_id name want_reply payload) s)
    else (err Error.undecided, s)

unfoldable pub ack_request : Bool → Side → Option Error × Side
unfolding send_message
ack_request done s =
    if s.ch.decided
    then send_message
        (if done
          then channel_request_success s.ch.remote_id
          else channel_request_failure s.ch.remote_id)
        s
    else (some Error.undecided, s)
