-- ===== src/Channel/Control/Laws.antt =====
-- The life of a channel: one decision, one close, and silence after a close.
use xcryptossh.Prelude.{
  ℕ, ◌≡◌, refl, List, [], ◌∷◌, ◌++◌, none, some, Bytes, Bool, true, false, arith, ◌∙◌, if_true,
}
use xcryptossh.Errors.{Error}
use xcryptossh.Messages.{encode, channel_close}
use xcryptossh.Signals.{Signal}
use xcryptossh.Channel.{Side, write_packet, put_id, Turn, write_data, write_extended}
use xcryptossh.Channel.Receive.{Select, read_data, read_extended, handle_packet}
use xcryptossh.Channel.Silence.{
  IsSilent, write_data-IsSilent, write_extended-IsSilent, read_data-IsSilent,
  read_extended-IsSilent, handle_packet-IsSilent,
}
use xcryptossh.Channel.Decided.{
  decided-write_data, decided-write_extended, decided-read_data, decided-read_extended,
  decided-handle_packet,
}
use xcryptossh.Channel.Control.{
  accept, reject, close_write, close_channel, Answer, send_request, ack_request,
}

-- What can be called on a channel: the client's calls, and handlePacket, which the mux calls.
pub data Call : Type 0 where
  accept_it : Call
  reject_it : ℕ → Bytes → Call
  end_writing : Call
  shut : Call
  request : Bytes → Bool → Bytes → Answer → Call
  acknowledge : Bool → Call
  packet : Bytes → Call
  write : List Turn → Bytes → Call
  write_stream : List Turn → (code : ℕ) → Bytes → Call
  read : Signal → (room : ℕ) → Call
  read_stream : Signal → (code room : ℕ) → Call
  receive : Select → Bytes → Call

unfoldable pub perform : Call → Side → Side
unfolding accept reject close_write close_channel send_request ack_request write_packet write_data
    read_data
perform accept_it s = (accept s).1
perform (reject_it reason m) s = (reject reason m s).1
perform end_writing s = (close_write s).1
perform shut s = (close_channel s).1
perform (request name want payload answer) s = (send_request name want payload answer s).1
perform (acknowledge done) s = (ack_request done s).1
perform (packet p) s = (write_packet p s).1
perform (write ts input) s = (write_data ts input s).1
perform (write_stream ts code input) s = (write_extended ts code input s).1
perform (read signal room) s = (read_data signal room s).1
perform (read_stream signal code room) s = (read_extended signal code room s).1
perform (receive sel p) s = (handle_packet sel p s).1

unfoldable pub perform_all : List Call → Side → Side
perform_all [] s = s
perform_all (c ∷ cs) s = perform_all cs (perform c s)

perform-IsSilent : (c : Call) (s : Side) → s.ch.sent_close ≡ true → IsSilent s (perform c s)
unfolding perform
perform-IsSilent accept_it s h = ground arith
perform-IsSilent (reject_it reason m) s h = ground arith
perform-IsSilent end_writing s h = ground arith
perform-IsSilent shut s h = ground arith
perform-IsSilent (request name want payload answer) s h = ground arith
perform-IsSilent (acknowledge done) s h = ground arith
perform-IsSilent (packet p) s h = ground arith
perform-IsSilent (write ts input) s h = write_data-IsSilent ts input s h
perform-IsSilent (write_stream ts code input) s h = write_extended-IsSilent ts code input s h
perform-IsSilent (read signal room) s h = read_data-IsSilent signal room s h
perform-IsSilent (read_stream signal code room) s h = read_extended-IsSilent signal code room s h
perform-IsSilent (receive sel p) s h = handle_packet-IsSilent sel p s h

-- Once a close was sent, nothing more goes out on the channel, whatever calls follow: Accept,
-- Reject, CloseWrite, Close, SendRequest, ackRequest, writePacket, Write, WriteExtended, Read,
-- ReadExtended with its window adjustment, and handlePacket with its answer to a close.
pub closed_stays_silent :
    (cs : List Call) (s : Side)
    → s.ch.sent_close ≡ true
    → (perform_all cs s).conn.sent ≡ s.conn.sent
unfolding perform_all
closed_stays_silent [] s h = refl
closed_stays_silent (c ∷ cs) s h =
    closed_stays_silent cs (perform c s) (perform-IsSilent c s h).1 ∙ (perform-IsSilent c s h).0

decided_stays : (c : Call) (s : Side) → s.ch.decided ≡ true → (perform c s).ch.decided ≡ true
unfolding perform
decided_stays accept_it s h = ground arith
decided_stays (reject_it reason m) s h = ground arith
decided_stays end_writing s h = ground arith
decided_stays shut s h = ground arith
decided_stays (request name want payload answer) s h = ground arith
decided_stays (acknowledge done) s h = ground arith
decided_stays (packet p) s h = ground arith
decided_stays (write ts input) s h = decided-write_data ts input s ∙ h
decided_stays (write_stream ts code input) s h = decided-write_extended ts code input s ∙ h
decided_stays (read signal room) s h = decided-read_data signal room s ∙ h
decided_stays (read_stream signal code room) s h = decided-read_extended signal code room s ∙ h
decided_stays (receive sel p) s h = decided-handle_packet sel p s h

all_decided :
    (cs : List Call) (s : Side) → s.ch.decided ≡ true → (perform_all cs s).ch.decided ≡ true
unfolding perform_all
all_decided [] s h = h
all_decided (c ∷ cs) s h = all_decided cs (perform c s) (decided_stays c s h)

now_decided :
    (s : Side) (reason : ℕ) (m : Bytes)
    → ((accept s).1.ch.decided ≡ true) × ((reject reason m s).1.ch.decided ≡ true)
unfolding accept reject write_packet
now_decided s reason m = ground arith

turned_down :
    (s : Side) (reason : ℕ) (m : Bytes)
    → s.ch.decided ≡ true
    → (accept s ≡ (some Error.decided_already, s))
      × (reject reason m s ≡ (some Error.decided_already, s))
unfolding accept reject
turned_down s reason m h = (if_true _ _ h, if_true _ _ h)

-- A channel is decided on once: after an Accept, whatever follows, Accept and Reject only return
-- errDecidedAlready and change nothing; so too after a Reject.
pub decided_once :
    (s : Side) (cs : List Call) (reason reason' : ℕ) (m m' : Bytes)
    → (accept (perform_all cs (accept s).1)
        ≡ (some Error.decided_already, perform_all cs (accept s).1))
      × (reject reason' m' (perform_all cs (accept s).1)
          ≡ (some Error.decided_already, perform_all cs (accept s).1))
      × (accept (perform_all cs (reject reason m s).1)
          ≡ (some Error.decided_already, perform_all cs (reject reason m s).1))
      × (reject reason' m' (perform_all cs (reject reason m s).1)
          ≡ (some Error.decided_already, perform_all cs (reject reason m s).1))
decided_once s cs reason reason' m m' =
    let accepted =
      turned_down (perform_all cs (accept s).1) reason' m'
        (all_decided cs _ (now_decided s reason m).0) in
    let rejected =
      turned_down (perform_all cs (reject reason m s).1) reason' m'
        (all_decided cs _ (now_decided s reason m).1) in
    (accepted.0, accepted.1, rejected.0, rejected.1)

-- Close sends one close message, under the peer's id, if it was not sent before, the channel was
-- decided on and the connection works; a second Close returns nil and does nothing.
pub close_channel_once :
    (s : Side)
    → s.ch.has_closed ≡ false
    → s.ch.decided ≡ true
    → s.ch.sent_close ≡ false
    → s.conn.broken ≡ none
    → ((close_channel s).0 ≡ none)
      × ((close_channel s).1.conn.sent
          ≡ s.conn.sent ++ (put_id s.ch.remote_id (encode (channel_close s.ch.remote_id)) ∷ []))
      × (close_channel (close_channel s).1 ≡ (none, (close_channel s).1))
unfolding close_channel write_packet
close_channel_once s a b c d = (ground arith, ground arith, ground arith)
