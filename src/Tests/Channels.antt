-- ===== src/Tests/Channels.antt =====
-- A channel of channel.go with a window of 5 bytes, in both directions.
use xcryptossh.Prelude.{◌≡◌, refl, List, [], ◌∷◌, none, Bytes, true, false, arith, codes}
use mathlib.Core.List.{flatten}
use xcryptossh.Signals.{received}
use xcryptossh.Window.{adjust, wake}
use xcryptossh.Channel.{Channel, outbound, Side, data_packet, write_extended}
use xcryptossh.Channel.WriteLaws.{Sent, write_extended-Sent}
use xcryptossh.Channel.Receive.{queued, handle_data, read_extended}
use xcryptossh.Channel.Receive.Laws.{in_use, HasTaken, handle_data-data_packet}
use xcryptossh.Channel.Receive.Reading.{in_use-read_extended}
use xcryptossh.Channel.Control.{new_channel}
use xcryptossh.Channel.Control.Laws.{
  Call, perform_all, shut, acknowledge, write_stream, read_stream, receive, closed_stays_silent,
}

abbrev small : Channel
small = record (new_channel (codes "session") outbound [] 3) {
  remote_id = 8;
  max_incoming_payload = 20;
  max_remote_payload = 4;
  decided = true;
  remote_win = record { win = 5; write_waiters = 0; closed = false };
  pending = record { head = []; behind = (1 ∷ 2 ∷ []) ∷ []; closed = false };
  my_window = 5;
}

abbrev side : Side
side = record { ch = small; conn = record { sent = []; broken = none }; removed = [] }

abbrev silent : Side
silent = record side { ch = record small { sent_close = true } }

abbrev six : Bytes
six = 1 ∷ 2 ∷ 3 ∷ 4 ∷ 5 ∷ 6 ∷ []

write_extended-Sent_example : Sent 0 six 0 side (
    write_extended
      (record { signal = received []; events = [] }
        ∷ record { signal = received []; events = [] }
        ∷ record { signal = received []; events = adjust 9 ∷ wake (received []) ∷ [] }
        ∷ [])
      0
      six
      side)
write_extended-Sent_example =
    write_extended-Sent
      (record { signal = received []; events = [] }
        ∷ record { signal = received []; events = [] }
        ∷ record { signal = received []; events = adjust 9 ∷ wake (received []) ∷ [] }
        ∷ [])
      0 six side (omega arith) (omega arith)

handle_data-data_packet_example :
    ((handle_data (data_packet 3 1 (7 ∷ 9 ∷ [])) small).0 ≡ none)
    × HasTaken 1 (7 ∷ 9 ∷ []) small (handle_data (data_packet 3 1 (7 ∷ 9 ∷ [])) small).1
handle_data-data_packet_example =
    handle_data-data_packet 3 1 (7 ∷ 9 ∷ []) small (omega arith) (omega arith) (λ e. cc)
      (omega arith) (omega arith) (omega arith)

abbrev two_of_two : Bytes
two_of_two = 94 ∷ 0 ∷ 0 ∷ 0 ∷ 3 ∷ 0 ∷ 0 ∷ 0 ∷ 2 ∷ 7 ∷ 9 ∷ []

in_use-read_extended_example : in_use (read_extended (received []) 0 1 side).1.ch ≡ in_use side.ch
unfolding flatten
in_use-read_extended_example = in_use-read_extended (received []) 0 1 side (omega arith)

abbrev after_close : List Call
after_close =
    acknowledge true
    ∷ write_stream (record { signal = received []; events = [] } ∷ []) 0 six
    ∷ read_stream (received []) 0 1
    ∷ receive queued (97 ∷ 0 ∷ 0 ∷ 0 ∷ 3 ∷ [])
    ∷ shut
    ∷ []

closed_stays_silent_example : (perform_all after_close silent).conn.sent ≡ []
closed_stays_silent_example = closed_stays_silent after_close silent refl
