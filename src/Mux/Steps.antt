-- ===== src/Mux/Steps.antt =====
-- What arrives, onePacket and its handlers do not touch what the end of mux.go's loop sets.
use xcryptossh.Prelude.{ℕ, ◌≡◌, refl, [], ◌∷◌, Option, none, some, Bytes, Result, arith}
use xcryptossh.Errors.{Error}
use xcryptossh.Messages.{Message}
use xcryptossh.Messages.Decode.{decode}
use xcryptossh.ChanList.{get_chan}
use xcryptossh.Channel.{Channel}
use xcryptossh.Channel.Receive.{Select, be32_at}
use xcryptossh.Mux.{
  Mux, handle_global, handle_open, to_channel, one_packet, Incoming, packet, failed, receive,
}

-- How a round of the loop leaves the fields that only the loop's end sets.
abbrev pub SameEnd : Mux → Mux → Type 0
SameEnd x y =
    (y.error ≡ x.error) × (y.queues_closed ≡ x.queues_closed) × (y.conn_closed ≡ x.conn_closed)

handle_global_end :
    (sel : Select) (r : Result Error Message) (x : Mux) → SameEnd x (handle_global sel r x).1
unfolding handle_global
handle_global_end sel r x = ground arith

handle_open_end :
    (sel : Select) (r : Result Error Message) (x : Mux) → SameEnd x (handle_open sel r x).1
unfolding handle_open
handle_open_end sel r x = ground arith

to_channel_end :
    (sel : Select) (id : ℕ) (p : Bytes) (c : Option Channel) (x : Mux)
    → SameEnd x (to_channel sel id p c x).1
to_channel_end sel id p none x = (refl, refl, refl)
to_channel_end sel id p (some ch) x = (refl, refl, refl)

one_packet_end : (sel : Select) (p : Bytes) (x : Mux) → SameEnd x (one_packet sel p x).1
unfolding one_packet
one_packet_end sel [] x = (refl, refl, refl)
one_packet_end sel (t ∷ rest) x = ground (
  arith,
  handle_open_end sel (decode (t ∷ rest)) x,
  handle_global_end sel (decode (t ∷ rest)) x,
  to_channel_end sel (be32_at 1 (t ∷ rest)) (t ∷ rest) (get_chan (be32_at 1 (t ∷ rest)) x.chan_list)
      x,
)

pub receive_end : (i : Incoming) (x : Mux) → SameEnd x (receive i x).1
receive_end (packet sel p) x = one_packet_end sel p x
receive_end (failed e) x = (refl, refl, refl)
