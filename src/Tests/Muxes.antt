-- ===== src/Tests/Muxes.antt =====
-- The mux of mux.go with one channel, under the id 4, and an end of the connection behind a packet.
use xcryptossh.Prelude.{◌⊎◌, refl, List, [], ◌∷◌, none, some, codes}
use xcryptossh.Errors.{Error}
use xcryptossh.Channel.{outbound}
use xcryptossh.Channel.Control.{new_channel}
use xcryptossh.Channel.Receive.{queued}
use xcryptossh.Mux.{Mux, new_mux, loop, packet, failed, Incoming}
use xcryptossh.Mux.Ending.{IsRunning, HasEnded, loop_lem}

abbrev one_channel : Mux
one_channel = record (new_mux (record { sent = []; broken = none })) {
  chan_list = record {
    chans = none ∷ some (new_channel (codes "session") outbound [] 4) ∷ [];
    offset = 3;
  };
}

abbrev short_life : List Incoming
short_life = packet queued (96 ∷ 0 ∷ 0 ∷ 0 ∷ 4 ∷ []) ∷ failed Error.eof ∷ []

loop_lem_example :
    IsRunning short_life one_channel (loop short_life one_channel)
    ⊎ HasEnded short_life one_channel (loop short_life one_channel)
loop_lem_example = loop_lem short_life one_channel refl refl
