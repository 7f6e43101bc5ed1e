-- ===== src/Mux/Laws.antt =====
-- The channels that the peer opens.
use xcryptossh.Prelude.{
  ℕ, ◌+◌, ◌^◌, ◌<◌, ◌≡◌, [], ◌∷◌, ◌++◌, none, some, Bytes, false, ◌==◌, if◌then◌else◌, length, ok,
  arith, if_true, ◌∙◌, ==_refl,
}
use xcryptossh.Messages.{channel_open}
use xcryptossh.ChanList.{ChanList, get_chan}
use xcryptossh.ChanList
use xcryptossh.ChanList.Laws.{IsSmall, get_chan-add, get_chan-put_back}
use xcryptossh.Channel.{Channel}
use xcryptossh.Channel.Receive.{queued, bad_max_packet}
use xcryptossh.Mux.{Mux, handle_open, opened, add_channel}

add_channel_lem :
    (make : ℕ → Channel) (c : ChanList Channel) (id : ℕ)
    → IsSmall c
    → length c.chans + 1 < 2 ^ 32
    → id < 2 ^ 32
    → (get_chan (add_channel make c).0 c ≡ none)
      × (get_chan id (add_channel make c).1 ≡ (
          if id == (add_channel make c).0
          then some (make (add_channel make c).0)
          else get_chan id c))
unfolding add_channel
add_channel_lem make c id s room h =
    let (new, c') = ChanList.add (make 0) c in
    let there = get_chan-add (make 0) c new s room (get_chan-add (make 0) c id s room h).2 in
    let here = get_chan-add (make 0) c id s room h in
    let found : get_chan new c' ≡ some (make 0) = there.1 ∙ if_true _ _ (==_refl new) in
    let back = get_chan-put_back new id (make new) c' here.3 here.2 h (λ e. cc) in
    (here.0, ground (arith, back.0, here.1))

-- The peer opens a channel with a legal packet size, and the mux takes it: it gets an id that no
-- channel had, under which the channel is found with the peer's id, size and window; the id is
-- queued for Accept, and every other id finds what it found before.
pub handle_open_lem :
    (chan_type : Bytes) (peers_id peers_window max_packet : ℕ) (specific : Bytes) (x : Mux) (id : ℕ)
    → bad_max_packet max_packet ≡ false
    → IsSmall x.chan_list
    → length x.chan_list.chans + 1 < 2 ^ 32
    → id < 2 ^ 32
    → let make = opened chan_type peers_id peers_window max_packet specific in
      let new = (add_channel make x.chan_list).0 in
      let r =
        handle_open queued
          (ok (channel_open chan_type peers_id peers_window max_packet specific))
          x in
      (r.0 ≡ none)
      × (get_chan new x.chan_list ≡ none)
      × (r.1.accepts ≡ x.accepts ++ (new ∷ []))
      × (get_chan id r.1.chan_list
          ≡ (if id == new then some (make new) else get_chan id x.chan_list))
unfolding handle_open
handle_open_lem chan_type peers_id peers_window max_packet specific x id legal s room h =
    let a =
      add_channel_lem (opened chan_type peers_id peers_window max_packet specific) x.chan_list id s
        room h in
    (ground arith, a.0, ground arith, ground (arith, a.1))
