-- ===== src/Handshake/Rounds.antt =====
-- A round of kexLoop of handshake.go, and readOnePacket.
use xcryptossh.Prelude.{
  List, [], ◌∷◌, Option, none, some, Bytes, Bool, false, not, ◌&&◌, if◌then◌else◌, length, Result,
  ok, err,
}
use xcryptossh.Errors.{Error}
use xcryptossh.Transport.{is_type, msg_new_keys, msg_ignore}
use xcryptossh.Handshake.{
  Handshake, SentInit, push_packet, send_kex_init, record_write_error, reset_write_thresholds,
  reset_read_thresholds, count_read,
}
use xcryptossh.Handshake.Exchange.{Run, enter_key_exchange}

-- The packets that waited; each push sets writeError anew.
unfoldable pub push_pending : List Bytes → Handshake → Handshake
push_pending [] s = s
push_pending (p ∷ ps) s =
    let (e, s') = push_packet p s in
    elim e [
      | some x ↦ record s' { write_error = some x }
      | none ↦ push_pending ps (record s' { write_error = none })
    ]

-- The part of kexLoop behind enterKeyExchange, which has returned `e`.
unfoldable pub finish_exchange : Option Error → Handshake → Handshake
unfolding push_pending reset_write_thresholds
finish_exchange e s =
    let s' =
      reset_write_thresholds (record s { write_error = e; sent_init = none; requested = false }) in
    record (push_pending s.pending s') { pending = [] }

-- With no error so far: `request.done` gets the result of the exchange.
abbrev pub enter_and_finish : Run → Option SentInit → Handshake → Option Error × Handshake
enter_and_finish x none s = (none, s)
enter_and_finish x (some i) s =
    let (e, s') = enter_key_exchange x i.msg s in (e, finish_exchange e s')

abbrev pub unless_error : Option Error → Run → Handshake → Option Error × Handshake
unless_error (some e) x s = (some e, s)
unless_error none x s = enter_and_finish x s.sent_init s

abbrev pub init_sent : Run → Option Error × Handshake → Option Error × Handshake
init_sent x (some e, s) = let s' = record_write_error e s in (s'.write_error, s')
init_sent x (none, s) = unless_error s.write_error x s

-- A round with a request of the peer: the own kexInit is sent first, if it was not before.
unfoldable pub kex_round : Bytes → Run → Handshake → Option Error × Handshake
unfolding finish_exchange
kex_round cookie x s = init_sent x (send_kex_init cookie s)

-- A round's first half without one: a threshold was passed, or this is the start.
unfoldable pub start_round : Bytes → Handshake → Handshake
start_round cookie s =
    let (e, s') = send_kex_init cookie s in elim e [ some x ↦ record_write_error x s' | none ↦ s' ]

-- What a first exchange looks like to higher layers, and a later one.
abbrev pub success_packet : Option Bytes → Bytes
success_packet none = msg_new_keys ∷ []
success_packet (some id) = msg_ignore ∷ []

-- readOnePacket behind readPacket, with the round of kexLoop that a kexInit leads to.
abbrev pub exchanged : Option Bytes → Option Error × Handshake → Result Error Bytes × Handshake
exchanged before (some e, s) = (err e, s)
exchanged before (none, s) = (ok (success_packet before), reset_read_thresholds s)

unfoldable pub read_one_packet :
    Bool
    → (Bytes → Handshake → Option Error × Handshake)
    → Bytes
    → Handshake
    → Result Error Bytes × Handshake
unfolding count_read
read_one_packet first kex p s =
    let s' = count_read (length p) s in
    if first && not (is_type 20 p)
    then (err Error.first_not_kex_init, s')
    else if is_type 20 p
    then exchanged s'.session_id (kex p s')
    else (ok p, s')
