-- ===== src/Handshake/Exchange.antt =====
-- enterKeyExchange of handshake.go. The key exchange algorithm itself is a parameter: what it sends,
-- and what it comes to, which takes in the check of the host key.
use xcryptossh.Prelude.{
  List, [], ◌∷◌, Option, none, some, Bytes, Bool, true, false, not, ◌&&◌, ◌||◌, if◌then◌else◌,
  Result, ok, err, bytes_eq, get_or,
}
use xcryptossh.Errors.{Error}
use xcryptossh.Messages.{Message, KexInit, kex_init}
use xcryptossh.Messages.Decode.{decode}
use xcryptossh.Negotiate.{Algorithms, find_agreed_algorithms, offers, supported_kex_algos}
use xcryptossh.Transport.{is_type, msg_new_keys}
use xcryptossh.Handshake.{Handshake, Settings, push_packet}

-- What meets the exchange from outside: the peer's kexInit, the packet that is read where the peer
-- has guessed wrong, the run of the algorithm with its exchange hash, how prepareKeyChange ends, and
-- the packet read at the end.
pub record Run : Type 0 where
  pub other_init : Bytes
  pub guessed : Result Error Bytes
  pub sends : List Bytes
  pub result : Result Error Bytes
  pub prepared : Option Error
  pub last : Result Error Bytes

unfoldable pub push_all : List Bytes → Handshake → Option Error × Handshake
push_all [] s = (none, s)
push_all (p ∷ ps) s =
    let (e, s') = push_packet p s in elim e [ some x ↦ (some x, s') | none ↦ push_all ps s' ]

abbrev pub other_of : Result Error Message → Result Error KexInit
other_of (ok (kex_init k)) = ok k
other_of (ok m) = err Error.bad_fields
other_of (err e) = err e

abbrev pub is_server : Settings → Bool
is_server c = elim c.host_keys [ [] ↦ false | k ∷ ks ↦ true ]

-- The client's message first.
abbrev pub roles : Bool → KexInit → KexInit → KexInit × KexInit
roles true mine other = (other, mine)
roles false mine other = (mine, other)

-- The peer follows its kexInit by a packet for an algorithm that was not agreed on.
abbrev pub guessed_wrong : KexInit → KexInit × KexInit → Bool
guessed_wrong other (client, server) =
    other.first_kex_follows
    && (not (bytes_eq (get_or client.kex_algos 0 []) (get_or server.kex_algos 0 []))
        || not (
            bytes_eq (get_or client.server_host_key_algos 0 [])
              (get_or server.server_host_key_algos 0 [])))

abbrev pub skip_guess : Bool → Result Error Bytes → Option Error
skip_guess true (err e) = some e
skip_guess true (ok p) = none
skip_guess false r = none

-- `if err != nil { return err }`
abbrev pub and_then :
    Option Error × Handshake → (Handshake → Option Error × Handshake) → Option Error × Handshake
and_then (some e, s) next = (some e, s)
and_then (none, s) next = next s

-- The session id is the first exchange hash.
abbrev pub first_hash : Option Bytes → Bytes → Option Bytes
first_hash (some id) h = some id
first_hash none h = some h

abbrev pub keep_session : Bytes → Handshake → Handshake
keep_session h s = record s { session_id = first_hash s.session_id h }

abbrev pub finished_by : Result Error Bytes → Option Error
finished_by (err e) = some e
finished_by (ok p) =
    if is_type msg_new_keys p then none else some (Error.unexpected_message 21 (get_or p 0 0))

-- From the result of the algorithm on.
unfoldable pub change_keys : Run → Result Error Bytes → Handshake → Option Error × Handshake
unfolding push_packet
change_keys x (err e) s = (some e, s)
change_keys x (ok h) s =
    and_then (x.prepared, keep_session h s)
      λ s1. and_then (push_packet (msg_new_keys ∷ []) s1) λ s2. (finished_by x.last, s2)

-- With the agreed algorithms.
unfoldable pub run_algorithm : Run → Algorithms → Bool → Handshake → Option Error × Handshake
unfolding push_all change_keys
run_algorithm x a wrong s =
    and_then (skip_guess wrong x.guessed, s)
      λ s1.
        if offers supported_kex_algos a.kex
        then and_then (push_all x.sends s1) (change_keys x x.result)
        else (some (Error.unexpected_kex a.kex), s1)

abbrev pub with_agreed : Run → Bool → Result Error Algorithms → Handshake → Option Error × Handshake
with_agreed x wrong (err e) s = (some e, record s { algorithms = none })
with_agreed x wrong (ok a) s = run_algorithm x a wrong (record s { algorithms = some a })

abbrev pub with_other : Run → KexInit → Result Error KexInit → Handshake → Option Error × Handshake
with_other x mine (err e) s = (some e, s)
with_other x mine (ok other) s =
    let ends = roles (is_server s.settings) mine other in
    with_agreed x (guessed_wrong other ends) (find_agreed_algorithms ends.0 ends.1) s

-- `mine` is the kexInit that was sent.
unfoldable pub enter_key_exchange : Run → KexInit → Handshake → Option Error × Handshake
unfolding run_algorithm
enter_key_exchange x mine s = with_other x mine (other_of (decode x.other_init)) s
