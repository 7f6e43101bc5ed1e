-- ===== src/Tests/Handshakes.antt =====
-- The handshake transport's theorems, on a client with one algorithm of each kind.
use xcryptossh.Prelude.{◌≡◌, refl, [], ◌∷◌, ◌++◌, none, some, ok, Bytes, false, codes, bytes_eq}
use xcryptossh.Messages.{kex_init, encode}
use xcryptossh.Negotiate.{find_agreed_algorithms, find_common, offers}
use xcryptossh.Handshake.{Handshake, Settings, own_init, is_some, write_packet, send_kex_init}
use xcryptossh.Handshake.Exchange.{Run, enter_key_exchange}
use xcryptossh.Handshake.Rounds.{start_round, kex_round}
use xcryptossh.Handshake.Turns.{turns, payloads}
use xcryptossh.Handshake.History.{start, write, ask, exchange, History-in_turn}
use xcryptossh.Handshake.Session.{meet_all, session_id-meet_all}
use xcryptossh.Handshake.Session
use xcryptossh.Messages.Decode.{decode}
use xcryptossh.Channel.{conn_write}
use xcryptossh.Wire.Numbers.{parse_uint32}
use xcryptossh.Wire.Strings.{
  append_string, append_name_list, join, split, names_of, parse_name_list, parse_string,
}
use xcryptossh.Wire.Structs.{marshal, marshal_field, unmarshal, unmarshal_field, unmarshal_fields}

abbrev one_each : Settings
one_each = record {
  rekey_threshold = 0;
  key_exchanges = codes "ecdh-sha2-nistp256" ∷ [];
  ciphers = codes "aes128-ctr" ∷ [];
  macs = codes "hmac-sha1" ∷ [];
  host_keys = [];
  host_key_algorithms = codes "ssh-rsa" ∷ [];
}

abbrev begun : Handshake
begun = record {
  settings = one_each;
  conn = record { sent = []; broken = none };
  write_error = none;
  sent_init = none;
  pending = [];
  requested = false;
  algorithms = none;
  session_id = none;
  read_packets_left = 9;
  read_bytes_left = 9;
  write_packets_left = 9;
  write_bytes_left = 9;
}

abbrev cookie : Bytes
cookie = 1 ∷ 2 ∷ 3 ∷ 4 ∷ 5 ∷ 6 ∷ 7 ∷ 8 ∷ 9 ∷ 10 ∷ 11 ∷ 12 ∷ 13 ∷ 14 ∷ 15 ∷ 16 ∷ []

abbrev agreeing : Run
agreeing = record {
  other_init = encode (kex_init (own_init cookie one_each));
  guessed = ok [];
  sends = (30 ∷ []) ∷ [];
  result = ok (7 ∷ []);
  prepared = none;
  last = ok (21 ∷ []);
}

-- A packet, the start of an exchange, and a packet that has to wait.
abbrev waiting : Handshake
waiting = (write_packet (91 ∷ []) (start_round cookie (write_packet (90 ∷ []) begun).1)).1

exchanges : (kex_round cookie agreeing waiting).0 ≡ none
unfolding kex_round send_kex_init write_packet start_round conn_write enter_key_exchange decode
    encode marshal marshal_field append_name_list unmarshal unmarshal_fields unmarshal_field join
    parse_name_list parse_string parse_uint32 find_agreed_algorithms find_common offers bytes_eq
    append_string names_of split
exchanges = refl

History-in_turn_example :
    (payloads (kex_round cookie agreeing waiting).1.conn.sent
        ++ (kex_round cookie agreeing waiting).1.pending
      ≡ (90 ∷ []) ∷ (91 ∷ []) ∷ [])
    × (turns false (kex_round cookie agreeing waiting).1.conn.sent
        ≡ some (is_some (kex_round cookie agreeing waiting).1.sent_init))
History-in_turn_example =
    History-in_turn begun (kex_round cookie agreeing waiting).1 ((90 ∷ []) ∷ (91 ∷ []) ∷ [])
      (refl, refl, refl, refl, refl)
      (exchange cookie agreeing (write 91 [] (ask cookie (write 90 [] start refl)) refl) (refl, tt)
        exchanges)

session_id-meet_all_example :
    (meet_all
      (Session.ask cookie ∷ Session.exchange cookie agreeing ∷ Session.write (90 ∷ []) ∷ [])
      (record begun { session_id = some (5 ∷ []) })).session_id
    ≡ some (5 ∷ [])
session_id-meet_all_example =
    session_id-meet_all
      (Session.ask cookie ∷ Session.exchange cookie agreeing ∷ Session.write (90 ∷ []) ∷ [])
      (record begun { session_id = some (5 ∷ []) }) (5 ∷ []) refl
