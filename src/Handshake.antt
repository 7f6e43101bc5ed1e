-- ===== src/Handshake.antt =====
-- The handshake transport of handshake.go: its thresholds, sendKexInit, writePacket, readOnePacket and
-- a round of kexLoop. `Handshake.Exchange` has enterKeyExchange.
pub mod Exchange
pub mod Rounds
pub mod Steps
pub mod Turns
pub mod Order
pub mod History
pub mod Session
use xcryptossh.Prelude.{
  ℕ, ◌+◌, ◌-◌, ◌*◌, ◌^◌, List, [], ◌∷◌, ◌++◌, Option, none, some, Bytes, Bool, true, false, ◌==◌,
  ltb, not, ◌&&◌, if◌then◌else◌, length, codes, map,
}
use xcryptossh.Errors.{Error}
use xcryptossh.Messages.{Message, KexInit, kex_init, encode}
use xcryptossh.Negotiate.{Algorithms, rekey_bytes}
use xcryptossh.Channel.{Conn, conn_write}
use xcryptossh.Transport.{is_type, msg_new_keys}

-- The fields of the config that are read here, after SetDefaults. `host_keys` are the types of the
-- server's host keys, and none at a client.
pub record Settings : Type 0 where
  pub rekey_threshold : ℕ
  pub key_exchanges : List Bytes
  pub ciphers : List Bytes
  pub macs : List Bytes
  pub host_keys : List Bytes
  pub host_key_algorithms : List Bytes

-- The kexInit that was sent last, as a message and as a packet.
pub record SentInit : Type 0 where
  pub msg : KexInit
  pub packet : Bytes

-- The counters of bytes are signed in the code and only compared with 0: one below 0 counts as 0.
-- `requested` is whether the channel requestKex, of capacity 1, holds a request.
pub record Handshake : Type 0 where
  pub settings : Settings
  pub conn : Conn
  pub write_error : Option Error
  pub sent_init : Option SentInit
  pub pending : List Bytes
  pub requested : Bool
  pub algorithms : Option Algorithms
  pub session_id : Option Bytes
  pub read_packets_left : ℕ
  pub read_bytes_left : ℕ
  pub write_packets_left : ℕ
  pub write_bytes_left : ℕ

abbrev pub packet_rekey_threshold : ℕ
packet_rekey_threshold = 2 ^ 31

-- The bytes until the next exchange; `direction` is the agreed set's side, if there is one.
abbrev pub byte_threshold : ℕ → Option ℕ → ℕ
byte_threshold threshold of_cipher =
    if ltb 0 threshold then threshold else elim of_cipher [ some n ↦ n | none ↦ 2 ^ 30 ]

abbrev pub write_side : Option Algorithms → Option ℕ
write_side none = none
write_side (some a) = some (rekey_bytes a.w)

abbrev pub read_side : Option Algorithms → Option ℕ
read_side none = none
read_side (some a) = some (rekey_bytes a.r)

unfoldable pub reset_write_thresholds : Handshake → Handshake
reset_write_thresholds s = record s {
  write_packets_left = packet_rekey_threshold;
  write_bytes_left = byte_threshold s.settings.rekey_threshold (write_side s.algorithms);
}

unfoldable pub reset_read_thresholds : Handshake → Handshake
reset_read_thresholds s = record s {
  read_packets_left = packet_rekey_threshold;
  read_bytes_left = byte_threshold s.settings.rekey_threshold (read_side s.algorithms);
}

abbrev pub record_write_error : Error → Handshake → Handshake
record_write_error e s = elim s.write_error [
  | none ↦ record s { write_error = some e }
  | some x ↦ s
]

unfoldable pub push_packet : Bytes → Handshake → Option Error × Handshake
push_packet p s = let (e, conn) = conn_write p s.conn in (e, record s { conn = conn })

-- Both sides' lists are the config's; the host key types are the server's own, or those that the
-- client accepts.
abbrev pub own_init : Bytes → Settings → KexInit
own_init cookie c = record {
  cookie = cookie;
  kex_algos = c.key_exchanges;
  server_host_key_algos = elim c.host_keys [ [] ↦ c.host_key_algorithms | k ∷ ks ↦ k ∷ ks ];
  ciphers_client_server = c.ciphers;
  ciphers_server_client = c.ciphers;
  macs_client_server = c.macs;
  macs_server_client = c.macs;
  compression_client_server = codes "none" ∷ [];
  compression_server_client = codes "none" ∷ [];
  languages_client_server = [];
  languages_server_client = [];
  first_kex_follows = false;
  reserved = 0;
}

abbrev pub keep_init : KexInit → Option Error × Handshake → Option Error × Handshake
keep_init msg (some e, s) = (some e, s)
keep_init msg (none, s) =
    (none, record s { sent_init = some (record { msg = msg; packet = encode (kex_init msg) }) })

abbrev pub unless_sent :
    Option SentInit → Option Error × Handshake → Handshake → Option Error × Handshake
unless_sent none sent s = sent
unless_sent (some i) sent s = (none, s)

unfoldable pub send_kex_init : Bytes → Handshake → Option Error × Handshake
unfolding push_packet
send_kex_init cookie s =
    let msg : KexInit = own_init cookie s.settings in
    unless_sent s.sent_init (keep_init msg (push_packet (encode (kex_init msg)) s)) s

abbrev pub is_some {ℓ} : {A : Type ℓ} → Option A → Bool
is_some none = false
is_some (some a) = true

-- Both counters: one that is used up requests an exchange, and counts no further.
unfoldable pub count_write : ℕ → Handshake → Handshake
count_write n s = record s {
  write_bytes_left = s.write_bytes_left - n;
  write_packets_left = s.write_packets_left - 1;
  requested = if ltb 0 s.write_bytes_left && ltb 0 s.write_packets_left then s.requested else true;
}

unfoldable pub count_read : ℕ → Handshake → Handshake
count_read n s = record s {
  read_bytes_left = s.read_bytes_left - n;
  read_packets_left = s.read_packets_left - 1;
  requested = if ltb 0 s.read_bytes_left && ltb 0 s.read_packets_left then s.requested else true;
}

-- An error of the connection is kept for the next call, which alone reports it.
abbrev pub written : Option Error × Handshake → Handshake
written (none, s) = s
written (some e, s) = record s { write_error = some e }

abbrev pub unless_failed :
    Option Error → Option Error × Handshake → Handshake → Option Error × Handshake
unless_failed (some e) next s = (some e, s)
unless_failed none next s = next

unfoldable pub write_packet : Bytes → Handshake → Option Error × Handshake
unfolding push_packet count_write
write_packet p s =
    if is_type 20 p
    then (some Error.only_transport_sends, s)
    else if is_type msg_new_keys p
    then (some Error.only_transport_sends, s)
    else unless_failed s.write_error
        (if is_some s.sent_init
          then (none, record s { pending = s.pending ++ (p ∷ []) })
          else (none, written (push_packet p (count_write (length p) s))))
        s
