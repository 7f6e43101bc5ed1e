-- ===== src/Negotiate.antt =====
-- Algorithm negotiation of common.go: findCommon, findAgreedAlgorithms, rekeyBytes, and the
-- defaults that Config.SetDefaults fills in, with the names of the cipher modes of cipher.go.
pub mod Agreement
pub mod Defaults
use xcryptossh.Prelude.{
  ℕ, ◌*◌, ◌^◌, ◌-◌, List, [], ◌∷◌, Option, none, some, Bytes, Bool, true, false, codes, bytes_eq,
  if◌then◌else◌, Result, ok, err, ◌>>=◌, ltb, leb, ◌==◌, ◌||◌,
}
use xcryptossh.Errors.{Error}
use xcryptossh.Messages.{KexInit}

-- The inner loop of findCommon, and every other membership test on names.
unfoldable pub offers : List Bytes → Bytes → Bool
offers [] c = false
offers (s ∷ ss) c = bytes_eq c s || offers ss c

unfoldable pub find_common : Bytes → List Bytes → List Bytes → Result Error Bytes
unfolding offers
find_common what [] server = err (Error.no_common what)
find_common what (c ∷ cs) server =
    let rest = find_common what cs server in if offers server c then ok c else rest

pub record DirectionAlgorithms : Type 0 where
  pub cipher : Bytes
  pub mac : Bytes
  pub compression : Bytes

pub record Algorithms : Type 0 where
  pub kex : Bytes
  pub host_key : Bytes
  pub w : DirectionAlgorithms
  pub r : DirectionAlgorithms

unfoldable pub find_agreed_algorithms : KexInit → KexInit → Result Error Algorithms
find_agreed_algorithms client server = do
  kex ← find_common (codes "key exchange") client.kex_algos server.kex_algos
  host_key ←
      find_common (codes "host key") client.server_host_key_algos server.server_host_key_algos
  w_cipher ←
      find_common (codes "client to server cipher") client.ciphers_client_server
        server.ciphers_client_server
  r_cipher ←
      find_common (codes "server to client cipher") client.ciphers_server_client
        server.ciphers_server_client
  w_mac ←
      find_common (codes "client to server MAC") client.macs_client_server server.macs_client_server
  r_mac ←
      find_common (codes "server to client MAC") client.macs_server_client server.macs_server_client
  w_compression ←
      find_common (codes "client to server compression") client.compression_client_server
        server.compression_client_server
  r_compression ←
      find_common (codes "server to client compression") client.compression_server_client
        server.compression_server_client
  ok (record {
    kex = kex;
    host_key = host_key;
    w = record { cipher = w_cipher; mac = w_mac; compression = w_compression };
    r = record { cipher = r_cipher; mac = r_mac; compression = r_compression };
  })

abbrev gcm_cipher_id : Bytes
gcm_cipher_id = codes "aes128-gcm@openssh.com"

abbrev aes128cbc_id : Bytes
aes128cbc_id = codes "aes128-cbc"

abbrev tripledescbc_id : Bytes
tripledescbc_id = codes "3des-cbc"

abbrev rekey_by_blocks : List Bytes
rekey_by_blocks =
    codes "aes128-ctr" ∷ codes "aes192-ctr" ∷ codes "aes256-ctr" ∷ gcm_cipher_id ∷ aes128cbc_id ∷ []

unfoldable pub rekey_bytes : DirectionAlgorithms → ℕ
unfolding offers
rekey_bytes a = if offers rekey_by_blocks a.cipher then 16 * 2 ^ 32 else 2 ^ 30

-- The keys of `cipherModes`.
abbrev pub cipher_modes : List Bytes
cipher_modes =
    codes "aes128-ctr"
    ∷ codes "aes192-ctr"
    ∷ codes "aes256-ctr"
    ∷ codes "arcfour128"
    ∷ codes "arcfour256"
    ∷ codes "arcfour"
    ∷ gcm_cipher_id
    ∷ aes128cbc_id
    ∷ tripledescbc_id
    ∷ []

abbrev pub supported_ciphers : List Bytes
supported_ciphers =
    codes "aes128-ctr"
    ∷ codes "aes192-ctr"
    ∷ codes "aes256-ctr"
    ∷ codes "aes128-gcm@openssh.com"
    ∷ codes "arcfour256"
    ∷ codes "arcfour128"
    ∷ []

abbrev pub supported_kex_algos : List Bytes
supported_kex_algos =
    codes "curve25519-sha256@libssh.org"
    ∷ codes "ecdh-sha2-nistp256"
    ∷ codes "ecdh-sha2-nistp384"
    ∷ codes "ecdh-sha2-nistp521"
    ∷ codes "diffie-hellman-group14-sha1"
    ∷ codes "diffie-hellman-group1-sha1"
    ∷ []

abbrev pub supported_macs : List Bytes
supported_macs =
    codes "hmac-sha2-256-etm@openssh.com"
    ∷ codes "hmac-sha2-256"
    ∷ codes "hmac-sha1"
    ∷ codes "hmac-sha1-96"
    ∷ []

-- The fields of Config that negotiation reads. `none` is a nil slice. Rand and Halt, which
-- SetDefaults fills in where they are nil, are a flag each.
pub record Config : Type 0 where
  pub has_rand : Bool
  pub rekey_threshold : ℕ
  pub key_exchanges : Option (List Bytes)
  pub ciphers : Option (List Bytes)
  pub macs : Option (List Bytes)
  pub has_halt : Bool

abbrev pub or_default : List Bytes → Option (List Bytes) → List Bytes
or_default d none = d
or_default d (some xs) = xs

-- The ciphers that have a mode, in order.
unfoldable pub known_ciphers : List Bytes → List Bytes
unfolding offers
known_ciphers [] = []
known_ciphers (c ∷ cs) =
    let rest = known_ciphers cs in if offers cipher_modes c then c ∷ rest else rest

-- A slice that starts out nil and is appended to.
abbrev pub appended : List Bytes → Option (List Bytes)
appended [] = none
appended (x ∷ xs) = some (x ∷ xs)

abbrev pub min_rekey_threshold : ℕ
min_rekey_threshold = 256

abbrev pub max_int64 : ℕ
max_int64 = 2 ^ 63 - 1

abbrev pub clamp_rekey : ℕ → ℕ
clamp_rekey t =
    if t == 0
    then t
    else if ltb t min_rekey_threshold
    then min_rekey_threshold
    else if leb max_int64 t
    then max_int64
    else t

unfoldable pub set_defaults : Config → Config
unfolding known_ciphers
set_defaults c = record {
  has_rand = true;
  rekey_threshold = clamp_rekey c.rekey_threshold;
  key_exchanges = some (or_default supported_kex_algos c.key_exchanges);
  ciphers = appended (known_ciphers (or_default supported_ciphers c.ciphers));
  macs = some (or_default supported_macs c.macs);
  has_halt = true;
}
