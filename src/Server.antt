-- ===== src/Server.antt =====
-- The server's user authentication in server.go: its configuration, the state of a run, the cache of
-- public keys and the check of a source address. `Server.Attempts` has the methods and
-- `Server.Rounds` the loop of serverAuthenticate.
pub mod Attempts
pub mod Rounds
pub mod Signed
pub mod Address
pub mod Cache
pub mod Moves
pub mod Trust
pub mod Grants
pub mod Progress
pub mod Runs
pub mod Sound
pub mod Limits
pub mod Answers
use xcryptossh.Prelude.{
  ℕ, zero, List, [], ◌∷◌, ◌++◌, Option, none, some, Bytes, Bool, true, false, ltb, if◌then◌else◌,
  length, Result, ok, err, bytes_eq, codes, ◌&&◌, ◌||◌,
}
use xcryptossh.Prelude.Int.{ℤ, pos, negsuc}
use xcryptossh.Errors.{Error}
use xcryptossh.Wire.Strings.{split}
use xcryptossh.Channel.{Conn}
use xcryptossh.Certs.{source_address_critical_option}

-- The two maps as association lists.
pub record Permissions : Type 0 where
  pub critical_options : List (Bytes × Bytes)
  pub extensions : List (Bytes × Bytes)

pub record Signature : Type 0 where
  pub format : Bytes
  pub blob : Bytes

-- A net.Addr: nil, a TCP address, or an address of another network.
pub data NetAddr (IP : Type 0) : Type 0 where
  nowhere elsewhere : NetAddr IP
  tcp : IP → NetAddr IP

-- Why an attempt is refused: `E` is what the callbacks return.
pub data Refusal (E : Type 0) : Type 0 where
  not_passed not_configured : Refusal E
  bad_algo : Bytes → Refusal E
  bad_method : Bytes → Refusal E
  no_address no_tcp_address address_refused : Refusal E
  bad_source : Bytes → Refusal E
  of_callback : E → Refusal E

-- What ends the run without a grant.
pub data Failure (E : Type 0) : Type 0 where
  all_refused : List (Refusal E) → Failure E
  bad_service : Bytes → Failure E
  too_many_failures no_methods : Failure E
  of_packet : Error → Failure E
  of_key : E → Failure E

-- A keyboard-interactive callback as what it does: it ends, or calls Challenge and goes on with the
-- answers or the error.
pub data Dialogue (E : Type 0) : Type 0 where
  done : Result E (Option Permissions) → Dialogue E
  ask :
      (instruction : Bytes) (questions : List Bytes) (echos : List Bool)
      (next : Result (Failure E) (List Bytes) → Dialogue E)
      → Dialogue E

-- A ServerConfig, the connection that it serves, and what lies outside the package: keys of type `K`
-- (ParsePublicKey and Verify), and package net. A callback that is nil is `none`; the callbacks are
-- functions of the user and of what the client sent.
pub record Server (K E IP Net : Type 0) : Type 0 where
  pub no_client_auth : Bool
  pub max_auth_tries : ℤ
  pub password_callback : Option (Bytes → Bytes → Result E (Option Permissions))
  pub public_key_callback : Option (Bytes → K → Result E (Option Permissions))
  pub interactive_callback : Option (Bytes → Dialogue E)
  pub session_id : Bytes
  pub remote_addr : NetAddr IP
  pub parse_public_key : Bytes → Result E K
  pub verify : K → Bytes → Signature → Option E
  pub parse_ip : Bytes → Option IP
  pub equal_ip : IP → IP → Bool
  pub parse_cidr : Bytes → Option Net
  pub contains : Net → IP → Bool

pub record CachedPubKey (E : Type 0) : Type 0 where
  pub user : Bytes
  pub pub_key_data : Bytes
  pub result : Result (Refusal E) (Option Permissions)

-- The variables of serverAuthenticate, with the packets that the client still sends, the error that
-- a read runs into behind them, and the connection that replies go to.
pub record Session (E : Type 0) : Type 0 where
  pub input : List Bytes
  pub end : Error
  pub conn : Conn
  pub cache : List (CachedPubKey E)
  pub auth_failures : ℕ
  pub auth_errs : List (Refusal E)

abbrev pub service_ssh : Bytes
service_ssh = codes "ssh-connection"

abbrev pub max_cached_pub_keys : ℕ
max_cached_pub_keys = 16

-- NewServerConn takes a limit of 0 for 6.
unfoldable pub default_tries : ℤ → ℤ
default_tries (pos zero) = pos 6
default_tries n = n

-- `m[key]` of a map of strings, "" where the key is missing.
unfoldable pub option_value : Bytes → List (Bytes × Bytes) → Bytes
unfolding bytes_eq
option_value key [] = []
option_value key ((k, v) ∷ rest) =
    let later = option_value key rest in if bytes_eq k key then v else later

unfoldable pub is_acceptable_algo : Bytes → Bool
unfolding bytes_eq
is_acceptable_algo a =
    bytes_eq a (codes "ssh-rsa")
    || bytes_eq a (codes "ssh-dss")
    || bytes_eq a (codes "ecdsa-sha2-nistp256")
    || bytes_eq a (codes "ecdsa-sha2-nistp384")
    || bytes_eq a (codes "ecdsa-sha2-nistp521")
    || bytes_eq a (codes "ssh-ed25519")
    || bytes_eq a (codes "ssh-rsa-cert-v01@openssh.com")
    || bytes_eq a (codes "ssh-dss-cert-v01@openssh.com")
    || bytes_eq a (codes "ecdsa-sha2-nistp256-cert-v01@openssh.com")
    || bytes_eq a (codes "ecdsa-sha2-nistp384-cert-v01@openssh.com")
    || bytes_eq a (codes "ecdsa-sha2-nistp521-cert-v01@openssh.com")

module _ {E : Type 0} where
  unfoldable pub cache_get : Bytes → Bytes → List (CachedPubKey E) → Option (CachedPubKey E)
  unfolding bytes_eq
  cache_get user key [] = none
  cache_get user key (k ∷ ks) =
      let later = cache_get user key ks in
      if bytes_eq k.user user && bytes_eq k.pub_key_data key then some k else later

  unfoldable pub cache_add : CachedPubKey E → List (CachedPubKey E) → List (CachedPubKey E)
  cache_add candidate keys =
      if ltb (length keys) max_cached_pub_keys then keys ++ (candidate ∷ []) else keys

module _ {K E IP Net : Type 0} where
  -- One entry of the list: `none` sends the loop on.
  unfoldable pub source_entry : Server K E IP Net → IP → Bytes → Option (Option (Refusal E))
  source_entry S ip source = elim (S.parse_ip source) [
    | some allowed ↦ if S.equal_ip allowed ip then some none else none
    | none ↦ elim (S.parse_cidr source) [
      | none ↦ some (some (bad_source source))
      | some net ↦ if S.contains net ip then some none else none
    ]
  ]

  unfoldable pub source_loop : Server K E IP Net → IP → List Bytes → Option (Refusal E)
  unfolding source_entry
  source_loop S ip [] = some address_refused
  source_loop S ip (source ∷ sources) = elim (source_entry S ip source) [
    | some answer ↦ answer
    | none ↦ source_loop S ip sources
  ]

  unfoldable pub check_source_address : Server K E IP Net → NetAddr IP → Bytes → Option (Refusal E)
  unfolding source_loop split
  check_source_address S nowhere sources = some no_address
  check_source_address S elsewhere sources = some no_tcp_address
  check_source_address S (tcp ip) sources = source_loop S ip (split sources)

  -- A grant of the callback, held against its source-address option.
  unfoldable pub restrict :
      Server K E IP Net → Result E (Option Permissions) → Result (Refusal E) (Option Permissions)
  unfolding check_source_address option_value
  restrict S (err e) = err (of_callback e)
  restrict S (ok none) = ok none
  restrict S (ok (some perms)) =
      elim (option_value source_address_critical_option perms.critical_options) [
        | [] ↦ ok (some perms)
        | b ∷ bs ↦ elim (check_source_address S S.remote_addr (b ∷ bs)) [
          | none ↦ ok (some perms)
          | some e ↦ err e
        ]
      ]
