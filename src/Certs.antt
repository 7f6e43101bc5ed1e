-- ===== src/Certs.antt =====
-- CertChecker of certs.go: CheckCert, CheckHostKey and Authenticate. Keys are a parameter, and so is
-- whether a certificate's signature is that of its SignatureKey.
pub mod Checks
pub mod Hosts
use xcryptossh.Prelude.{
  ℕ, ◌-◌, ◌^◌, List, [], ◌∷◌, Option, none, some, Bytes, Bool, true, false, ◌==◌, ltb, leb, not,
  ◌&&◌, ◌||◌, if◌then◌else◌, bytes_eq, codes,
}
use xcryptossh.Hosts.Addresses.{split_host_port}

pub record Certificate (K : Type 0) : Type 0 where
  pub nonce : Bytes
  pub key : K
  pub serial : ℕ
  pub cert_type : ℕ
  pub key_id : Bytes
  pub valid_principals : List Bytes
  pub valid_after : ℕ
  pub valid_before : ℕ
  pub critical_options : List (Bytes × Bytes)
  pub extensions : List (Bytes × Bytes)
  pub reserved : Bytes
  pub signature_key : K
  pub signature : Option Bytes

pub data PublicKey (K : Type 0) : Type 0 where
  plain : K → PublicKey K
  certificate : Certificate K → PublicKey K

-- `F` is the error of the fallback for keys that are no certificates.
pub data CertError (F : Type 0) : Type 0 where
  revoked_cert : ℕ → CertError F
  unsupported_option : Bytes → CertError F
  wrong_principal not_yet_valid expired bad_signature : CertError F
  wrong_type : ℕ → CertError F
  no_authority bad_address no_fallback : CertError F
  of_fallback : F → CertError F

-- A callback that is nil where the code allows it: is_revoked is then always false, and a fallback
-- none. `now` is the clock in seconds since 1970, and `verifies` whether Verify returns no error.
pub record CertChecker (K F : Type 0) : Type 0 where
  pub supported_critical_options : List Bytes
  pub is_user_authority : K → Bool
  pub is_host_authority : K → Bytes → Bool
  pub now : ℕ
  pub user_key_fallback : Option (Bytes → K → Option F)
  pub host_key_fallback : Option (Bytes → Bytes → K → Option F)
  pub is_revoked : Certificate K → Bool
  pub verifies : Certificate K → Bool

abbrev pub user_cert : ℕ
user_cert = 1

abbrev pub host_cert : ℕ
host_cert = 2

abbrev pub cert_time_infinity : ℕ
cert_time_infinity = 2 ^ 64 - 1

abbrev pub source_address_critical_option : Bytes
source_address_critical_option = codes "source-address"

-- The search loops over a list of strings.
abbrev pub lists : Bytes → List Bytes → Bool
lists a [] = false
lists a (x ∷ xs) = bytes_eq x a || lists a xs

-- An `int64` from a `uint64` is negative from 2 ^ 63 on.
abbrev pub is_early : ℕ → ℕ → Bool
is_early now after = leb (2 ^ 63) after || ltb now after

abbrev pub is_late : ℕ → ℕ → Bool
is_late now before = not (before == cert_time_infinity) && (leb before now || leb (2 ^ 63) before)

-- A certificate that lists no principals is valid for all.
abbrev pub check_principal : Bytes → List Bytes → Bool
check_principal principal [] = true
check_principal principal (p ∷ ps) = lists principal (p ∷ ps)

module _ {F : Type 0} where
  -- The first option that nobody enforces.
  unfoldable pub check_options : List Bytes → List (Bytes × Bytes) → Option (CertError F)
  check_options supported [] = none
  check_options supported ((opt, value) ∷ opts) =
      let later = check_options supported opts in
      if bytes_eq opt source_address_critical_option || lists opt supported
      then later
      else some (unsupported_option opt)

  abbrev pub then_check : Option (CertError F) → Option (CertError F) → Option (CertError F)
  then_check (some e) next = some e
  then_check none next = next

  abbrev pub refuse : Bool → CertError F → Option (CertError F)
  refuse true e = some e
  refuse false e = none

  abbrev pub run_fallback : Option F → Option (CertError F)
  run_fallback none = none
  run_fallback (some e) = some (of_fallback e)

module _ {K F : Type 0} where
  unfoldable pub check_cert : CertChecker K F → Bytes → Certificate K → Option (CertError F)
  unfolding check_options
  check_cert c principal cert = then_check (refuse (c.is_revoked cert) (revoked_cert cert.serial)) (
      then_check (check_options c.supported_critical_options cert.critical_options) (
        then_check (refuse (not (check_principal principal cert.valid_principals)) wrong_principal)
          (then_check (refuse (is_early c.now cert.valid_after) not_yet_valid) (
            then_check (refuse (is_late c.now cert.valid_before) expired)
              (refuse (not (c.verifies cert)) bad_signature)))))

  abbrev pub check_host :
      CertChecker K F → Certificate K → Option (Bytes × Bytes) → Option (CertError F)
  check_host c cert none = some bad_address
  check_host c cert (some (hostname, port)) = check_cert c hostname cert

  abbrev pub fall_back_host :
      Option (Bytes → Bytes → K → Option F) → Bytes → Bytes → K → Option (CertError F)
  fall_back_host none addr remote key = some no_fallback
  fall_back_host (some f) addr remote key = run_fallback (f addr remote key)

  unfoldable pub check_host_key :
      CertChecker K F → Bytes → Bytes → PublicKey K → Option (CertError F)
  unfolding check_cert split_host_port
  check_host_key c addr remote (plain key) = fall_back_host c.host_key_fallback addr remote key
  check_host_key c addr remote (certificate cert) =
      then_check (refuse (not (cert.cert_type == host_cert)) (wrong_type cert.cert_type)) (
        then_check (refuse (not (c.is_host_authority cert.signature_key addr)) no_authority)
          (check_host c cert (split_host_port addr)))

  abbrev pub fall_back_user : Option (Bytes → K → Option F) → Bytes → K → Option (CertError F)
  fall_back_user none user key = some no_fallback
  fall_back_user (some f) user key = run_fallback (f user key)

  -- Authenticate, less the permissions: they are the certificate's own.
  unfoldable pub authenticate : CertChecker K F → Bytes → PublicKey K → Option (CertError F)
  unfolding check_cert
  authenticate c user (plain key) = fall_back_user c.user_key_fallback user key
  authenticate c user (certificate cert) =
      then_check (refuse (not (cert.cert_type == user_cert)) (wrong_type cert.cert_type)) (
        then_check (refuse (not (c.is_user_authority cert.signature_key)) no_authority)
          (check_cert c user cert))
