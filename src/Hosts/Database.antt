-- ===== src/Hosts/Database.antt =====
-- The host key database of knownhosts/knownhosts.go. Public keys are used by their type and their
-- marshalled form alone; SHA-1's HMAC and base64 are the standard library's. All are parameters.
use xcryptossh.Prelude.{
  ℕ, ◌≡◌, List, [], ◌∷◌, ◌++◌, map, Option, none, some, Bytes, Bool, true, false, ◌&&◌,
  if◌then◌else◌, bytes_eq,
}
use xcryptossh.Hosts.{Addr, HostPattern, patterns_match}
use xcryptossh.Hosts.Addresses.{split_host_port, normalize, addr_string, contains}

-- `hmac salt text`; base64 gives back what was encoded, and its alphabet has no `|`.
pub record HostKeys : Type 1 where
  pub Key : Type 0
  pub key_type : Key → Bytes
  pub marshal : Key → Bytes
  pub parse_key : Bytes → Option Key
  pub hmac : Bytes → Bytes → Bytes
  pub encode64 : Bytes → Bytes
  pub decode64 : Bytes → Option Bytes
  pub decode64-encode64 : (b : Bytes) → decode64 (encode64 b) ≡ some b
  pub encode64_bar : (b : Bytes) → contains b'|' (encode64 b) ≡ false

pub data Matcher : Type 0 where
  patterns : List HostPattern → Matcher
  hashed : Bytes → Bytes → Matcher

pub record KnownKey (K : Type 0) : Type 0 where
  pub key : K
  pub filename : Bytes
  pub line : ℕ

pub record KeyLine (K : Type 0) : Type 0 where
  pub cert : Bool
  pub matcher : Matcher
  pub known : KnownKey K

-- `revoked` is a map from marshalled keys: the entry that was put in last is the first.
pub record HostKeyDb (K : Type 0) : Type 0 where
  pub revoked : List (Bytes × KnownKey K)
  pub lines : List (KeyLine K)

-- An error of `check`. The code collects the wanted keys by walking over a map, in no fixed order.
pub data CheckError (K : Type 0) : Type 0 where
  revoked_key : KnownKey K → CheckError K
  bad_address : Bytes → CheckError K
  key_error : List (KnownKey K) → CheckError K

unfoldable pub lookup {ℓ} : {V : Type ℓ} → Bytes → List (Bytes × V) → Option V
lookup k [] = none
lookup k ((j, v) ∷ m) = let later = lookup k m in if bytes_eq j k then some v else later

abbrev pub is_some {ℓ} : {V : Type ℓ} → Option V → Bool
is_some none = false
is_some (some v) = true

module _ (ks : HostKeys) where
  open ks use {Key, key_type, marshal, hmac}

  abbrev pub key_eq : Key → Key → Bool
  key_eq a b = bytes_eq (marshal a) (marshal b)

  -- hashHost, and hashedHost.match.
  abbrev pub hash_host : Bytes → Bytes → Bytes
  hash_host hostname salt = hmac salt hostname

  unfoldable pub match_hashed : Bytes → Bytes → List Addr → Bool
  match_hashed salt hash [] = false
  match_hashed salt hash (a ∷ addrs) =
      let later = match_hashed salt hash addrs in
      if bytes_eq (hash_host (normalize (addr_string a)) salt) hash then true else later

  abbrev pub matcher_match : Matcher → List Addr → Bool
  matcher_match (patterns ps) addrs = patterns_match ps addrs
  matcher_match (hashed salt hash) addrs = match_hashed salt hash addrs

  abbrev pub line_match : KeyLine Key → List Addr → Bool
  line_match l addrs = matcher_match l.matcher addrs

  abbrev pub first_known :
      Bytes → KnownKey Key → List (Bytes × KnownKey Key) → List (Bytes × KnownKey Key)
  first_known typ k known = elim (lookup typ known) [
    | none ↦ known ++ ((typ, k) ∷ [])
    | some old ↦ known
  ]

  -- The first key of each type, of the lines that match.
  unfoldable pub known_keys :
      List Addr → List (KeyLine Key) → List (Bytes × KnownKey Key) → List (Bytes × KnownKey Key)
  known_keys addrs [] known = known
  known_keys addrs (l ∷ ls) known =
      known_keys addrs ls
        (if line_match l addrs then first_known (key_type l.known.key) l.known known else known)

  abbrev pub wanted : List (Bytes × KnownKey Key) → CheckError Key
  wanted known = key_error (map (λ p. p.1) known)

  -- The last test of checkAddrs.
  abbrev pub check_type :
      Key → List (Bytes × KnownKey Key) → Option (KnownKey Key) → Option (CheckError Key)
  check_type k known none = some (wanted known)
  check_type k known (some old) = if key_eq old.key k then none else some (wanted known)

  abbrev pub check_known : Key → List (Bytes × KnownKey Key) → Option (CheckError Key)
  check_known k [] = some (key_error [])
  check_known k (p ∷ known) = check_type k (p ∷ known) (lookup (key_type k) (p ∷ known))

  unfoldable pub check_addrs : HostKeyDb Key → List Addr → Key → Option (CheckError Key)
  unfolding lookup known_keys
  check_addrs db addrs k = check_known k (known_keys addrs db.lines [])

  abbrev pub check_second :
      HostKeyDb Key → Bytes → Addr → Key → Option (Bytes × Bytes) → Option (CheckError Key)
  check_second db address a k none = some (bad_address address)
  check_second db address a k (some (host, port)) =
      check_addrs db (a ∷ record { host = host; port = port } ∷ []) k

  abbrev pub check_named : HostKeyDb Key → Bytes → Addr → Key → Option (CheckError Key)
  check_named db [] a k = check_addrs db (a ∷ []) k
  check_named db (c ∷ address) a k =
      check_second db (c ∷ address) a k (split_host_port (c ∷ address))

  abbrev pub check_remote :
      HostKeyDb Key → Bytes → Bytes → Key → Option (Bytes × Bytes) → Option (CheckError Key)
  check_remote db address remote k none = some (bad_address remote)
  check_remote db address remote k (some (host, port)) =
      check_named db address (record { host = host; port = port }) k

  abbrev pub check_revoked :
      HostKeyDb Key → Bytes → Bytes → Key → Option (KnownKey Key) → Option (CheckError Key)
  check_revoked db address remote k (some r) = some (revoked_key r)
  check_revoked db address remote k none = check_remote db address remote k (split_host_port remote)

  -- `remote` is the text of the network address.
  unfoldable pub check : HostKeyDb Key → Bytes → Bytes → Key → Option (CheckError Key)
  unfolding lookup check_addrs
  check db address remote k = check_revoked db address remote k (lookup (marshal k) db.revoked)

  unfoldable pub authority_line : Key → Addr → List (KeyLine Key) → Bool
  authority_line k a [] = false
  authority_line k a (l ∷ ls) =
      let later = authority_line k a ls in
      if l.cert && key_eq l.known.key k && line_match l (a ∷ []) then true else later

  unfoldable pub is_host_authority : HostKeyDb Key → Key → Bytes → Bool
  unfolding authority_line split_host_port
  is_host_authority db k address = elim (split_host_port address) [
    | none ↦ false
    | some (host, port) ↦ authority_line k (record { host = host; port = port }) db.lines
  ]

  -- `cert` is the marshalled certificate.
  abbrev pub is_revoked : HostKeyDb Key → Bytes → Bool
  is_revoked db cert = is_some (lookup cert db.revoked)
