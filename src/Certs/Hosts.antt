-- ===== src/Certs/Hosts.antt =====
-- The callback that `New` of knownhosts/knownhosts.go makes: CheckHostKey of certs.go with the three
-- methods of the database.
use xcryptossh.Prelude.{
  Some, ℕ, ◌^◌, ◌<◌, ◌≡◌, inl, inr, refl, sym, ◌∙◌, List, [], ◌∷◌, Option, none, some, Bytes, Bool,
  true, false, ◌&&◌, Bool-cases, if_false, ==_iff,
}
use xcryptossh.Hosts.Addresses.{split_host_port}
use xcryptossh.Hosts.Database.{
  HostKeys, KeyLine, HostKeyDb, CheckError, key_eq, line_match, check, authority_line,
  is_host_authority, is_revoked,
}
use xcryptossh.Certs.{
  Certificate, PublicKey, certificate, CertError, CertChecker, host_cert, check_host,
  check_host_key,
}
use xcryptossh.Certs.Checks.{IsAccepted, check_cert_iff, then_check_iff, refuse_iff, not-false}

module _ (ks : HostKeys) where
  open ks use {Key}

  -- What the check takes from elsewhere: certificates as bytes, the clock and the signatures.
  pub record Surroundings : Type 0 where
    pub marshal_cert : Certificate Key → Bytes
    pub now : ℕ
    pub verifies : Certificate Key → Bool

  abbrev pub new_checker : Surroundings → HostKeyDb Key → CertChecker Key (CheckError Key)
  new_checker x db = record {
    supported_critical_options = [];
    is_user_authority = λ k. false;
    is_host_authority = is_host_authority ks db;
    now = x.now;
    user_key_fallback = none;
    host_key_fallback = some (check ks db);
    is_revoked = λ c. is_revoked ks db (x.marshal_cert c);
    verifies = x.verifies;
  }

  unfoldable pub new_callback :
      Surroundings
      → HostKeyDb Key
      → Bytes
      → Bytes
      → PublicKey Key
      → Option (CertError (CheckError Key))
  new_callback x db = check_host_key (new_checker x db)

  -- A line for certificate authorities that has the key and matches the address.
  abbrev pub IsAuthorityLine : Key → Bytes × Bytes → KeyLine Key → Type 0
  IsAuthorityLine k (host, port) l =
      (l.cert ≡ true)
      × (key_eq ks l.known.key k ≡ true)
      × (line_match ks l (record { host = host; port = port } ∷ []) ≡ true)

  and_three : (a b c : Bool) → (a && b && c) ≡ true → (a ≡ true) × (b ≡ true) × (c ≡ true)
  and_three true true c h = (refl, refl, h)
  and_three true false c h = cc
  and_three false b c h = cc

  authority_line_found :
      (k : Key) (host port : Bytes) (ls : List (KeyLine Key))
      → authority_line ks k (record { host = host; port = port }) ls ≡ true
      → Some (IsAuthorityLine k (host, port)) ls
  unfolding authority_line
  authority_line_found k host port [] h = cc
  authority_line_found k host port (l ∷ ls) h = elim (Bool-cases test) [
    | inl here ↦ inl (and_three _ _ _ here)
    | inr later ↦ inr (authority_line_found k host port ls (sym (if_false _ _ later) ∙ h))
  ]
    where
      test : Bool
      test =
          l.cert
          && key_eq ks l.known.key k
          && line_match ks l (record { host = host; port = port } ∷ [])

  -- Where the callback accepts a host certificate, with the clock between 1970 and the end of `int64`: it is
  -- of the type for hosts, the address has a host and a port, some line marked @cert-authority has
  -- the key that signed it and matches them, and CheckCert's conditions hold for the host as its principal, where
  -- revoked means that a revoked line holds the certificate, and no critical option but source-address is taken.
  pub new_callback-IsAccepted :
      (x : Surroundings) (db : HostKeyDb Key) (addr remote : Bytes) (cert : Certificate Key)
      → x.now < 2 ^ 63
      → new_callback x db addr remote (certificate cert) ≡ none
      → (cert.cert_type ≡ host_cert)
        × ((parts : Bytes × Bytes) × (split_host_port addr ≡ some parts)
            × Some (IsAuthorityLine cert.signature_key parts) db.lines
            × IsAccepted (new_checker x db) parts.0 cert)
  unfolding new_callback check_host_key is_host_authority
  new_callback-IsAccepted x db addr remote cert clock h =
      let (h0, r0) = (then_check_iff _ _).0 h in
      let (h1, h2) = (then_check_iff _ _).0 r0 in
      (
        (==_iff _ _).0 (not-false _ ((refuse_iff _ _).0 h0)),
        parts_of (split_host_port addr) refl (not-false _ ((refuse_iff _ _).0 h1)) h2,
      )
    where
      parts_of :
          (o : Option (Bytes × Bytes))
          → split_host_port addr ≡ o
          → elim o as (λ _. Bool) [
            | none ↦ false
            | some (host, port) ↦
                authority_line ks cert.signature_key (record { host = host; port = port }) db.lines
          ]
            ≡ true
          → check_host (new_checker x db) cert o ≡ none
          → (parts : Bytes × Bytes) × (split_host_port addr ≡ some parts)
            × Some (IsAuthorityLine cert.signature_key parts) db.lines
            × IsAccepted (new_checker x db) parts.0 cert
      parts_of none e signs passes = cc
      parts_of (some (host, port)) e signs passes = (
        (host, port),
        e,
        authority_line_found cert.signature_key host port db.lines signs,
        (check_cert_iff (new_checker x db) host cert clock).0 passes,
      )
