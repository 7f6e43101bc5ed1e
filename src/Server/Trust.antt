-- ===== src/Server/Trust.antt =====
-- What lies behind a grant of one attempt: each method of Server.Attempts, read backwards.
use xcryptossh.Prelude.{
  ℕ, zero, suc, ◌≡◌, refl, subst, [], ◌∷◌, Option, none, some, Bytes, Bool, true, false, ◌==◌,
  if◌then◌else◌, Result, ok, err, All,
}
use xcryptossh.Wire.Strings.{parse_string}
use xcryptossh.Server.{
  Permissions, Signature, Refusal, Failure, Server, Session, is_acceptable_algo, restrict,
}
use xcryptossh.Server.Address.{FromAllowed, restrict-FromAllowed}
use xcryptossh.Server.Cache.{IsFaithful, find_candidate_lem}
use xcryptossh.Server.Attempts.{
  AuthRequest, Attempt, fatal, granted, refused, check_password, outcome, settled, check_public_key,
  check_key, use_candidate, find_candidate, check_signature, answer_query,
  build_data_signed_for_auth, parse_signature,
}

module _ {E : Type 0} where
  pub record GrantsPassword (f : Bytes → Result E (Option Permissions)) (payload : Bytes)
      (perms : Option Permissions) : Type 0 where
    pub body : Bytes
    pub password : Bytes
    pub marked : payload ≡ 0 ∷ body
    pub parsed : parse_string body ≡ some (password, [])
    pub accepted : f password ≡ ok perms

  pub outcome-granted :
      (r : Result E (Option Permissions)) {perms : Option Permissions}
      → outcome r ≡ granted perms
      → r ≡ ok perms
  outcome-granted (ok p) h = cc
  outcome-granted (err e) h = cc

  settled-granted :
      (r : Result (Refusal E) (Option Permissions)) {perms : Option Permissions}
      → settled r ≡ granted perms
      → r ≡ ok perms
  settled-granted (ok p) h = cc
  settled-granted (err e) h = cc

  pub check_password-granted :
      (f : Bytes → Result E (Option Permissions)) (payload : Bytes) {perms : Option Permissions}
      → check_password f payload ≡ granted perms
      → GrantsPassword f payload perms
  unfolding check_password
  check_password-granted f [] h = cc
  check_password-granted f (suc b ∷ body) h = cc
  check_password-granted f (zero ∷ body) {perms} h = go (parse_string body) refl h
    where
      go :
          (o : Option (Bytes × Bytes))
          → parse_string body ≡ o
          → elim o as (λ _. Attempt E) [
            | none ↦ fatal (Failure.of_packet (xcryptossh.Errors.Error.parse_error 50))
            | some (pw, []) ↦ outcome (f pw)
            | some (pw, b ∷ bs) ↦ fatal (Failure.of_packet (xcryptossh.Errors.Error.parse_error 50))
          ]
            ≡ granted perms
          → GrantsPassword f (zero ∷ body) perms
      go none e g = cc
      go (some (pw, [])) e g = record {
        body = body;
        password = pw;
        marked = refl;
        parsed = e;
        accepted = outcome-granted (f pw) g;
      }
      go (some (pw, b ∷ bs)) e g = cc

module _ {K E IP Net : Type 0} (S : Server K E IP Net) where
  -- A grant by public key: the parts of the payload behind the flag, a key that parses, a signature
  -- of an acceptable format that verifies over the data for this session and request, and a
  -- callback that lets the user in with the key from this address.
  pub record GrantsKey (f : Bytes → K → Result E (Option Permissions)) (req : AuthRequest)
      (perms : Option Permissions) : Type 0 where
    pub flag : ℕ
    pub body : Bytes
    pub algo : Bytes
    pub after_algo : Bytes
    pub key_data : Bytes
    pub after_key : Bytes
    pub key : K
    pub sig : Signature
    pub marked : req.payload ≡ flag ∷ body
    pub is_signed : (flag == 0) ≡ false
    pub algo_parsed : parse_string body ≡ some (algo, after_algo)
    pub algo_accepted : is_acceptable_algo algo ≡ true
    pub key_parsed : parse_string after_algo ≡ some (key_data, after_key)
    pub is_key : S.parse_public_key key_data ≡ ok key
    pub sig_parsed : parse_signature after_key ≡ some (sig, [])
    pub sig_accepted : is_acceptable_algo sig.format ≡ true
    pub verified :
        S.verify key (build_data_signed_for_auth S.session_id req algo key_data) sig ≡ none
    pub accepted : f req.user key ≡ ok perms
    pub from_allowed : FromAllowed S perms

  pub record GrantsSignature (req : AuthRequest) (algo key_data : Bytes) (key : K) (payload : Bytes)
      (result : Result (Refusal E) (Option Permissions)) (perms : Option Permissions) : Type 0 where
    pub sig : Signature
    pub parsed : parse_signature payload ≡ some (sig, [])
    pub format : is_acceptable_algo sig.format ≡ true
    pub verified :
        S.verify key (build_data_signed_for_auth S.session_id req algo key_data) sig ≡ none
    pub accepted : result ≡ ok perms

  check_signature-granted :
      (req : AuthRequest) (algo key_data : Bytes) (key : K) (payload : Bytes)
      (result : Result (Refusal E) (Option Permissions)) {perms : Option Permissions}
      → check_signature S req algo key_data key payload result ≡ granted perms
      → GrantsSignature req algo key_data key payload result perms
  unfolding check_signature
  check_signature-granted req algo key_data key payload result {perms} h =
      go (parse_signature payload) refl h
    where
      verdict : Signature → Option E → Attempt E
      verdict sig v = elim v [ none ↦ settled result | some e ↦ fatal (Failure.of_key e) ]

      check : Signature → Attempt E
      check sig =
          if is_acceptable_algo sig.format
          then verdict sig
              (S.verify key (build_data_signed_for_auth S.session_id req algo key_data) sig)
          else refused Refusal.not_passed

      verified :
          (sig : Signature) (v : Option E)
          → verdict sig v ≡ granted perms
          → (v ≡ none) × (result ≡ ok perms)
      verified sig none g = (refl, settled-granted result g)
      verified sig (some e) g = cc

      checked :
          (sig : Signature) (b : Bool)
          → is_acceptable_algo sig.format ≡ b
          → (if b
              then verdict sig
                  (S.verify key (build_data_signed_for_auth S.session_id req algo key_data) sig)
              else refused Refusal.not_passed)
            ≡ granted perms
          → parse_signature payload ≡ some (sig, [])
          → GrantsSignature req algo key_data key payload result perms
      checked sig false e g p = cc
      checked sig true e g p =
          let (v, r) =
            verified sig
              (S.verify key (build_data_signed_for_auth S.session_id req algo key_data) sig) g in
          record { sig = sig; parsed = p; format = e; verified = v; accepted = r }

      go :
          (o : Option (Signature × Bytes))
          → parse_signature payload ≡ o
          → elim o as (λ _. Attempt E) [
            | none ↦ fatal (Failure.of_packet (xcryptossh.Errors.Error.parse_error 50))
            | some (sig, b ∷ bs) ↦
                fatal (Failure.of_packet (xcryptossh.Errors.Error.parse_error 50))
            | some (sig, []) ↦ check sig
          ]
            ≡ granted perms
          → GrantsSignature req algo key_data key payload result perms
      go none e g = cc
      go (some (sig, b ∷ bs)) e g = cc
      go (some (sig, [])) e g = checked sig (is_acceptable_algo sig.format) refl g e

module _ {K E IP Net : Type 0} (S : Server K E IP Net)
    (f : Bytes → K → Result E (Option Permissions)) where
  answer_query-not_granted :
      (algo key_data payload : Bytes) (result : Result (Refusal E) (Option Permissions))
      (perms : Option Permissions)
      → ¬ (answer_query algo key_data payload result ≡ granted perms)
  unfolding answer_query
  answer_query-not_granted algo key_data (b ∷ bs) result perms h = cc
  answer_query-not_granted algo key_data [] (ok p) perms h = cc
  answer_query-not_granted algo key_data [] (err e) perms h = cc

  use_candidate-granted :
      (req : AuthRequest) (is_query : Bool) (algo key_data : Bytes) (key : K) (payload : Bytes)
      (found : Result (Refusal E) (Option Permissions) × Session E) {perms : Option Permissions}
      → (use_candidate S req is_query algo key_data key payload found).0 ≡ granted perms
      → (is_query ≡ false) × GrantsSignature S req algo key_data key payload found.0 perms
  unfolding use_candidate
  use_candidate-granted req true algo key_data key payload found {perms} h =
      absurd (answer_query-not_granted algo key_data payload found.0 perms h)
  use_candidate-granted req false algo key_data key payload found h =
      (refl, check_signature-granted S req algo key_data key payload found.0 h)

  pub record GrantsBody (req : AuthRequest) (is_query : Bool) (algo payload : Bytes)
      (perms : Option Permissions) : Type 0 where
    pub key_data : Bytes
    pub after_key : Bytes
    pub key : K
    pub is_signed : is_query ≡ false
    pub key_parsed : parse_string payload ≡ some (key_data, after_key)
    pub is_key : S.parse_public_key key_data ≡ ok key
    pub by_signature :
        GrantsSignature S req algo key_data key after_key (restrict S (f req.user key)) perms

  check_key-granted :
      (req : AuthRequest) (is_query : Bool) (algo payload : Bytes) (s : Session E)
      {perms : Option Permissions}
      → All (IsFaithful S f) s.cache
      → (check_key S f req is_query algo payload s).0 ≡ granted perms
      → GrantsBody req is_query algo payload perms
  unfolding check_key
  check_key-granted req is_query algo payload s {perms} faithful h =
      go (parse_string payload) refl h
    where
      used : Bytes → Bytes → K → Attempt E × Session E
      used key_data rest key =
          use_candidate S req is_query algo key_data key rest
            (find_candidate S f req.user key_data key s)

      keyed : Bytes → Bytes → Result E K → Attempt E × Session E
      keyed key_data rest r = elim r [
        | err e ↦ (fatal (Failure.of_key e), s)
        | ok key ↦ used key_data rest key
      ]

      with_key :
          (key_data rest : Bytes)
          → parse_string payload ≡ some (key_data, rest)
          → (r : Result E K) → S.parse_public_key key_data ≡ r
          → (keyed key_data rest r).0 ≡ granted perms
          → GrantsBody req is_query algo payload perms
      with_key key_data rest p (err e) q g = cc
      with_key key_data rest p (ok key) q g =
          let (signed, sound) =
            use_candidate-granted req is_query algo key_data key rest
              (find_candidate S f req.user key_data key s) g in
          record {
            key_data = key_data;
            after_key = rest;
            key = key;
            is_signed = signed;
            key_parsed = p;
            is_key = q;
            by_signature =
                subst
                  (λ (r : Result (Refusal E) (Option Permissions)).
                    GrantsSignature S req algo key_data key rest r perms)
                  (find_candidate_lem S f req.user key_data key s q faithful).0 sound;
          }

      go :
          (o : Option (Bytes × Bytes))
          → parse_string payload ≡ o
          → (elim o as (λ _. Attempt E × Session E) [
            | none ↦ (fatal (Failure.of_packet (xcryptossh.Errors.Error.parse_error 50)), s)
            | some (key_data, rest) ↦ keyed key_data rest (S.parse_public_key key_data)
          ]).0
            ≡ granted perms
          → GrantsBody req is_query algo payload perms
      go none e g = cc
      go (some (key_data, rest)) e g = with_key key_data rest e (S.parse_public_key key_data) refl g

  pub check_public_key-granted :
      (req : AuthRequest) (s : Session E) {perms : Option Permissions}
      → (payload : Bytes) → req.payload ≡ payload
      → All (IsFaithful S f) s.cache
      → (check_public_key S f req payload s).0 ≡ granted perms
      → GrantsKey S f req perms
  unfolding check_public_key
  check_public_key-granted req s [] eq faithful h = cc
  check_public_key-granted req s {perms} (flag ∷ body) eq faithful h = go (parse_string body) refl h
    where
      keyed : Bytes → Bytes → Attempt E × Session E
      keyed algo rest = check_key S f req (flag == 0) algo rest s

      tested : Bytes → Bytes → Bool → Attempt E × Session E
      tested algo rest b = if b then keyed algo rest else (refused (Refusal.bad_algo algo), s)

      accepted :
          (algo rest : Bytes)
          → parse_string body ≡ some (algo, rest)
          → (b : Bool) → is_acceptable_algo algo ≡ b
          → (tested algo rest b).0 ≡ granted perms
          → GrantsKey S f req perms
      accepted algo rest p false q g = cc
      accepted algo rest p true q g =
          let grant = check_key-granted req (flag == 0) algo rest s faithful g in
          let restricted =
            restrict-FromAllowed S (f req.user grant.key) grant.by_signature.accepted in
          record {
            flag = flag;
            body = body;
            algo = algo;
            after_algo = rest;
            key_data = grant.key_data;
            after_key = grant.after_key;
            key = grant.key;
            sig = grant.by_signature.sig;
            marked = eq;
            is_signed = grant.is_signed;
            algo_parsed = p;
            algo_accepted = q;
            key_parsed = grant.key_parsed;
            is_key = grant.is_key;
            sig_parsed = grant.by_signature.parsed;
            sig_accepted = grant.by_signature.format;
            verified = grant.by_signature.verified;
            accepted = restricted.0;
            from_allowed = restricted.1;
          }

      go :
          (o : Option (Bytes × Bytes))
          → parse_string body ≡ o
          → (elim o as (λ _. Attempt E × Session E) [
            | none ↦ (fatal (Failure.of_packet (xcryptossh.Errors.Error.parse_error 50)), s)
            | some (algo, rest) ↦ tested algo rest (is_acceptable_algo algo)
          ]).0
            ≡ granted perms
          → GrantsKey S f req perms
      go none e g = cc
      go (some (algo, rest)) e g = accepted algo rest e (is_acceptable_algo algo) refl g
