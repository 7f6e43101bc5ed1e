-- ===== src/Certs/Checks.antt =====
-- When CheckCert of certs.go accepts a certificate.
use xcryptossh.Prelude.{
  ℕ, ◌^◌, ◌<◌, ◌≤◌, ◌≡◌, ◌⊎◌, ◌↔◌, inl, inr, refl, sym, ap, ◌∙◌, List, [], ◌∷◌, Option, none, some,
  Bytes, Bool, true, false, ◌==◌, not, ◌||◌, bytes_eq, bytes_eq_iff, Bool-cases, if_true, if_false,
  All, arith,
}
use xcryptossh.Certs.{
  Certificate, CertError, CertChecker, lists, is_early, is_late, cert_time_infinity,
  source_address_critical_option, check_options, check_principal, then_check, refuse, check_cert,
}

abbrev pub IsAmong : Bytes → List Bytes → Type 0
IsAmong a [] = ⊥
IsAmong a (x ∷ xs) = (x ≡ a) ⊎ IsAmong a xs

-- Enforced elsewhere, or by the application.
abbrev pub IsEnforced : List Bytes → Bytes × Bytes → Type 0
IsEnforced supported opt = (opt.0 ≡ source_address_critical_option) ⊎ IsAmong opt.0 supported

lists-IsAmong : (a : Bytes) (l : List Bytes) → lists a l ≡ true → IsAmong a l
lists-IsAmong a [] h = cc
lists-IsAmong a (x ∷ xs) h = elim (Bool-cases (bytes_eq x a)) [
  | inl same ↦ inl ((bytes_eq_iff x a).0 same)
  | inr other ↦ inr (lists-IsAmong a xs (ground arith))
]

IsAmong-lists : (a : Bytes) (l : List Bytes) → IsAmong a l → lists a l ≡ true
IsAmong-lists a [] h = absurd h
IsAmong-lists a (x ∷ xs) (inl same) = ground (arith, (bytes_eq_iff x a).1 same)
IsAmong-lists a (x ∷ xs) (inr later) = ground (arith, IsAmong-lists a xs later)

or_cases : (a b : Bool) → (a || b) ≡ true → (a ≡ true) ⊎ (b ≡ true)
or_cases true b h = inl refl
or_cases false b h = inr h

-- A principal is listed, or none is.
abbrev pub IsValidFor : Bytes → List Bytes → Type 0
IsValidFor principal l = (l ≡ []) ⊎ IsAmong principal l

check_principal-IsValidFor :
    (p : Bytes) (l : List Bytes) → check_principal p l ≡ true → IsValidFor p l
check_principal-IsValidFor p [] h = inl refl
check_principal-IsValidFor p (x ∷ xs) h = inr (lists-IsAmong p (x ∷ xs) h)

IsValidFor-check_principal :
    (p : Bytes) (l : List Bytes) → IsValidFor p l → check_principal p l ≡ true
IsValidFor-check_principal p [] h = refl
IsValidFor-check_principal p (x ∷ xs) (inl empty) = cc
IsValidFor-check_principal p (x ∷ xs) (inr among) = IsAmong-lists p (x ∷ xs) among

-- The clock stands in the window, which is open at its end if it ends with the largest number.
abbrev pub IsInTime : ℕ → ℕ → ℕ → Type 0
IsInTime now after before =
    (after ≤ now) × ((before ≡ cert_time_infinity) ⊎ ((now < before) × (before < 2 ^ 63)))

not_early : (now after : ℕ) → now < 2 ^ 63 → (is_early now after ≡ false) ↔ (after ≤ now)
not_early now after h = (λ e. ground arith, λ e. ground arith)

not_late :
    (now before : ℕ)
    → (is_late now before ≡ false)
      ↔ ((before ≡ cert_time_infinity) ⊎ ((now < before) × (before < 2 ^ 63)))
not_late now before = (there, back)
  where
    there :
        is_late now before ≡ false
        → (before ≡ cert_time_infinity) ⊎ ((now < before) × (before < 2 ^ 63))
    there h = elim (Bool-cases (before == cert_time_infinity)) [
      | inl same ↦ inl (ground arith)
      | inr other ↦ inr (ground arith, ground arith)
    ]

    back :
        (before ≡ cert_time_infinity) ⊎ ((now < before) × (before < 2 ^ 63))
        → is_late now before ≡ false
    back (inl same) = ground arith
    back (inr window) = ground arith

pub not-false : (b : Bool) → not b ≡ false → b ≡ true
not-false true h = refl
not-false false h = cc

module _ {F : Type 0} where
  some_none {ℓ} : {P : Type ℓ} {e : CertError F} → ◌≡◌ {A = Option (CertError F)} (some e) none → P
  some_none h = cc

  pub then_check_iff :
      (a b : Option (CertError F)) → (then_check a b ≡ none) ↔ ((a ≡ none) × (b ≡ none))
  then_check_iff none b = (λ h. (refl, h), λ h. h.1)
  then_check_iff (some e) b = (λ h. some_none h, λ h. h.0)

  pub refuse_iff : (b : Bool) (e : CertError F) → (refuse b e ≡ none) ↔ (b ≡ false)
  refuse_iff true e = (λ h. some_none h, λ h. cc)
  refuse_iff false e = (λ h. refl, λ h. refl)

  options_passed :
      (supported : List Bytes) (opts : List (Bytes × Bytes))
      → check_options {F = F} supported opts ≡ none
      → All (IsEnforced supported) opts
  unfolding check_options
  options_passed supported [] h = tt
  options_passed supported ((opt, value) ∷ opts) h =
      elim (Bool-cases (bytes_eq opt source_address_critical_option || lists opt supported)) [
        | inl known ↦ (one known, options_passed supported opts (sym (if_true _ _ known) ∙ h))
        | inr unknown ↦ some_none (sym (if_false _ _ unknown) ∙ h)
      ]
    where
      one :
          (bytes_eq opt source_address_critical_option || lists opt supported) ≡ true
          → IsEnforced supported (opt, value)
      one known = elim (or_cases _ _ known) [
        | inl source ↦ inl ((bytes_eq_iff opt source_address_critical_option).0 source)
        | inr listed ↦ inr (lists-IsAmong opt supported listed)
      ]

  options_pass :
      (supported : List Bytes) (opts : List (Bytes × Bytes))
      → All (IsEnforced supported) opts
      → check_options {F = F} supported opts ≡ none
  unfolding check_options
  options_pass supported [] h = refl
  options_pass supported ((opt, value) ∷ opts) h =
      if_true _ _ (one h.0) ∙ options_pass supported opts h.1
    where
      one :
          IsEnforced supported (opt, value)
          → (bytes_eq opt source_address_critical_option || lists opt supported) ≡ true
      one (inl source) = ground (arith, (bytes_eq_iff opt source_address_critical_option).1 source)
      one (inr listed) = ground (arith, IsAmong-lists opt supported listed)

module _ {K F : Type 0} where
  -- What a certificate has to be for a principal.
  pub record IsAccepted (c : CertChecker K F) (principal : Bytes) (cert : Certificate K)
      : Type 0 where
    pub not_revoked : c.is_revoked cert ≡ false
    pub enforced : All (IsEnforced c.supported_critical_options) cert.critical_options
    pub named : IsValidFor principal cert.valid_principals
    pub in_time : IsInTime c.now cert.valid_after cert.valid_before
    pub signed : c.verifies cert ≡ true

  -- With the clock between 1970 and the end of `int64`, CheckCert accepts a certificate, a user's
  -- or a host's, for a principal exactly when it is not revoked, each critical option is source-address or supported, it names
  -- the principal or none at all, it is valid from now or earlier and either for ever or until a time that is
  -- later than now and fits an `int64`, and its signature verifies.
  pub check_cert_iff :
      (c : CertChecker K F) (principal : Bytes) (cert : Certificate K)
      → c.now < 2 ^ 63
      → (check_cert c principal cert ≡ none) ↔ IsAccepted c principal cert
  unfolding check_cert
  check_cert_iff c principal cert clock = (there, back)
    where
      there : check_cert c principal cert ≡ none → IsAccepted c principal cert
      there h =
          let (h0, r0) = (then_check_iff _ _).0 h in
          let (h1, r1) = (then_check_iff _ _).0 r0 in
          let (h2, r2) = (then_check_iff _ _).0 r1 in
          let (h3, r3) = (then_check_iff _ _).0 r2 in
          let (h4, h5) = (then_check_iff _ _).0 r3 in
          record {
            not_revoked = (refuse_iff _ _).0 h0;
            enforced = options_passed _ _ h1;
            named = check_principal-IsValidFor _ _ (not-false _ ((refuse_iff _ _).0 h2));
            in_time = (
              (not_early _ _ clock).0 ((refuse_iff _ _).0 h3),
              (not_late _ _).0 ((refuse_iff _ _).0 h4),
            );
            signed = not-false _ ((refuse_iff _ _).0 h5);
          }

      back : IsAccepted c principal cert → check_cert c principal cert ≡ none
      back a = (then_check_iff _ _).1 (
        (refuse_iff _ _).1 a.not_revoked,
        (then_check_iff _ _).1 (
          options_pass _ _ a.enforced,
          (then_check_iff _ _).1 (
            (refuse_iff _ _).1 (ap not (IsValidFor-check_principal _ _ a.named)),
            (then_check_iff _ _).1 (
              (refuse_iff _ _).1 ((not_early _ _ clock).1 a.in_time.0),
              (then_check_iff _ _).1 (
                (refuse_iff _ _).1 ((not_late _ _).1 a.in_time.1),
                (refuse_iff _ _).1 (ap not a.signed),
              ),
            ),
          ),
        ),
      )
