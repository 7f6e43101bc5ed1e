-- ===== src/Negotiate/Defaults.antt =====
-- What Config.SetDefaults leaves behind.
use xcryptossh.Prelude.{
  ℕ, ◌≡◌, ◌≤◌, ◌⊎◌, inl, inr, refl, List, [], ◌∷◌, none, some, Bytes, true, All, arith, Bool-cases,
  ◌≢◌, ap, bytes_eq,
}
use xcryptossh.Negotiate.{
  offers, cipher_modes, Config, or_default, supported_ciphers, supported_kex_algos, supported_macs,
  known_ciphers, appended, set_defaults, max_int64, clamp_rekey,
}

-- Only ciphers with a mode are left.
known_ciphers_known : (cs : List Bytes) → All (λ c. offers cipher_modes c ≡ true) (known_ciphers cs)
unfolding known_ciphers
known_ciphers_known [] = tt
known_ciphers_known (c ∷ cs) = elim (Bool-cases (offers cipher_modes c)) [
  | inl e ↦ rw e (e, known_ciphers_known cs)
  | inr e ↦ rw e (known_ciphers_known cs)
]

known_ciphers_all :
    (cs : List Bytes) → All (λ c. offers cipher_modes c ≡ true) cs → known_ciphers cs ≡ cs
unfolding known_ciphers
known_ciphers_all [] h = refl
known_ciphers_all (c ∷ cs) h = rw h.0 (ap (λ l. c ∷ l) (known_ciphers_all cs h.1))

or_default-appended : (d cs : List Bytes) → cs ≢ [] ⊎ (d ≡ []) → or_default d (appended cs) ≡ cs
or_default-appended d [] (inl h) = absurd (h refl)
or_default-appended d [] (inr e) = e
or_default-appended d (c ∷ cs) h = refl

-- After SetDefaults the rekey threshold is 0, for the cipher's own, or between 256 and the largest
-- int64; every cipher has a mode; and key exchanges and MACs are set.
pub set_defaults_sound :
    (c : Config)
    → (((set_defaults c).rekey_threshold ≡ 0)
        ⊎ ((256 ≤ (set_defaults c).rekey_threshold)
            × ((set_defaults c).rekey_threshold ≤ max_int64)))
      × All (λ x. offers cipher_modes x ≡ true) (or_default [] (set_defaults c).ciphers)
      × ((set_defaults c).key_exchanges ≢ none)
      × ((set_defaults c).macs ≢ none)
unfolding set_defaults
set_defaults_sound c = (
  grind arith,
  rw (or_default-appended [] _ (inr refl)) (known_ciphers_known _),
  λ e. cc,
  λ e. cc,
)

clamp_rekey-clamp_rekey : (t : ℕ) → clamp_rekey (clamp_rekey t) ≡ clamp_rekey t
clamp_rekey-clamp_rekey t = ground arith

-- A second call of SetDefaults changes nothing, if any of the ciphers asked for has a mode.
pub set_defaults-set_defaults :
    (c : Config)
    → known_ciphers (or_default supported_ciphers c.ciphers) ≢ []
    → set_defaults (set_defaults c) ≡ set_defaults c
unfolding set_defaults
set_defaults-set_defaults c h =
    let ks : List Bytes = known_ciphers (or_default supported_ciphers c.ciphers) in
    let again : known_ciphers (or_default supported_ciphers (appended ks)) ≡ ks =
      rw (or_default-appended supported_ciphers ks (inl h))
        (known_ciphers_all ks (known_ciphers_known _)) in
    λ i. record {
      has_rand = true;
      rekey_threshold = clamp_rekey-clamp_rekey c.rekey_threshold i;
      key_exchanges = some (or_default supported_kex_algos c.key_exchanges);
      ciphers = appended (again i);
      macs = some (or_default supported_macs c.macs);
      has_halt = true;
    }

supported_are_known : known_ciphers supported_ciphers ≡ supported_ciphers
unfolding known_ciphers offers bytes_eq
supported_are_known = refl

-- Where none of the ciphers asked for has a mode, the first call of SetDefaults leaves a nil
-- slice, and a second call puts in all the default ciphers.
pub set_defaults_unknown :
    (c : Config)
    → known_ciphers (or_default supported_ciphers c.ciphers) ≡ []
    → ((set_defaults c).ciphers ≡ none)
      × ((set_defaults (set_defaults c)).ciphers ≡ some supported_ciphers)
unfolding set_defaults
set_defaults_unknown c h = (rw h refl, rw (h, supported_are_known) refl)
