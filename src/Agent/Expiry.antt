-- ===== src/Agent/Expiry.antt =====
-- expireKeysLocked of agent/keyring.go: which keys are left behind a loop that removes from the
-- slice over which it ranges.
use xcryptossh.Prelude.{
  ℕ, ◌+◌, ◌≤◌, ◌<◌, ◌⊎◌, ◌↔◌, inl, inr, zero, suc, ◌≡◌, ◌≢◌, refl, ap, sym, ◌∙◌, subst, List, [],
  ◌∷◌, Option, some, Bytes, Bool, true, false, length, get_elem?, take, arith, bytes_eq,
  bytes_eq→eq, bytes_eq_refl, ℕ_discrete, dec_lt, Bool-cases, if◌then◌else◌, get_elem?-none,
}
use xcryptossh.Agent.{
  PrivKey, Slice, has_expired, expire_one, expire_loop, expire_keys, remove_locked,
}
use xcryptossh.Agent.Removal.{At, Removes, some_injective, cell_at, remove_locked-Removes}

module _ {Signer : Type 0} where
  abbrev pub Among : List (PrivKey Signer) → PrivKey Signer → Type 0
  Among keys k = (p : ℕ) × (get_elem? keys p ≡ some k)

  -- A key with the public key of one that has expired.
  abbrev Doomed : ℕ → List (PrivKey Signer) → PrivKey Signer → Type 0
  Doomed now keys k =
      (e : PrivKey Signer) × Among keys e × (has_expired now e.expire ≡ true) × (k.blob ≡ e.blob)

  abbrev Within : Slice Signer → PrivKey Signer → Type 0
  Within s k = (p : ℕ) × (p < s.len) × At s.cells p k

  -- What holds when the loop comes to index i.
  record Expires (now : ℕ) (keys : List (PrivKey Signer)) (i : ℕ) (s : Slice Signer) : Type 0 where
    fits : s.len ≤ length s.cells
    same : length s.cells ≡ length keys
    fresh :
        (p : ℕ) (k : PrivKey Signer)
        → p < i
        → p < s.len
        → At s.cells p k
        → (has_expired now k.expire ≡ false) ⊎ ((q : ℕ) × (i ≤ q) × At s.cells q k)
    any : (p : ℕ) (k : PrivKey Signer) → At s.cells p k → Among keys k
    kept : (k : PrivKey Signer) → Among keys k → Within s k ⊎ Doomed now keys k
    dead :
        (e : PrivKey Signer)
        → Among keys e
        → has_expired now e.expire ≡ true
        → Within s e ⊎ ((p : ℕ) (k : PrivKey Signer) → p < s.len → At s.cells p k → k.blob ≢ e.blob)

  start-Expires :
      (now : ℕ) (keys : List (PrivKey Signer))
      → Expires now keys 0 (record { cells = keys; len = length keys })
  start-Expires now keys = record {
    fits = omega arith;
    same = refl;
    fresh = λ p k h below at. absurd (omega arith);
    any = λ p k at. (p, at);
    kept = λ k among. inl (within k among);
    dead = λ e among late. inl (within e among);
  }
    where
      within :
          (k : PrivKey Signer)
          → Among keys k
          → Within (record { cells = keys; len = length keys }) k
      within k (p, at) = elim (dec_lt p (length keys)) [
        | yes h ↦ (p, h, at)
        | no h ↦ cc (get_elem?-none keys p (omega arith))
      ]

  -- The key in cell i has not expired.
  stay-Expires :
      (now : ℕ) (keys : List (PrivKey Signer)) (i : ℕ) (s : Slice Signer) (here : PrivKey Signer)
      → At s.cells i here
      → has_expired now here.expire ≡ false
      → Expires now keys i s
      → Expires now keys (i + 1) s
  stay-Expires now keys i s here at_i alive v = record {
    fits = v.fits;
    same = v.same;
    fresh = λ p k h below at. elim (ℕ_discrete p i) [
      | yes e ↦ inl (living k (subst (λ q. At s.cells q k) e at))
      | no ne ↦ elim (v.fresh p k (omega arith) below at) [
        | inl ok' ↦ inl ok'
        | inr (q, h1, h2) ↦ elim (ℕ_discrete q i) [
          | yes e ↦ inl (living k (subst (λ q. At s.cells q k) e h2))
          | no ne' ↦ inr (q, omega arith, h2)
        ]
      ]
    ];
    any = v.any;
    kept = v.kept;
    dead = v.dead;
  }
    where
      living : (k : PrivKey Signer) → At s.cells i k → has_expired now k.expire ≡ false
      living k at =
          subst (λ (x : PrivKey Signer). has_expired now x.expire ≡ false)
            (some_injective (sym at_i ∙ at)) alive

  -- The key in cell i has expired: its public key is removed.
  leave-Expires :
      (now : ℕ) (keys : List (PrivKey Signer)) (i : ℕ) (s out : Slice Signer)
      (here : PrivKey Signer)
      → At s.cells i here
      → has_expired now here.expire ≡ true
      → Removes here.blob 0 s.len s.cells out
      → Expires now keys i s
      → Expires now keys (i + 1) out
  leave-Expires now keys i s out here at_i late r v = record {
    fits = omega (arith, r.shorter, r.same_length, v.fits);
    same = r.same_length ∙ v.same;
    fresh = λ p k h below at.
        let ne : k.blob ≢ here.blob = r.gone p k (omega arith) below at in
        elim (r.comes_from p k below at) [
          | inl at' ↦
              settle k ne p (omega (arith, not_here k ne p at')) (omega (arith, r.shorter)) at'
          | inr (q, h1, h2, h3, h4) ↦ elim (dec_lt i q) [
            | yes after ↦ inr (q, omega arith, h4)
            | no upto ↦ settle k ne q (omega (arith, not_here k ne q h3)) h2 h3
          ]
        ];
    any = λ p k at. let (q, at') = r.any p k at in v.any q k at';
    kept = λ k among. elim (v.kept k among) [
      | inl (p, below, at) ↦ elim (Bool-cases (bytes_eq k.blob here.blob)) [
        | inl e ↦ inr (here, v.any i here at_i, late, bytes_eq→eq _ _ e)
        | inr e ↦ inl (r.kept p k below at (differ k here.blob e))
      ]
      | inr d ↦ inr d
    ];
    dead = λ x among old. elim (v.dead x among old) [
      | inl (p, below, at) ↦ elim (Bool-cases (bytes_eq x.blob here.blob)) [
        | inl e ↦ inr (λ p' k below' at' same.
            r.gone p' k (omega arith) below' at' (same ∙ bytes_eq→eq _ _ e))
        | inr e ↦ inl (r.kept p x below at (differ x here.blob e))
      ]
      | inr away ↦ inr (λ p k below at. elim (r.comes_from p k below at) [
        | inl at' ↦ away p k (omega (arith, r.shorter)) at'
        | inr (q, h1, h2, h3, h4) ↦ away q k h2 h3
      ])
    ];
  }
    where
      differ : (k : PrivKey Signer) (b : Bytes) → bytes_eq k.blob b ≡ false → k.blob ≢ b
      differ k b e same = cc (ap (λ x. bytes_eq x b) same ∙ bytes_eq_refl b)

      not_here : (k : PrivKey Signer) → k.blob ≢ here.blob → (p : ℕ) → At s.cells p k → p ≢ i
      not_here k ne p at e = ne (
          ap (λ (x : PrivKey Signer). x.blob)
            (some_injective (sym (subst (λ q. At s.cells q k) e at) ∙ at_i)))

      settle :
          (k : PrivKey Signer)
          → k.blob ≢ here.blob
          → (p : ℕ) → p < i
          → p < s.len
          → At s.cells p k
          → (has_expired now k.expire ≡ false) ⊎ ((q : ℕ) × (i + 1 ≤ q) × At out.cells q k)
      settle k ne p before below at = elim (v.fresh p k before below at) [
        | inl alive ↦ inl alive
        | inr (q, h1, h2) ↦ inr (q, omega (arith, not_here k ne q h2), r.untouched q k h2 ne)
      ]

  step-Expires :
      (now : ℕ) (keys : List (PrivKey Signer)) (i : ℕ) (s : Slice Signer)
      → i < length keys
      → Expires now keys i s
      → Expires now keys (i + 1) (expire_one now (get_elem? s.cells i) s)
  unfolding expire_one
  step-Expires now keys i s inside v = go (cell_at s.cells i (omega (arith, v.same)))
    where
      choose :
          (k : PrivKey Signer)
          → At s.cells i k
          → (b : Bool) → has_expired now k.expire ≡ b
          → Expires now keys (i + 1) (if b then (remove_locked k.blob s).0 else s)
      choose k at true e =
          leave-Expires now keys i s _ k at e (remove_locked-Removes k.blob s v.fits) v
      choose k at false e = stay-Expires now keys i s k at e v

      go :
          ((k : PrivKey Signer) × At s.cells i k)
          → Expires now keys (i + 1) (expire_one now (get_elem? s.cells i) s)
      go (k, at) =
          subst (λ (o : Option (PrivKey Signer)). Expires now keys (i + 1) (expire_one now o s))
            (sym at) (choose k at (has_expired now k.expire) refl)

  loop-Expires :
      (now : ℕ) (keys : List (PrivKey Signer)) (todo i : ℕ) (s : Slice Signer)
      → i + todo ≡ length keys
      → Expires now keys i s
      → Expires now keys (length keys) (expire_loop now todo i s)
  unfolding expire_loop
  loop-Expires now keys zero i s e v = subst (λ n. Expires now keys n s) (omega (arith, e)) v
  loop-Expires now keys (suc todo) i s e v =
      loop-Expires now keys todo (i + 1) (expire_one now (get_elem? s.cells i) s) (omega (arith, e))
        (step-Expires now keys i s (omega (arith, e)) v)

  take-cell :
      (n p : ℕ) (keys : List (PrivKey Signer)) (k : PrivKey Signer)
      → p < n
      → get_elem? keys p ≡ some k
      → get_elem? (take n keys) p ≡ some k
  take-cell zero p keys k h at = elim h [ ]
  take-cell (suc n) p [] k h at = cc
  take-cell (suc n) zero (x ∷ xs) k h at = at
  take-cell (suc n) (suc p) (x ∷ xs) k h at = take-cell n p xs k (omega arith) at

  cell-take :
      (n p : ℕ) (keys : List (PrivKey Signer)) (k : PrivKey Signer)
      → get_elem? (take n keys) p ≡ some k
      → (p < n) × (get_elem? keys p ≡ some k)
  cell-take zero p keys k at = cc
  cell-take (suc n) p [] k at = cc
  cell-take (suc n) zero (x ∷ xs) k at = (omega arith, at)
  cell-take (suc n) (suc p) (x ∷ xs) k at =
      let (h, at') = cell-take n p xs k at in (omega arith, at')

  survivor :
      (now : ℕ) (keys : List (PrivKey Signer)) (out : Slice Signer)
      → Expires now keys (length keys) out
      → (e : PrivKey Signer) → Among keys e
      → has_expired now e.expire ≡ true
      → (p : ℕ) (k : PrivKey Signer) → p < out.len
      → At out.cells p k
      → k.blob ≢ e.blob
  survivor now keys out v e among late p k below at same = elim (v.dead e among late) [
    | inr away ↦ away p k below at same
    | inl (q, inside, held) ↦ elim (v.fresh q e (omega (arith, v.fits, v.same)) inside held) [
      | inl alive ↦ cc
      | inr (r, far, there) ↦ cc (get_elem?-none out.cells r (omega (arith, v.same)))
    ]
  ]

  -- Behind expireKeysLocked the keyring holds exactly the keys that it held whose public key is
  -- that of no expired key: none that has expired stays, although each removal shifts the slice
  -- over which the loop ranges, and what is lost beside them shares a public key with one of them.
  pub expire_keys_iff :
      (now : ℕ) (keys : List (PrivKey Signer)) (k : PrivKey Signer)
      → Among (expire_keys now keys) k ↔ (
          Among keys k
          × ((e : PrivKey Signer)
              → Among keys e
              → has_expired now e.expire ≡ true
              → k.blob ≢ e.blob))
  unfolding expire_keys
  expire_keys_iff now keys k =
      let out : Slice Signer =
        expire_loop now (length keys) 0 (record { cells = keys; len = length keys }) in
      let v : Expires now keys (length keys) out =
        loop-Expires now keys (length keys) 0 _ (omega arith) (start-Expires now keys) in
      (
        λ (p, at).
            let (below, at') = cell-take out.len p out.cells k at in
            (v.any p k at', λ e among late. survivor now keys out v e among late p k below at'),
        λ (among, safe). elim (v.kept k among) [
          | inl (p, below, at) ↦ (p, take-cell out.len p out.cells k below at)
          | inr (e, old, late, same) ↦ absurd (safe e old late same)
        ],
      )
