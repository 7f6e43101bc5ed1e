-- ===== src/Agent/Removal.antt =====
-- removeLocked of agent/keyring.go: which cell of the array holds which key behind it.
use xcryptossh.Prelude.{
  ℕ, ◌+◌, ◌≤◌, ◌<◌, ◌⊎◌, inl, inr, zero, suc, ◌≡◌, ◌≢◌, refl, ap, sym, ◌∙◌, subst, List, [], ◌∷◌,
  some, Bytes, Bool, true, false, length, get_elem?, set, arith, bytes_eq, bytes_eq→eq,
  bytes_eq_refl, length-set, get_elem?-set_self, get_elem?-set_ne, ℕ_discrete,
}
use xcryptossh.Agent.{PrivKey, Slice, is_key, move_last, remove_loop, remove_locked}

pub some_injective : {A : Type 0} {a b : A} → some a ≡ some b → a ≡ b
some_injective e = cc

pub cell_at :
    {A : Type 0} (xs : List A) (i : ℕ) → i < length xs → (a : A) × (get_elem? xs i ≡ some a)
cell_at [] i h = elim h [ ]
cell_at (x ∷ xs) zero h = (x, refl)
cell_at (x ∷ xs) (suc i) h = cell_at xs i (omega arith)

module _ {Signer : Type 0} where
  -- `k` is in cell p.
  abbrev pub At : List (PrivKey Signer) → ℕ → PrivKey Signer → Type 0
  At cells p k = get_elem? cells p ≡ some k

  -- What removing `want` makes of the first `len` cells, from cell `from` on.
  pub record Removes (want : Bytes) (start len : ℕ) (cells : List (PrivKey Signer))
      (out : Slice Signer) : Type 0 where
    pub shorter : out.len ≤ len
    pub from_start : start ≤ out.len
    pub same_length : length out.cells ≡ length cells
    pub before : (p : ℕ) (k : PrivKey Signer) → p < start → At out.cells p k → At cells p k
    pub any : (p : ℕ) (k : PrivKey Signer) → At out.cells p k → (q : ℕ) × At cells q k
    pub gone :
        (p : ℕ) (k : PrivKey Signer) → start ≤ p → p < out.len → At out.cells p k → k.blob ≢ want
    pub comes_from :
        (p : ℕ) (k : PrivKey Signer)
        → p < out.len
        → At out.cells p k
        → At cells p k ⊎ ((q : ℕ) × (out.len ≤ q) × (q < len) × At cells q k × At out.cells q k)
    pub untouched : (q : ℕ) (k : PrivKey Signer) → At cells q k → k.blob ≢ want → At out.cells q k
    pub beyond : (q : ℕ) (k : PrivKey Signer) → len ≤ q → At cells q k → At out.cells q k
    pub kept :
        (q : ℕ) (k : PrivKey Signer)
        → q < len
        → At cells q k
        → k.blob ≢ want
        → (p : ℕ) × (p < out.len) × At out.cells p k

  -- A cell that holds another key is left alone, and the loop goes on behind it.
  skip-Removes :
      (want : Bytes) (todo i : ℕ) (cells : List (PrivKey Signer)) (out : Slice Signer)
      → ((k : PrivKey Signer) → At cells i k → k.blob ≢ want)
      → Removes want (i + 1) (i + 1 + todo) cells out
      → Removes want i (i + suc todo) cells out
  skip-Removes want todo i cells out other r = record {
    shorter = omega (arith, r.shorter);
    from_start = omega (arith, r.from_start);
    same_length = r.same_length;
    before = λ p k h at. r.before p k (omega arith) at;
    any = r.any;
    gone = λ p k from below at. elim (ℕ_discrete p i) [
      | yes e ↦ other k (subst (λ q. At cells q k) e (r.before p k (omega arith) at))
      | no ne ↦ r.gone p k (omega arith) below at
    ];
    comes_from = λ p k below at. elim (r.comes_from p k below at) [
      | inl here ↦ inl here
      | inr (q, h1, h2, h3, h4) ↦ inr (q, h1, omega arith, h3, h4)
    ];
    untouched = r.untouched;
    beyond = λ q k h at. r.beyond q k (omega arith) at;
    kept = λ q k h at ne. r.kept q k (omega arith) at ne;
  }

  -- The last key takes the place of one that is removed.
  swap-Removes :
      (want : Bytes) (todo i : ℕ) (cells : List (PrivKey Signer)) (out : Slice Signer)
      (removed last : PrivKey Signer)
      → i + suc todo ≤ length cells
      → At cells i removed
      → removed.blob ≡ want
      → At cells (i + todo) last
      → Removes want i (i + todo) (set cells i last) out
      → Removes want i (i + suc todo) cells out
  swap-Removes want todo i cells out removed last fits here is_want at_end r =
      let moved : At (set cells i last) i last = get_elem?-set_self cells i last (omega arith) in
      let still : At (set cells i last) (i + todo) last = elim (ℕ_discrete (i + todo) i) [
        | yes e ↦ subst (λ q. At (set cells i last) q last) (sym e) moved
        | no ne ↦ get_elem?-set_ne cells i (i + todo) last (λ e. ne (sym e)) ∙ at_end
      ] in
      let source : (k : PrivKey Signer)
          → last ≡ k
          → (q : ℕ) × (out.len ≤ q) × (q < i + suc todo) × At cells q k × At out.cells q k =
        λ k same.
          subst
            (λ (k : PrivKey Signer).
              (q : ℕ) × (out.len ≤ q) × (q < i + suc todo) × At cells q k × At out.cells q k)
            same
            (
              i + todo,
              r.shorter,
              omega arith,
              at_end,
              r.beyond (i + todo) last (omega arith) still,
            ) in
      let unmoved : (q : ℕ) (k : PrivKey Signer)
          → q ≢ i
          → At cells q k
          → At (set cells i last) q k =
        λ q k ne at. get_elem?-set_ne cells i q last (λ e. ne (sym e)) ∙ at in
      let back : (q : ℕ) (k : PrivKey Signer) → q ≢ i → At (set cells i last) q k → At cells q k =
        λ q k ne at. sym (get_elem?-set_ne cells i q last (λ e. ne (sym e))) ∙ at in
      let is_last : (q : ℕ) (k : PrivKey Signer) → q ≡ i → At (set cells i last) q k → last ≡ k =
        λ q k e at. some_injective (sym moved ∙ subst (λ p. At (set cells i last) p k) e at) in
      let elsewhere : (q : ℕ) (k : PrivKey Signer) → At cells q k → k.blob ≢ want → q ≢ i =
        λ q k at ne e. ne (
          ap (λ (x : PrivKey Signer). x.blob)
            (some_injective (sym (subst (λ p. At cells p k) e at) ∙ here))
          ∙ is_want) in
      record {
        shorter = omega (arith, r.shorter);
        from_start = r.from_start;
        same_length = r.same_length ∙ length-set cells i last;
        before = λ p k h at. back p k (omega arith) (r.before p k h at);
        any = λ p k at.
            let (q, at') = r.any p k at in
            elim (ℕ_discrete q i) [
              | yes e ↦ (i + todo, subst (λ x. At cells (i + todo) x) (is_last q k e at') at_end)
              | no ne ↦ (q, back q k ne at')
            ];
        gone = r.gone;
        comes_from = λ p k below at. elim (r.comes_from p k below at) [
          | inl at' ↦ elim (ℕ_discrete p i) [
            | yes e ↦ inr (source k (is_last p k e at'))
            | no ne ↦ inl (back p k ne at')
          ]
          | inr (q, h1, h2, h3, h4) ↦ elim (ℕ_discrete q i) [
            | yes e ↦ inr (source k (is_last q k e h3))
            | no ne ↦ inr (q, h1, omega arith, back q k ne h3, h4)
          ]
        ];
        untouched = λ q k at ne. r.untouched q k (unmoved q k (elsewhere q k at ne) at) ne;
        beyond = λ q k h at. r.beyond q k (omega arith) (unmoved q k (omega arith) at);
        kept = λ q k h at ne. elim (ℕ_discrete q (i + todo)) [
          | yes e ↦
              let same : last ≡ k = some_injective (sym at_end ∙ subst (λ p. At cells p k) e at) in
              r.kept i k (let away : q ≢ i = elsewhere q k at ne in omega arith)
                (subst (λ x. At (set cells i last) i x) same moved) ne
          | no other ↦ r.kept q k (omega arith) (unmoved q k (elsewhere q k at ne) at) ne
        ];
      }

  remove_loop-Removes :
      (want : Bytes) (todo i : ℕ) (cells : List (PrivKey Signer)) (found : Bool)
      → i + todo ≤ length cells
      → Removes want i (i + todo) cells (remove_loop want todo i cells found).0
  unfolding remove_loop
  remove_loop-Removes want zero i cells found fits = record {
    shorter = omega arith;
    from_start = omega arith;
    same_length = refl;
    before = λ p k h at. at;
    any = λ p k at. (p, at);
    gone = λ p k h1 h2 at. absurd (omega arith);
    comes_from = λ p k h at. inl at;
    untouched = λ q k at ne. at;
    beyond = λ q k h at. at;
    kept = λ q k h at ne. (q, omega arith, at);
  }
  remove_loop-Removes want (suc todo) i cells found fits =
      go (cell_at cells i (omega arith)) (cell_at cells (i + todo) (omega arith))
        (λ cells'. remove_loop-Removes want todo i cells' true)
        (remove_loop-Removes want todo (i + 1) cells found (omega arith))
    where
      step : Bool → Slice Signer × Bool
      step b = elim b [
        | true ↦ remove_loop want todo i (move_last cells i (get_elem? cells (i + todo))) true
        | false ↦ remove_loop want todo (i + 1) cells found
      ]

      choose :
          (k l : PrivKey Signer)
          → At cells i k
          → At cells (i + todo) l
          → ((cells' : List (PrivKey Signer))
              → i + todo ≤ length cells'
              → Removes want i (i + todo) cells' (remove_loop want todo i cells' true).0)
          → Removes want (i + 1) (i + 1 + todo) cells (remove_loop want todo (i + 1) cells found).0
          → (b : Bool) → bytes_eq k.blob want ≡ b
          → Removes want i (i + suc todo) cells (step b).0
      choose k l here at_end swapped skipped true e =
          subst
            (λ cells'. Removes want i (i + suc todo) cells (remove_loop want todo i cells' true).0)
            (sym (ap (move_last cells i) at_end))
            (swap-Removes want todo i cells _ k l fits here (bytes_eq→eq k.blob want e) at_end
              (swapped (set cells i l) (omega (arith, length-set cells i l))))
      choose k l here at_end swapped skipped false e =
          skip-Removes want todo i cells _
            (λ k' at same.
              let same_key : k ≡ k' = some_injective (sym here ∙ at) in
              let is_want : bytes_eq k.blob want ≡ true =
                ap (λ (x : PrivKey Signer). bytes_eq x.blob want) same_key
                ∙ ap (λ b. bytes_eq b want) same
                ∙ bytes_eq_refl want in
              cc)
            skipped

      go :
          ((k : PrivKey Signer) × At cells i k)
          → ((l : PrivKey Signer) × At cells (i + todo) l)
          → ((cells' : List (PrivKey Signer))
              → i + todo ≤ length cells'
              → Removes want i (i + todo) cells' (remove_loop want todo i cells' true).0)
          → Removes want (i + 1) (i + 1 + todo) cells (remove_loop want todo (i + 1) cells found).0
          → Removes want i (i + suc todo) cells (step (is_key want (get_elem? cells i))).0
      go (k, here) (l, at_end) swapped skipped =
          subst (λ b. Removes want i (i + suc todo) cells (step b).0) (sym (ap (is_key want) here))
            (choose k l here at_end swapped skipped (bytes_eq k.blob want) refl)

  pub remove_locked-Removes :
      (want : Bytes) (s : Slice Signer)
      → s.len ≤ length s.cells
      → Removes want 0 s.len s.cells (remove_locked want s).0
  unfolding remove_locked
  remove_locked-Removes want s fits =
      subst (λ n. Removes want 0 n s.cells (remove_loop want s.len 0 s.cells false).0) (omega arith)
        (remove_loop-Removes want s.len 0 s.cells false (omega arith))
