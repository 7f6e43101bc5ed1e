-- ===== src/Hosts/Wildcards.antt =====
-- What wildcardMatch accepts, beside a definition of glob patterns.
use xcryptossh.Prelude.{
  ℕ, ◌≡◌, ◌≢◌, ◌⊎◌, ◌↔◌, inl, inr, refl, sym, ap, ◌∙◌, subst, [], ◌∷◌, ◌++◌, Bytes, Bool, true,
  false, ◌==◌, ◌||◌, if◌then◌else◌, ◌&&◌, if_true, if_false, append-nil, Bool-cases, ==_iff, arith,
}
use xcryptossh.Hosts.{any_suffix, star, is_empty, wildcard_match}

-- `*` stands for any bytes, `?` for one, and all else for itself.
abbrev pub Glob : Bytes → Bytes → Type 0
Glob [] str = str ≡ []
Glob (c ∷ pat) str =
    ((c ≡ b'*') × (skip rest : Bytes) × (str ≡ skip ++ rest) × Glob pat rest)
    ⊎ ((c ≢ b'*')
        × (s : ℕ) × (rest : Bytes) × (str ≡ s ∷ rest)
        × ((c ≡ b'?') ⊎ (c ≡ s))
        × Glob pat rest)

-- A `*` at the end has to meet a byte.
abbrev pub strict : Bytes → Bytes
strict [] = []
strict (c ∷ []) = if c == b'*' then b'?' ∷ b'*' ∷ [] else c ∷ []
strict (c ∷ d ∷ pat) = c ∷ strict (d ∷ pat)

strict_cons : (c : ℕ) (pat : Bytes) → (c == b'*') ≡ false → strict (c ∷ pat) ≡ c ∷ strict pat
strict_cons c [] e = if_false (b'?' ∷ b'*' ∷ []) (c ∷ []) e
strict_cons c (d ∷ pat) e = refl

fits_iff : (c s : ℕ) → ((c == b'?' || c == s) ≡ true) ↔ ((c ≡ b'?') ⊎ (c ≡ s))
fits_iff c s = (there, back)
  where
    there : (c == b'?' || c == s) ≡ true → (c ≡ b'?') ⊎ (c ≡ s)
    there h = elim (Bool-cases (c == b'?')) [
      | inl e ↦ inl ((==_iff c b'?').0 e)
      | inr e ↦ inr (ground arith)
    ]

    back : (c ≡ b'?') ⊎ (c ≡ s) → (c == b'?' || c == s) ≡ true
    back (inl e) = ground arith
    back (inr e) = ground arith

match_star :
    (c s : ℕ) (pat str : Bytes)
    → (c == b'*') ≡ true
    → wildcard_match (c ∷ pat) (s ∷ str) ≡ star pat (wildcard_match pat) (s ∷ str)
unfolding wildcard_match
match_star c s pat str e = rw (e, wildcard_match)

pub match_byte :
    (c s : ℕ) (pat str : Bytes)
    → (c == b'*') ≡ false
    → wildcard_match (c ∷ pat) (s ∷ str) ≡ (c == b'?' || c == s) && wildcard_match pat str
unfolding wildcard_match
match_byte c s pat str e = elim (Bool-cases (c == b'?' || c == s)) [
  | inl fits ↦ rw (e, wildcard_match) (rw (fits, wildcard_match))
  | inr misses ↦ rw (e, wildcard_match) (rw (misses, wildcard_match))
]

any_suffix_at :
    (f : Bytes → Bool) (str : Bytes)
    → any_suffix f str ≡ true
    → (skip rest : Bytes) × (str ≡ skip ++ rest) × (f rest ≡ true)
unfolding any_suffix
any_suffix_at f [] h = cc
any_suffix_at f (s ∷ str) h = elim (Bool-cases (f (s ∷ str))) [
  | inl here ↦ ([], s ∷ str, refl, here)
  | inr not_here ↦
      let (skip, rest, cut, found) =
        any_suffix_at f str (sym (if_false true (any_suffix f str) not_here) ∙ h) in
      (s ∷ skip, rest, ap (λ l. s ∷ l) cut, found)
]

any_suffix_found :
    (f : Bytes → Bool) (skip : Bytes) (s : ℕ) (rest : Bytes)
    → f (s ∷ rest) ≡ true
    → any_suffix f (skip ++ (s ∷ rest)) ≡ true
unfolding any_suffix
any_suffix_found f [] s rest h = if_true true _ h
any_suffix_found f (x ∷ skip) s rest h = elim (Bool-cases (f ((x ∷ skip) ++ (s ∷ rest)))) [
  | inl here ↦ if_true true _ here
  | inr later ↦ if_false true _ later ∙ any_suffix_found f skip s rest h
]

-- A pattern that is not empty, with a strict end, does not match the empty string.
append-empty : (skip rest : Bytes) → [] ≡ skip ++ rest → rest ≡ []
append-empty [] rest h = sym h
append-empty (x ∷ skip) rest h = cc

strict_empty : (d : ℕ) (pat : Bytes) → Glob (strict (d ∷ pat)) [] → ⊥
strict_empty d [] g = elim (Bool-cases (d == b'*')) [
  | inl e ↦ last (subst (λ q. Glob q []) (if_true (b'?' ∷ b'*' ∷ []) (d ∷ []) e) g)
  | inr e ↦ other e (subst (λ q. Glob q []) (if_false (b'?' ∷ b'*' ∷ []) (d ∷ []) e) g)
]
  where
    last : Glob (b'?' ∷ b'*' ∷ []) [] → ⊥
    last (inl (e, skip, rest, h, r)) = absurd (omega arith)
    last (inr (e, s, rest, h, f, r)) = cc

    other : (d == b'*') ≡ false → Glob (d ∷ []) [] → ⊥
    other ne (inl (e, skip, rest, h, r)) = absurd (ground arith)
    other ne (inr (e, s, rest, h, f, r)) = cc
strict_empty d (e ∷ pat) g = from g (strict_empty e pat)
  where
    from : Glob (d ∷ strict (e ∷ pat)) [] → (Glob (strict (e ∷ pat)) [] → ⊥) → ⊥
    from (inl (is_star, skip, rest, cut, more)) k =
        k (subst (Glob (strict (e ∷ pat))) (append-empty skip rest cut) more)
    from (inr (no_star, s, rest, cut, f, r)) k = cc

both_true : (a b : Bool) → (a && b) ≡ true → (a ≡ true) × (b ≡ true)
both_true true b h = (refl, h)
both_true false b h = cc

sound : (pat str : Bytes) → wildcard_match pat str ≡ true → Glob (strict pat) str
unfolding wildcard_match
sound [] [] h = refl
sound [] (s ∷ str) h = cc
sound (c ∷ pat) [] h = cc
sound (c ∷ pat) (s ∷ str) h = elim (Bool-cases (c == b'*')) [
  | inl e ↦ starred pat e (sym (match_star c s pat str e) ∙ h) (sound pat)
  | inr e ↦
      let (fits, rest) =
        both_true (c == b'?' || c == s) (wildcard_match pat str)
          (sym (match_byte c s pat str e) ∙ h) in
      subst (λ q. Glob q (s ∷ str)) (sym (strict_cons c pat e))
        (inr ((λ is_star. ground arith), s, str, refl, (fits_iff c s).0 fits, sound pat str rest))
]
  where
    starred :
        (pat : Bytes)
        → (c == b'*') ≡ true
        → star pat (wildcard_match pat) (s ∷ str) ≡ true
        → ((str : Bytes) → wildcard_match pat str ≡ true → Glob (strict pat) str)
        → Glob (strict (c ∷ pat)) (s ∷ str)
    starred [] e h ih =
        subst (λ q. Glob q (s ∷ str)) (sym (if_true (b'?' ∷ b'*' ∷ []) (c ∷ []) e))
          (inr (
            (λ (is_star : b'?' ≡ b'*'). absurd (omega arith)),
            s,
            str,
            refl,
            inl refl,
            inl (refl, str, [], sym (append-nil str), refl),
          ))
    starred (d ∷ pat) e h ih =
        let (skip, rest, cut, found) = any_suffix_at (wildcard_match (d ∷ pat)) (s ∷ str) h in
        inl ((==_iff c b'*').0 e, skip, rest, cut, ih rest found)

complete : (pat str : Bytes) → Glob (strict pat) str → wildcard_match pat str ≡ true
unfolding wildcard_match
complete [] str g = ap is_empty g
complete (c ∷ pat) [] g = absurd (strict_empty c pat g)
complete (c ∷ pat) (s ∷ str) g = elim (Bool-cases (c == b'*')) [
  | inl e ↦ match_star c s pat str e ∙ starred pat e g (complete pat)
  | inr e ↦
      match_byte c s pat str e
      ∙ single e (subst (λ q. Glob q (s ∷ str)) (strict_cons c pat e) g) (complete pat)
]
  where
    single :
        (c == b'*') ≡ false
        → Glob (c ∷ strict pat) (s ∷ str)
        → ((str : Bytes) → Glob (strict pat) str → wildcard_match pat str ≡ true)
        → ((c == b'?' || c == s) && wildcard_match pat str) ≡ true
    single e (inl (is_star, skip, rest, cut, more)) ih = absurd (ground arith)
    single e (inr (no_star, s', rest, cut, fits, more)) ih =
        both ((fits_iff c s).1 (at_head fits)) (ih str (subst (Glob (strict pat)) (sym tails) more))
      where
        heads : s ≡ s'
        heads = cc

        tails : str ≡ rest
        tails = cc

        at_head : (c ≡ b'?') ⊎ (c ≡ s') → (c ≡ b'?') ⊎ (c ≡ s)
        at_head (inl any) = inl any
        at_head (inr same) = inr (same ∙ sym heads)

        both : {a b : Bool} → a ≡ true → b ≡ true → (a && b) ≡ true
        both ha hb = cc

    starred :
        (pat : Bytes)
        → (c == b'*') ≡ true
        → Glob (strict (c ∷ pat)) (s ∷ str)
        → ((str : Bytes) → Glob (strict pat) str → wildcard_match pat str ≡ true)
        → star pat (wildcard_match pat) (s ∷ str) ≡ true
    starred [] e g ih = refl
    starred (d ∷ pat) e (inl (is_star, skip, [], cut, more)) ih = absurd (strict_empty d pat more)
    starred (d ∷ pat) e (inl (is_star, skip, x ∷ rest, cut, more)) ih =
        ap (any_suffix (wildcard_match (d ∷ pat))) cut
        ∙ any_suffix_found (wildcard_match (d ∷ pat)) skip x rest (ih (x ∷ rest) more)
    starred (d ∷ pat) e (inr (no_star, x, rest, cut, fits, more)) ih =
        absurd (no_star ((==_iff c b'*').0 e))

-- A pattern matches a string exactly when the string has its form as a glob, where a `*` at the
-- pattern's end stands for at least one byte.
pub wildcard_match_iff : (pat str : Bytes) → (wildcard_match pat str ≡ true) ↔ Glob (strict pat) str
wildcard_match_iff pat str = (sound pat str, complete pat str)
