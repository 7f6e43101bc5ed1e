-- ===== src/Hosts/Checks.antt =====
-- What checkAddrs of knownhosts/knownhosts.go accepts.
use xcryptossh.Prelude.{
  ◌≡◌, ◌↔◌, refl, sym, ap, ◌∙◌, List, [], ◌∷◌, ◌++◌, Option, none, some, Bytes, Bool, true, false,
  ◌&&◌, if◌then◌else◌, bytes_eq, bytes_eq→eq, Bool-cases, inl, inr, if_true, if_false, All,
}
use xcryptossh.Hosts.{Addr}
use xcryptossh.Hosts.Database.{
  HostKeys, KnownKey, KeyLine, HostKeyDb, CheckError, key_error, lookup, key_eq, line_match,
  first_known, known_keys, check_type, check_known, check_addrs,
}

abbrev or_else {ℓ} : {V : Type ℓ} → Option V → Option V → Option V
or_else none o = o
or_else (some v) o = some v

or_else_assoc {ℓ} :
    {V : Type ℓ} (a b c : Option V) → or_else (or_else a b) c ≡ or_else a (or_else b c)
or_else_assoc none b c = refl
or_else_assoc (some v) b c = refl

lookup-snoc {ℓ} :
    {V : Type ℓ} (k j : Bytes) (v : V) (m : List (Bytes × V))
    → lookup k (m ++ ((j, v) ∷ [])) ≡ or_else (lookup k m) (if bytes_eq j k then some v else none)
unfolding lookup
lookup-snoc k j v [] = refl
lookup-snoc k j v ((i, w) ∷ m) = elim (Bool-cases (bytes_eq i k)) [
  | inl here ↦ rw here refl
  | inr later ↦ rw later (lookup-snoc k j v m)
]

or_else-none {ℓ} : {V : Type ℓ} (o : Option V) → or_else o none ≡ o
or_else-none none = refl
or_else-none (some v) = refl

or_else-if {ℓ} :
    {V : Type ℓ} (b : Bool) (v : V) (o : Option V)
    → or_else (if b then some v else none) o ≡ (if b then some v else o)
or_else-if true v o = refl
or_else-if false v o = refl

module _ (ks : HostKeys) where
  open ks use {Key, key_type, marshal}

  -- The first line that matches and has a key of the type.
  abbrev pub expected : List Addr → Bytes → List (KeyLine Key) → Option (KnownKey Key)
  expected addrs typ [] = none
  expected addrs typ (l ∷ ls) =
      if line_match ks l addrs && bytes_eq (key_type l.known.key) typ
      then some l.known
      else expected addrs typ ls

  lookup-first_known :
      (typ t : Bytes) (k : KnownKey Key) (known : List (Bytes × KnownKey Key))
      → lookup typ (first_known ks t k known)
        ≡ or_else (lookup typ known) (if bytes_eq t typ then some k else none)
  lookup-first_known typ t k known = go (lookup t known) refl
    where
      go :
          (o : Option (KnownKey Key))
          → lookup t known ≡ o
          → lookup typ (elim o as (λ _. List (Bytes × KnownKey Key)) [
            | none ↦ known ++ ((t, k) ∷ [])
            | some old ↦ known
          ])
            ≡ or_else (lookup typ known) (if bytes_eq t typ then some k else none)
      go none e = lookup-snoc typ t k known
      go (some old) e = elim (Bool-cases (bytes_eq t typ)) [
        | inl same ↦
            let found : lookup typ known ≡ some old =
              ap (λ u. lookup u known) (sym (bytes_eq→eq t typ same)) ∙ e in
            found ∙ sym (ap (λ o. or_else o (if bytes_eq t typ then some k else none)) found)
        | inr other ↦ sym (ap (or_else (lookup typ known)) (if_false _ _ other) ∙ or_else-none _)
      ]

  lookup-known_keys :
      (addrs : List Addr) (typ : Bytes) (ls : List (KeyLine Key))
      (known : List (Bytes × KnownKey Key))
      → lookup typ (known_keys ks addrs ls known)
        ≡ or_else (lookup typ known) (expected addrs typ ls)
  unfolding known_keys
  lookup-known_keys addrs typ [] known = sym (or_else-none (lookup typ known))
  lookup-known_keys addrs typ (l ∷ ls) known = elim (Bool-cases (line_match ks l addrs)) [
    | inl matches ↦
        (λ i. lookup typ (
          known_keys ks addrs ls
            (if matches i then first_known ks (key_type l.known.key) l.known known else known)))
        ∙ lookup-known_keys addrs typ ls (first_known ks (key_type l.known.key) l.known known)
        ∙ ap (λ o. or_else o (expected addrs typ ls))
            (lookup-first_known typ (key_type l.known.key) l.known known)
        ∙ or_else_assoc (lookup typ known) _ (expected addrs typ ls)
        ∙ ap (or_else (lookup typ known))
            (or_else-if (bytes_eq (key_type l.known.key) typ) l.known (expected addrs typ ls))
        ∙ (λ i. or_else (lookup typ known) (
            if sym matches i && bytes_eq (key_type l.known.key) typ
            then some l.known
            else expected addrs typ ls))
    | inr misses ↦
        (λ i. lookup typ (
          known_keys ks addrs ls
            (if misses i then first_known ks (key_type l.known.key) l.known known else known)))
        ∙ lookup-known_keys addrs typ ls known
        ∙ (λ i. or_else (lookup typ known) (
            if sym misses i && bytes_eq (key_type l.known.key) typ
            then some l.known
            else expected addrs typ ls))
  ]

  check_known_iff :
      (k : Key) (m : List (Bytes × KnownKey Key))
      → (check_known ks k m ≡ none) ↔ (
          (known : KnownKey Key) × (lookup (key_type k) m ≡ some known)
          × (key_eq ks known.key k ≡ true))
  unfolding lookup
  check_known_iff k [] = ((λ h. cc), λ (known, found, same). cc)
  check_known_iff k (p ∷ m) = (
    there (lookup (key_type k) (p ∷ m)),
    λ (known, found, same). ap (check_type ks k (p ∷ m)) found ∙ if_true _ _ same,
  )
    where
      some_none : {e : CheckError Key} → some e ≡ none → ⊥
      some_none e = cc

      there :
          (o : Option (KnownKey Key))
          → check_type ks k (p ∷ m) o ≡ none
          → (known : KnownKey Key) × (o ≡ some known) × (key_eq ks known.key k ≡ true)
      there none h = cc
      there (some old) h = elim (Bool-cases (key_eq ks old.key k)) [
        | inl same ↦ (old, refl, same)
        | inr other ↦ absurd (some_none (sym (if_false _ _ other) ∙ h))
      ]

  -- A key passes for addresses exactly when the first line that matches one of them with a key of its
  -- type has just this key.
  pub check_addrs_iff :
      (db : HostKeyDb Key) (addrs : List Addr) (k : Key)
      → (check_addrs ks db addrs k ≡ none) ↔ (
          (known : KnownKey Key) × (expected addrs (key_type k) db.lines ≡ some known)
          × (key_eq ks known.key k ≡ true))
  unfolding check_addrs
  check_addrs_iff db addrs k =
      let found = lookup-known_keys addrs (key_type k) db.lines [] in
      let (there, back) = check_known_iff k (known_keys ks addrs db.lines []) in
      (
        (λ h. let (known, at, same) = there h in (known, sym found ∙ at, same)),
        λ (known, at, same). back (known, found ∙ at, same),
      )

  first_known_more :
      (typ : Bytes) (k : KnownKey Key) (p : Bytes × KnownKey Key) (m : List (Bytes × KnownKey Key))
      → (more : List (Bytes × KnownKey Key)) × (first_known ks typ k (p ∷ m) ≡ p ∷ more)
  first_known_more typ k p m = go (lookup typ (p ∷ m))
    where
      go :
          (o : Option (KnownKey Key))
          → (more : List (Bytes × KnownKey Key)) × (elim o as (λ _. List (Bytes × KnownKey Key)) [
            | none ↦ (p ∷ m) ++ ((typ, k) ∷ [])
            | some old ↦ p ∷ m
          ]
              ≡ p ∷ more)
      go none = (m ++ ((typ, k) ∷ []), refl)
      go (some old) = (m, refl)

  known_keys_more :
      (addrs : List Addr) (ls : List (KeyLine Key)) (p : Bytes × KnownKey Key)
      (m : List (Bytes × KnownKey Key))
      → (more : List (Bytes × KnownKey Key)) × (known_keys ks addrs ls (p ∷ m) ≡ p ∷ more)
  unfolding known_keys
  known_keys_more addrs [] p m = (m, refl)
  known_keys_more addrs (l ∷ ls) p m = go (line_match ks l addrs) (known_keys_more addrs ls p)
    where
      next : Bool → List (Bytes × KnownKey Key)
      next b = if b then first_known ks (key_type l.known.key) l.known (p ∷ m) else p ∷ m

      go :
          (b : Bool)
          → ((m' : List (Bytes × KnownKey Key))
              → (more : List (Bytes × KnownKey Key)) × (known_keys ks addrs ls (p ∷ m') ≡ p ∷ more))
          → (more : List (Bytes × KnownKey Key)) × (known_keys ks addrs ls (next b) ≡ p ∷ more)
      go true ih =
          let (m', e) = first_known_more (key_type l.known.key) l.known p m in
          let (more, h) = ih m' in (more, ap (known_keys ks addrs ls) e ∙ h)
      go false ih = ih m

  known_keys-none :
      (addrs : List Addr) (ls : List (KeyLine Key))
      → (known_keys ks addrs ls [] ≡ []) ↔ All (λ l. line_match ks l addrs ≡ false) ls
  unfolding known_keys lookup
  known_keys-none addrs [] = ((λ h. tt), λ h. refl)
  known_keys-none addrs (l ∷ ls) = (
    go (line_match ks l addrs) refl (known_keys-none addrs ls).0,
    back (known_keys-none addrs ls).1,
  )
    where
      next : Bool → List (Bytes × KnownKey Key)
      next b = if b then (key_type l.known.key, l.known) ∷ [] else []

      empty : {p : Bytes × KnownKey Key} {more : List (Bytes × KnownKey Key)} → p ∷ more ≡ [] → ⊥
      empty e = cc

      go :
          (b : Bool)
          → line_match ks l addrs ≡ b
          → (known_keys ks addrs ls [] ≡ [] → All (λ l. line_match ks l addrs ≡ false) ls)
          → known_keys ks addrs ls (next b) ≡ []
          → All (λ l. line_match ks l addrs ≡ false) (l ∷ ls)
      go true e ih h =
          let (more, g) = known_keys_more addrs ls (key_type l.known.key, l.known) [] in
          absurd (empty (sym g ∙ h))
      go false e ih h = (e, ih h)

      back :
          (All (λ l. line_match ks l addrs ≡ false) ls → known_keys ks addrs ls [] ≡ [])
          → All (λ l. line_match ks l addrs ≡ false) (l ∷ ls)
          → known_keys ks addrs ls (next (line_match ks l addrs)) ≡ []
      back ih h = (λ i. known_keys ks addrs ls (next (h.0 i))) ∙ ih h.1

  check_known_unknown :
      (k : Key) (m : List (Bytes × KnownKey Key))
      → check_known ks k m ≡ some (key_error [])
      → m ≡ []
  check_known_unknown k [] h = refl
  check_known_unknown k ((t, v) ∷ m) h = go (lookup (key_type k) ((t, v) ∷ m)) h
    where
      differ :
          {x : KnownKey Key} {xs : List (KnownKey Key)} {P : Type 0}
          → ◌≡◌ {A = Option (CheckError Key)} (some (key_error (x ∷ xs))) (some (key_error []))
          → P
      differ e = cc

      passes : {P : Type 0} → ◌≡◌ {A = Option (CheckError Key)} none (some (key_error [])) → P
      passes e = cc

      go :
          (o : Option (KnownKey Key))
          → check_type ks k ((t, v) ∷ m) o ≡ some (key_error [])
          → (t, v) ∷ m ≡ []
      go none h = differ h
      go (some old) h = elim (Bool-cases (key_eq ks old.key k)) [
        | inl same ↦ passes (sym (if_true _ _ same) ∙ h)
        | inr other ↦ differ (sym (if_false _ _ other) ∙ h)
      ]

  -- The error with no wanted key says exactly that no line matches the addresses.
  pub check_addrs_unknown :
      (db : HostKeyDb Key) (addrs : List Addr) (k : Key)
      → (check_addrs ks db addrs k ≡ some (key_error []))
        ↔ All (λ l. line_match ks l addrs ≡ false) db.lines
  unfolding check_addrs
  check_addrs_unknown db addrs k =
      let (there, back) = known_keys-none addrs db.lines in
      (
        (λ h. there (check_known_unknown k (known_keys ks addrs db.lines []) h)),
        λ h. ap (check_known ks k) (back h),
      )
