-- ===== src/Hosts/Splits.antt =====
-- Laws of net.SplitHostPort and of splitting at a byte, as knownhosts/knownhosts.go uses them.
use xcryptossh.Prelude.{
  ℕ, ◌≡◌, refl, sym, ap, ◌∙◌, subst, [], ◌∷◌, ◌++◌, Option, none, some, Bytes, Bool, true, false,
  ◌==◌, not, ◌&&◌, ◌||◌, if◌then◌else◌, Bool-cases, inl, inr, if_true, if_false, ==_iff,
  append_assoc, arith,
}
use xcryptossh.Hosts.Addresses.{
  contains, cut_first, cut_last, split_bracketed, split_plain, split_at_last, split_host_port,
  bracketed, split,
}

pub contains-append : (c : ℕ) (a b : Bytes) → contains c (a ++ b) ≡ (contains c a || contains c b)
contains-append c [] b = refl
contains-append c (x ∷ a) b = ground (arith, contains-append c a b)

some_inj {ℓ} : {A : Type ℓ} {x y : A} → some x ≡ some y → x ≡ y
some_inj e = cc

none_some {ℓ κ} : {A : Type ℓ} {P : Type κ} {x : A} → ◌≡◌ {A = Option A} none (some x) → P
none_some e = cc

or_false : {a b : Bool} → a ≡ false → b ≡ false → (a || b) ≡ false
or_false ha hb = cc

or_true : (a : Bool) → (a || true) ≡ true
or_true true = refl
or_true false = refl

if_none {ℓ} :
    {A : Type ℓ} {x y : A} (b : Bool)
    → (if b then none else some x) ≡ some y
    → (b ≡ false) × (x ≡ y)
if_none true h = none_some h
if_none false h = (refl, some_inj h)

if_some {ℓ} :
    {A : Type ℓ} {x y : A} (b : Bool) → (if b then some x else none) ≡ some y → (b ≡ true) × (x ≡ y)
if_some true h = (refl, some_inj h)
if_some false h = none_some h

pub cut_first-parts :
    (c : ℕ) (s : Bytes) {a b : Bytes}
    → cut_first c s ≡ some (a, b)
    → (contains c a ≡ false) × (s ≡ a ++ (c ∷ b))
unfolding cut_first
cut_first-parts c [] h = cc
cut_first-parts c (x ∷ s) {a} {b} h = elim (Bool-cases (x == c)) [
  | inl here ↦ found here (some_inj (sym (if_true _ _ here) ∙ h))
  | inr later ↦
      go later (cut_first c s) (λ a b e. cut_first-parts c s e) (sym (if_false _ _ later) ∙ h)
]
  where
    Parts : Bytes × Bytes → Type 0
    Parts r = (contains c r.0 ≡ false) × (x ∷ s ≡ r.0 ++ (c ∷ r.1))

    found : (x == c) ≡ true → ◌≡◌ {A = Bytes × Bytes} ([], s) (a, b) → Parts (a, b)
    found here e = subst Parts e (refl, ap (λ y. y ∷ s) ((==_iff x c).0 here))

    go :
        (x == c) ≡ false
        → (o : Option (Bytes × Bytes))
        → ((a b : Bytes) → o ≡ some (a, b) → (contains c a ≡ false) × (s ≡ a ++ (c ∷ b)))
        → elim o as (λ _. Option (Bytes × Bytes)) [ none ↦ none | some (a, b) ↦ some (x ∷ a, b) ]
          ≡ some (a, b)
        → Parts (a, b)
    go later none k g = cc
    go later (some (a', b')) k g =
        let (apart, cut) = k a' b' refl in
        subst Parts (some_inj g) (or_false later apart, ap (λ l. x ∷ l) cut)

cut_last_misses : (c : ℕ) (s : Bytes) → cut_last c s ≡ none → contains c s ≡ false
unfolding cut_last
cut_last_misses c [] h = refl
cut_last_misses c (x ∷ s) h = go (cut_last c s) (cut_last_misses c s) h
  where
    go :
        (o : Option (Bytes × Bytes))
        → (o ≡ none → contains c s ≡ false)
        → elim o as (λ _. Option (Bytes × Bytes)) [
          | some (a, b) ↦ some (x ∷ a, b)
          | none ↦ if x == c then some ([], s) else none
        ]
          ≡ none
        → contains c (x ∷ s) ≡ false
    go (some (a, b)) k g = cc
    go none k g = elim (Bool-cases (x == c)) [
      | inl here ↦ none_some (sym g ∙ if_true _ _ here)
      | inr later ↦ or_false later (k refl)
    ]

pub cut_last-parts :
    (c : ℕ) (s : Bytes) {a b : Bytes}
    → cut_last c s ≡ some (a, b)
    → (contains c b ≡ false) × (s ≡ a ++ (c ∷ b))
unfolding cut_last
cut_last-parts c [] h = cc
cut_last-parts c (x ∷ s) {a} {b} h =
    go (cut_last c s) (λ a b e. cut_last-parts c s e) h (cut_last_misses c s)
  where
    Parts : Bytes × Bytes → Type 0
    Parts r = (contains c r.1 ≡ false) × (x ∷ s ≡ r.0 ++ (c ∷ r.1))

    go :
        (o : Option (Bytes × Bytes))
        → ((a b : Bytes) → o ≡ some (a, b) → (contains c b ≡ false) × (s ≡ a ++ (c ∷ b)))
        → elim o as (λ _. Option (Bytes × Bytes)) [
          | some (a, b) ↦ some (x ∷ a, b)
          | none ↦ if x == c then some ([], s) else none
        ]
          ≡ some (a, b)
        → (o ≡ none → contains c s ≡ false)
        → Parts (a, b)
    go (some (a', b')) k g misses =
        let (apart, cut) = k a' b' refl in subst Parts (some_inj g) (apart, ap (λ l. x ∷ l) cut)
    go none k g misses = elim (Bool-cases (x == c)) [
      | inl here ↦
          subst Parts (some_inj (sym (if_true _ _ here) ∙ g))
            (misses refl, ap (λ y. y ∷ s) ((==_iff x c).0 here))
      | inr later ↦ none_some (sym (if_false _ _ later) ∙ g)
    ]

pub cut_last-none : (c : ℕ) (s : Bytes) → contains c s ≡ false → cut_last c s ≡ none
unfolding cut_last
cut_last-none c [] h = refl
cut_last-none c (x ∷ s) h = ground (arith, cut_last-none c s)

pub cut_first_at :
    (c : ℕ) (a b : Bytes) → contains c a ≡ false → cut_first c (a ++ (c ∷ b)) ≡ some (a, b)
unfolding cut_first
cut_first_at c [] b h = ground arith
cut_first_at c (x ∷ a) b h = ground (arith, cut_first_at c a b)

pub cut_last-some :
    (c : ℕ) (s : Bytes) → contains c s ≡ true → (p : Bytes × Bytes) × (cut_last c s ≡ some p)
unfolding cut_last
cut_last-some c [] h = cc
cut_last-some c (x ∷ s) h = go (cut_last c s) (cut_last_misses c s)
  where
    go :
        (o : Option (Bytes × Bytes))
        → (o ≡ none → contains c s ≡ false)
        → (p : Bytes × Bytes) × (elim o as (λ _. Option (Bytes × Bytes)) [
          | some (a, b) ↦ some (x ∷ a, b)
          | none ↦ if x == c then some ([], s) else none
        ]
            ≡ some p)
    go (some (a, b)) k = ((x ∷ a, b), refl)
    go none k = (([], s), if_true {b = x == c} _ _ (ground (arith, k refl)))

pub split-one : (c : ℕ) (s : Bytes) → contains c s ≡ false → split c s ≡ s ∷ []
unfolding split
split-one c [] h = refl
split-one c (x ∷ s) h = ground (arith, split-one c s)

-- What both parts of an address are free of.
pub record Apart (host port : Bytes) : Type 0 where
  pub port_colon : contains b':' port ≡ false
  pub host_open : contains b'[' host ≡ false
  pub host_close : contains b']' host ≡ false
  pub port_open : contains b'[' port ≡ false
  pub port_close : contains b']' port ≡ false

split_plain-Apart :
    (parts : Bytes × Bytes) (host port : Bytes)
    → contains b':' parts.1 ≡ false
    → split_plain parts ≡ some (host, port)
    → Apart host port
split_plain-Apart (host', port') host port colon h =
    let (free, e) =
      if_none
        (contains b':' host'
          || contains b'[' host'
          || contains b'[' port'
          || contains b']' host'
          || contains b']' port')
        h in
    subst (λ (r : Bytes × Bytes). Apart r.0 r.1) e
      (record {
        port_colon = colon;
        host_open = ground arith;
        host_close = ground arith;
        port_open = ground arith;
        port_close = ground arith;
      })

split_bracketed-Apart :
    (inside : Bytes) (o : Option (Bytes × Bytes)) (host port : Bytes)
    → cut_first b']' inside ≡ o
    → split_bracketed inside o ≡ some (host, port)
    → Apart host port
split_bracketed-Apart inside none host port e h = none_some h
split_bracketed-Apart inside (some (host', [])) host port e h = none_some h
split_bracketed-Apart inside (some (host', c ∷ port')) host port e h =
    let (free, same) =
      if_some
        (c == b':'
          && not (contains b':' port')
          && not (contains b'[' inside)
          && not (contains b']' port'))
        h in
    let (close, cut) = cut_first-parts b']' inside e in
    let inner = ap (contains b'[') cut ∙ contains-append b'[' host' (b']' ∷ c ∷ port') in
    subst (λ (r : Bytes × Bytes). Apart r.0 r.1) same
      (record {
        port_colon = ground arith;
        host_open = ground arith;
        host_close = close;
        port_open = ground arith;
        port_close = ground arith;
      })

pub split_host_port-Apart :
    (s : Bytes) {host port : Bytes} → split_host_port s ≡ some (host, port) → Apart host port
unfolding split_host_port
split_host_port-Apart s {host} {port} h = go s (cut_last b':' s) refl h
  where
    go :
        (t : Bytes) (o : Option (Bytes × Bytes))
        → cut_last b':' t ≡ o
        → split_at_last t o ≡ some (host, port)
        → Apart host port
    go t none e g = none_some g
    go [] (some parts) e g = none_some g
    go (c ∷ t) (some parts) e g = elim (Bool-cases (c == b'[')) [
      | inl opens ↦
          split_bracketed-Apart t (cut_first b']' t) host port refl (sym (if_true _ _ opens) ∙ g)
      | inr plain ↦
          split_plain-Apart parts host port (cut_last-parts b':' (c ∷ t) e).0
            (sym (if_false _ _ plain) ∙ g)
    ]

bracketed_ok :
    {a b c : Bool} {x : Option (Bytes × Bytes)}
    → a ≡ false
    → b ≡ false
    → c ≡ false
    → (if not a && not b && not c then x else none) ≡ x
bracketed_ok ha hb hc = if_true _ _ (and_not ha hb hc)
  where
    and_not : {a b c : Bool} → a ≡ false → b ≡ false → c ≡ false → (not a && not b && not c) ≡ true
    and_not ha hb hc = ground arith

-- An address in brackets comes apart again.
pub split_host_port-bracketed :
    (host port : Bytes)
    → Apart host port
    → split_host_port (bracketed host ++ (b':' ∷ port)) ≡ some (host, port)
unfolding split_host_port
split_host_port-bracketed host port a =
    let inside : Bytes = (host ++ (b']' ∷ [])) ++ (b':' ∷ port) in
    let found : contains b':' (b'[' ∷ inside) ≡ true =
      contains-append b':' (host ++ (b']' ∷ [])) (b':' ∷ port)
      ∙ or_true (contains b':' (host ++ (b']' ∷ []))) in
    let (parts, last) = cut_last-some b':' (b'[' ∷ inside) found in
    let cut : cut_first b']' inside ≡ some (host, b':' ∷ port) =
      ap (cut_first b']') (append_assoc host (b']' ∷ []) (b':' ∷ port))
      ∙ cut_first_at b']' host (b':' ∷ port) a.host_close in
    let opens : contains b'[' inside ≡ false =
      contains-append b'[' (host ++ (b']' ∷ [])) (b':' ∷ port)
      ∙ or_false (contains-append b'[' host (b']' ∷ []) ∙ or_false a.host_open refl) a.port_open in
    ap (split_at_last (b'[' ∷ inside)) last
    ∙ ap (split_bracketed inside) cut
    ∙ bracketed_ok a.port_colon opens a.port_close

pub split_host_port-none : (host : Bytes) → contains b':' host ≡ false → split_host_port host ≡ none
unfolding split_host_port
split_host_port-none host h = ap (split_at_last host) (cut_last-none b':' host h)

pub split_host_port-no_port :
    (host : Bytes)
    → contains b':' host ≡ true
    → contains b']' host ≡ false
    → split_host_port (bracketed host) ≡ none
unfolding split_host_port
split_host_port-no_port host colon close =
    let found : contains b':' (bracketed host) ≡ true =
      contains-append b':' host (b']' ∷ []) ∙ ap (λ b. b || false) colon in
    let (parts, last) = cut_last-some b':' (bracketed host) found in
    ap (split_at_last (bracketed host)) last
    ∙ ap (split_bracketed (host ++ (b']' ∷ []))) (cut_first_at b']' host [] close)
