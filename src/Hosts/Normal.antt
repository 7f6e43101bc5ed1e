-- ===== src/Hosts/Normal.antt =====
-- Normalize of knownhosts/knownhosts.go against newHostnameMatcher: which normalised addresses the
-- matcher takes, and that it then matches the address.
use xcryptossh.Prelude.{
  ℕ, ◌≡◌, ◌≢◌, ◌⊎◌, inl, inr, refl, sym, ap, ◌∙◌, List, [], ◌∷◌, ◌++◌, Option, none, some, Bytes,
  Bool, true, false, ◌==◌, not, ◌&&◌, ◌||◌, if◌then◌else◌, bytes_eq, bytes_eq→eq, bytes_eq_refl,
  Bool-cases, if_true, if_false, arith,
}
use xcryptossh.Hosts.{HostPattern, wildcard_match, patterns_match}
use xcryptossh.Hosts.Wildcards.{match_byte}
use xcryptossh.Hosts.Addresses.{
  contains, split_host_port, bracketed, normalize, new_hostname_matcher, host_patterns, pattern_of,
  starts_with, default_port, entry, with_default,
}
use xcryptossh.Hosts.Splits.{
  contains-append, split_host_port-Apart, split_host_port-bracketed, split_host_port-none,
  split_host_port-no_port, split-one, Apart,
}

wildcard_match_self : (s : Bytes) → contains b'*' s ≡ false → wildcard_match s s ≡ true
unfolding wildcard_match
wildcard_match_self [] h = refl
wildcard_match_self (c ∷ s) h =
    match_byte c c s s (ground arith) ∙ ground (arith, wildcard_match_self s)

abbrev pub exactly : Bytes → Bytes → HostPattern
exactly host port = record { negate = false; addr = record { host = host; port = port } }

abbrev alone : Option HostPattern → Option (List HostPattern)
alone h = elim h [ none ↦ none | some h ↦ some (h ∷ []) ]

-- One word alone.
matcher_one :
    (c : ℕ) (p : Bytes)
    → contains b',' (c ∷ p) ≡ false
    → (c == b'!') ≡ false
    → new_hostname_matcher (c ∷ p) ≡ alone (pattern_of false c p (split_host_port (c ∷ p)))
unfolding new_hostname_matcher
matcher_one c p commas plain =
    ap host_patterns (split-one b',' (c ∷ p) commas) ∙ ap alone (if_false _ _ plain)

patterns_match-exactly :
    (host port : Bytes)
    → contains b'*' host ≡ false
    → patterns_match (exactly host port ∷ []) (record { host = host; port = port } ∷ []) ≡ true
unfolding patterns_match
patterns_match-exactly host port stars =
    ap ends (λ i. wildcard_match_self host stars i && bytes_eq_refl port i)
  where
    ends : Bool → Bool
    ends b = elim (elim b as (λ _. Option Bool) [ false ↦ some false | true ↦ some true ]) [
      | none ↦ false
      | some m ↦ m
    ]

-- In brackets.
normalize-bracketed :
    (address host port : Bytes)
    → split_host_port address ≡ some (host, port)
    → bytes_eq port default_port ≡ false
    → normalize address ≡ bracketed host ++ (b':' ∷ port)
unfolding normalize
normalize-bracketed address host port h other =
    ap (λ o. entry (with_default address o)) h ∙ if_true _ _ (ap not other)

-- With the default port.
normalize_default :
    (address host port : Bytes) (colon opens : Bool)
    → split_host_port address ≡ some (host, port)
    → bytes_eq port default_port ≡ true
    → contains b':' host ≡ colon
    → starts_with b'[' host ≡ opens
    → normalize address ≡ (if colon && not opens then bracketed host else host)
unfolding normalize
normalize_default address host port colon opens h default hc ho =
    ap (λ o. entry (with_default address o)) h ∙ (λ i. shape (default i) (hc i) (ho i))
  where
    shape : Bool → Bool → Bool → Bytes
    shape d c o =
        if not d
        then bracketed host ++ (b':' ∷ port)
        else if c && not o
        then bracketed host
        else host

no_commas :
    (host port : Bytes)
    → contains b',' host ≡ false
    → contains b',' port ≡ false
    → contains b',' (bracketed host ++ (b':' ∷ port)) ≡ false
no_commas host port h p =
    contains-append b',' (host ++ (b']' ∷ [])) (b':' ∷ port)
    ∙ (λ i. contains-append b',' host (b']' ∷ []) i || contains b',' port)
    ∙ (λ i. (h i || false) || p i)

matcher_bracketed :
    (address host port : Bytes)
    → split_host_port address ≡ some (host, port)
    → contains b',' host ≡ false
    → contains b',' port ≡ false
    → bytes_eq port default_port ≡ false
    → new_hostname_matcher (normalize address) ≡ some (exactly host port ∷ [])
matcher_bracketed address host port h commas port_commas other =
    ap new_hostname_matcher (normalize-bracketed address host port h other)
    ∙ matcher_one b'[' _ (no_commas host port commas port_commas) refl
    ∙ ap (λ o. alone (pattern_of false b'[' ((host ++ (b']' ∷ [])) ++ (b':' ∷ port)) o))
        (split_host_port-bracketed host port (split_host_port-Apart address h))

matcher_bare :
    (address host port : Bytes)
    → split_host_port address ≡ some (host, port)
    → contains b',' host ≡ false
    → (host ≢ []) × (starts_with b'!' host ≡ false)
    → bytes_eq port default_port ≡ true
    → contains b':' host ≡ false
    → new_hostname_matcher (normalize address) ≡ some (exactly host port ∷ [])
matcher_bare address [] port h commas named default bare = absurd (named.0 refl)
matcher_bare address (c ∷ host) port h commas named default bare =
    ap new_hostname_matcher (normalize_default address (c ∷ host) port false _ h default bare refl)
    ∙ matcher_one c host commas named.1
    ∙ ap (λ o. alone (pattern_of false c host o)) (split_host_port-none (c ∷ host) bare)
    ∙ ap alone (
        if_false {b = c == b'['} none (some (exactly (c ∷ host) default_port))
          (first (split_host_port-Apart address h)))
    ∙ ap (λ q. some (exactly (c ∷ host) q ∷ [])) (sym (bytes_eq→eq port default_port default))
  where
    first : Apart (c ∷ host) port → (c == b'[') ≡ false
    first a = ground (arith, a.host_open)

-- An address with a port, whose host is not empty, does not begin with `!` and has no `,` and no
-- `*`, whose port has no `,`, and which does not combine a host with a `:` and the port 22: newHostnameMatcher
-- makes one pattern, for just this host and port, of its normalised form, and the pattern matches the address.
pub new_hostname_matcher-normalize :
    (address host port : Bytes)
    → split_host_port address ≡ some (host, port)
    → (host ≢ []) × (starts_with b'!' host ≡ false)
    → (contains b',' host ≡ false) × (contains b'*' host ≡ false) × (contains b',' port ≡ false)
    → (bytes_eq port default_port ≡ false) ⊎ (contains b':' host ≡ false)
    → (new_hostname_matcher (normalize address) ≡ some (exactly host port ∷ []))
      × (patterns_match (exactly host port ∷ []) (record { host = host; port = port } ∷ []) ≡ true)
new_hostname_matcher-normalize address host port h named free shape = (
  elim (Bool-cases (bytes_eq port default_port)) [
    | inl default ↦ matcher_bare address host port h free.0 named default (no_colon shape default)
    | inr other ↦ matcher_bracketed address host port h free.0 free.2 other
  ],
  patterns_match-exactly host port free.1,
)
  where
    no_colon :
        (bytes_eq port default_port ≡ false) ⊎ (contains b':' host ≡ false)
        → bytes_eq port default_port ≡ true
        → contains b':' host ≡ false
    no_colon (inl other) default = cc
    no_colon (inr bare) default = bare

-- An address with a `:` in its host, as an IPv6 address has, and no `,` there, and with the port 22:
-- newHostnameMatcher refuses its normalised form.
pub normalize_refused :
    (address host port : Bytes)
    → split_host_port address ≡ some (host, port)
    → bytes_eq port default_port ≡ true
    → contains b':' host ≡ true
    → contains b',' host ≡ false
    → new_hostname_matcher (normalize address) ≡ none
normalize_refused address host port h default colon commas =
    let a = split_host_port-Apart address h in
    ap new_hostname_matcher
      (normalize_default address host port true false h default colon (unopened host a.host_open))
    ∙ matcher_one b'[' (host ++ (b']' ∷ []))
        (contains-append b',' host (b']' ∷ []) ∙ (λ i. commas i || false)) refl
    ∙ ap (λ o. alone (pattern_of false b'[' (host ++ (b']' ∷ [])) o))
        (split_host_port-no_port host colon a.host_close)
  where
    unopened : (host : Bytes) → contains b'[' host ≡ false → starts_with b'[' host ≡ false
    unopened [] e = refl
    unopened (c ∷ host) e = ground arith
