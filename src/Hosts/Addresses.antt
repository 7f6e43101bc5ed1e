-- ===== src/Hosts/Addresses.antt =====
-- Addresses of knownhosts/knownhosts.go: addr.String, Normalize, the patterns that newHostnameMatcher
-- makes, and the standard library's net.SplitHostPort and strings.Split that they rest on.
use xcryptossh.Prelude.{
  ℕ, List, [], ◌∷◌, ◌++◌, Option, none, some, Bytes, Bool, true, false, ◌==◌, not, ◌&&◌, ◌||◌,
  if◌then◌else◌, bytes_eq, codes,
}
use xcryptossh.Hosts.{Addr, HostPattern}

abbrev pub contains : ℕ → Bytes → Bool
contains c [] = false
contains c (x ∷ s) = x == c || contains c s

-- The part before the first `c`, and the part behind it.
unfoldable pub cut_first : ℕ → Bytes → Option (Bytes × Bytes)
cut_first c [] = none
cut_first c (x ∷ s) =
    let later = cut_first c s in
    if x == c then some ([], s) else elim later [ none ↦ none | some (a, b) ↦ some (x ∷ a, b) ]

-- The same at the last `c`.
unfoldable pub cut_last : ℕ → Bytes → Option (Bytes × Bytes)
cut_last c [] = none
cut_last c (x ∷ s) = elim (cut_last c s) [
  | some (a, b) ↦ some (x ∷ a, b)
  | none ↦ if x == c then some ([], s) else none
]

-- Behind the `]`: `inside` is what follows the `[` at the start.
abbrev pub split_bracketed : Bytes → Option (Bytes × Bytes) → Option (Bytes × Bytes)
split_bracketed inside none = none
split_bracketed inside (some (host, [])) = none
split_bracketed inside (some (host, c ∷ port)) =
    if c == b':'
      && not (contains b':' port)
      && not (contains b'[' inside)
      && not (contains b']' port)
    then some (host, port)
    else none

abbrev pub split_plain : Bytes × Bytes → Option (Bytes × Bytes)
split_plain (host, port) =
    if contains b':' host
      || contains b'[' host
      || contains b'[' port
      || contains b']' host
      || contains b']' port
    then none
    else some (host, port)

abbrev pub split_at_last : Bytes → Option (Bytes × Bytes) → Option (Bytes × Bytes)
split_at_last s none = none
split_at_last [] (some parts) = none
split_at_last (c ∷ s) (some parts) =
    if c == b'[' then split_bracketed s (cut_first b']' s) else split_plain parts

-- net.SplitHostPort: `none` is its error.
unfoldable pub split_host_port : Bytes → Option (Bytes × Bytes)
unfolding cut_first cut_last
split_host_port s = split_at_last s (cut_last b':' s)

abbrev pub default_port : Bytes
default_port = codes "22"

-- `addr.String`
unfoldable pub addr_string : Addr → Bytes
addr_string a =
    (if contains b':' a.host then b'[' ∷ a.host ++ (b']' ∷ []) else a.host) ++ (b':' ∷ a.port)

abbrev pub starts_with : ℕ → Bytes → Bool
starts_with c [] = false
starts_with c (x ∷ s) = x == c

abbrev pub bracketed : Bytes → Bytes
bracketed s = b'[' ∷ s ++ (b']' ∷ [])

abbrev pub with_default : Bytes → Option (Bytes × Bytes) → Bytes × Bytes
with_default s none = (s, default_port)
with_default s (some parts) = parts

abbrev pub entry : Bytes × Bytes → Bytes
entry (host, port) =
    if not (bytes_eq port default_port)
    then bracketed host ++ (b':' ∷ port)
    else if contains b':' host && not (starts_with b'[' host)
    then bracketed host
    else host

unfoldable pub normalize : Bytes → Bytes
unfolding split_host_port
normalize address = entry (with_default address (split_host_port address))

-- strings.Split at one byte.
abbrev pub push_first : ℕ → List Bytes → List Bytes
push_first x [] = (x ∷ []) ∷ []
push_first x (w ∷ ws) = (x ∷ w) ∷ ws

unfoldable pub split : ℕ → Bytes → List Bytes
split c [] = [] ∷ []
split c (x ∷ s) = let rest = split c s in if x == c then [] ∷ rest else push_first x rest

-- One word between commas that is not empty, behind its `!`.
abbrev pub pattern_of : Bool → ℕ → Bytes → Option (Bytes × Bytes) → Option HostPattern
pattern_of negate c p (some (host, port)) =
    some (record { negate = negate; addr = record { host = host; port = port } })
pattern_of negate c p none =
    if c == b'['
    then none
    else some (record { negate = negate; addr = record { host = c ∷ p; port = default_port } })

abbrev pub host_pattern : Bool → Bytes → Option HostPattern
host_pattern negate [] = none
host_pattern negate (c ∷ p) = pattern_of negate c p (split_host_port (c ∷ p))

abbrev pub one_pattern : Bytes → Option HostPattern
one_pattern [] = none
one_pattern (c ∷ p) = if c == b'!' then host_pattern true p else host_pattern false (c ∷ p)

unfoldable pub host_patterns : List Bytes → Option (List HostPattern)
host_patterns [] = some []
host_patterns ([] ∷ words) = host_patterns words
host_patterns ((c ∷ p) ∷ words) = elim (one_pattern (c ∷ p)) [
  | none ↦ none
  | some h ↦ elim (host_patterns words) [ none ↦ none | some hs ↦ some (h ∷ hs) ]
]

-- newHostnameMatcher: `none` is its error.
unfoldable pub new_hostname_matcher : Bytes → Option (List HostPattern)
unfolding split split_host_port host_patterns
new_hostname_matcher pattern = host_patterns (split b',' pattern)
