-- ===== src/Hosts.antt =====
-- Host patterns of knownhosts/knownhosts.go: wildcardMatch, and the matching of addresses.
pub mod Wildcards
pub mod Patterns
pub mod Addresses
pub mod Splits
pub mod Normal
pub mod Database
pub mod Lines
pub mod Hashes
pub mod Checks
pub mod Revocation
pub mod Blanks
use xcryptossh.Prelude.{
  ℕ, List, [], ◌∷◌, ◌++◌, Option, none, some, Bytes, Bool, true, false, ◌==◌, not, ◌&&◌, ◌||◌,
  if◌then◌else◌, bytes_eq,
}

-- `for j := range str` over the rests that are not empty.
pub any_suffix : (Bytes → Bool) → Bytes → Bool
any_suffix f [] = false
any_suffix f (s ∷ str) = let later = any_suffix f str in if f (s ∷ str) then true else later

-- What a `*` does: `rest` is the pattern behind it, and `matches` its test.
abbrev pub star : Bytes → (Bytes → Bool) → Bytes → Bool
star [] matches str = true
star (c ∷ rest) matches str = any_suffix matches str

abbrev pub is_empty : Bytes → Bool
is_empty [] = true
is_empty (c ∷ s) = false

unfoldable pub wildcard_match : Bytes → Bytes → Bool
unfolding any_suffix
wildcard_match [] str = is_empty str
wildcard_match (c ∷ pat) [] = false
wildcard_match (c ∷ pat) (s ∷ str) = elim (c == b'*') [
  | true ↦ star pat (wildcard_match pat) (s ∷ str)
  | false ↦ elim (c == b'?' || c == s) [ true ↦ wildcard_match pat str | false ↦ false ]
]

pub record Addr : Type 0 where
  pub host : Bytes
  pub port : Bytes

pub record HostPattern : Type 0 where
  pub negate : Bool
  pub addr : Addr

abbrev pub pattern_match : HostPattern → Addr → Bool
pattern_match p a = wildcard_match p.addr.host a.host && bytes_eq p.addr.port a.port

-- The inner loop: `none` where a negated pattern matches, which ends the whole search.
pub match_each : HostPattern → List Addr → Bool → Option Bool
match_each p [] matched = some matched
match_each p (a ∷ rest) matched = elim (pattern_match p a) [
  | false ↦ match_each p rest matched
  | true ↦ elim p.negate [ true ↦ none | false ↦ match_each p rest true ]
]

pub match_loop : List HostPattern → List Addr → Bool → Bool
match_loop [] addrs matched = matched
match_loop (p ∷ ps) addrs matched = elim (match_each p addrs matched) [
  | none ↦ false
  | some m ↦ match_loop ps addrs m
]

unfoldable pub patterns_match : List HostPattern → List Addr → Bool
unfolding match_each match_loop
patterns_match ps addrs = match_loop ps addrs false
