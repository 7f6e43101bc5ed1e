-- ===== src/Hosts/Patterns.antt =====
-- What the loops of hostPatterns.match come to.
use xcryptossh.Prelude.{
  ◌≡◌, List, [], ◌∷◌, none, some, Bool, true, false, not, ◌&&◌, ◌||◌, if◌then◌else◌, arith,
}
use xcryptossh.Hosts.{Addr, HostPattern, pattern_match, match_each, match_loop, patterns_match}

abbrev pub any {ℓ} : {A : Type ℓ} → (A → Bool) → List A → Bool
any f [] = false
any f (x ∷ xs) = f x || any f xs

-- A pattern that is negated, or one that is not, matches one of the addresses.
abbrev pub hits : Bool → List Addr → HostPattern → Bool
hits negated addrs p = (if negated then p.negate else not p.negate) && any (pattern_match p) addrs

match_each_lem :
    (p : HostPattern) (addrs : List Addr) (m : Bool)
    → match_each p addrs m ≡ (if hits true addrs p then none else some (m || hits false addrs p))
unfolding match_each
match_each_lem p [] m = ground arith
match_each_lem p (a ∷ rest) m = ground (arith, match_each_lem p rest m, match_each_lem p rest true)

match_loop_lem :
    (ps : List HostPattern) (addrs : List Addr) (m : Bool)
    → match_loop ps addrs m ≡ not (any (hits true addrs) ps) && (m || any (hits false addrs) ps)
unfolding match_loop
match_loop_lem [] addrs m = ground arith
match_loop_lem (p ∷ ps) addrs m = ground (
  arith,
  match_each_lem p addrs m,
  match_loop_lem ps addrs m,
  match_loop_lem ps addrs (m || hits false addrs p),
)

-- The patterns match exactly when some pattern that is not negated matches one of the addresses, and
-- no negated one matches any, wherever in the list they stand.
pub patterns_match_lem :
    (ps : List HostPattern) (addrs : List Addr)
    → patterns_match ps addrs ≡ not (any (hits true addrs) ps) && any (hits false addrs) ps
unfolding patterns_match
patterns_match_lem ps addrs = match_loop_lem ps addrs false
