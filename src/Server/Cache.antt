-- ===== src/Server/Cache.antt =====
-- The cache of public keys in server.go, against the callback that fills it.
use xcryptossh.Prelude.{
  ◌≡◌, refl, ap₂, subst, ◌∙◌, List, [], ◌∷◌, ◌++◌, Option, none, some, Bytes, Bool, true, false,
  if◌then◌else◌, Result, ok, arith, All, All-append, bytes_eq, bytes_eq→eq, ◌&&◌, length, ltb,
}
use xcryptossh.Server.{
  Permissions, Refusal, Server, CachedPubKey, Session, restrict, cache_get, cache_add,
  max_cached_pub_keys,
}
use xcryptossh.Server.Attempts.{find_candidate}

cache_get-All :
    {E : Type 0} (P : CachedPubKey E → Type 0) (user key_data : Bytes)
    (cache : List (CachedPubKey E)) {c : CachedPubKey E}
    → All P cache
    → cache_get user key_data cache ≡ some c
    → P c × (c.user ≡ user) × (c.pub_key_data ≡ key_data)
unfolding cache_get
cache_get-All P user key_data [] all found = cc
cache_get-All {E} P user key_data (k ∷ ks) {c} all found =
    go (bytes_eq k.user user) refl (bytes_eq k.pub_key_data key_data) refl
      (cache_get-All P user key_data ks all.1) found
  where
    go :
        (a : Bool)
        → bytes_eq k.user user ≡ a
        → (b : Bool) → bytes_eq k.pub_key_data key_data ≡ b
        → (cache_get user key_data ks ≡ some c
            → P c × (c.user ≡ user) × (c.pub_key_data ≡ key_data))
        → (if a && b then some k else cache_get user key_data ks) ≡ some c
        → P c × (c.user ≡ user) × (c.pub_key_data ≡ key_data)
    go true ea true eb later e =
        let same : k ≡ c = cc in
        subst (λ (x : CachedPubKey E). P x × (x.user ≡ user) × (x.pub_key_data ≡ key_data)) same
          (all.0, bytes_eq→eq _ _ ea, bytes_eq→eq _ _ eb)
    go true ea false eb later e = later e
    go false ea b eb later e = later e

cache_add-All :
    {E : Type 0} (P : CachedPubKey E → Type 0) (c : CachedPubKey E) (cache : List (CachedPubKey E))
    → P c
    → All P cache
    → All P (cache_add c cache)
unfolding cache_add
cache_add-All P c cache pc all = go (ltb (length cache) max_cached_pub_keys)
  where
    go : (b : Bool) → All P (if b then cache ++ (c ∷ []) else cache)
    go true = All-append P cache (c ∷ []) all (pc, tt)
    go false = all

module _ {K E IP Net : Type 0} (S : Server K E IP Net)
    (f : Bytes → K → Result E (Option Permissions)) where
  -- An entry holds what the callback `f` says of a key that parses.
  pub record IsFaithful (c : CachedPubKey E) : Type 0 where
    pub key : K
    pub parses : S.parse_public_key c.pub_key_data ≡ ok key
    pub says : c.result ≡ restrict S (f c.user key)

  -- With a faithful cache the candidate is the callback's, held against the source address, and the
  -- cache stays faithful.
  pub find_candidate_lem :
      (user key_data : Bytes) (key : K) (s : Session E)
      → S.parse_public_key key_data ≡ ok key
      → All IsFaithful s.cache
      → ((find_candidate S f user key_data key s).0 ≡ restrict S (f user key))
        × All IsFaithful (find_candidate S f user key_data key s).1.cache
  unfolding find_candidate
  find_candidate_lem user key_data key s parses all = go (cache_get user key_data s.cache) refl
    where
      fresh : CachedPubKey E
      fresh = record { user = user; pub_key_data = key_data; result = restrict S (f user key) }

      out : Option (CachedPubKey E) → Result (Refusal E) (Option Permissions) × Session E
      out o = elim o [
        | some candidate ↦ (candidate.result, s)
        | none ↦ (restrict S (f user key), record s { cache = cache_add fresh s.cache })
      ]

      go :
          (o : Option (CachedPubKey E))
          → cache_get user key_data s.cache ≡ o
          → ((out o).0 ≡ restrict S (f user key)) × All IsFaithful (out o).1.cache
      go none e = (
        refl,
        cache_add-All IsFaithful fresh s.cache (record { key = key; parses = parses; says = refl })
            all,
      )
      go (some c) e =
          let (faithful, user_eq, data_eq) = cache_get-All IsFaithful user key_data s.cache all e in
          let same : faithful.key ≡ key = grind (arith, faithful.parses) in
          (faithful.says ∙ ap₂ (λ u k. restrict S (f u k)) user_eq same, all)

-- Every entry of the cache is faithful to the callback, where there is one.
abbrev pub Trusted :
    {K E IP Net : Type 0}
    → Server K E IP Net
    → Option (Bytes → K → Result E (Option Permissions))
    → List (CachedPubKey E)
    → Type 0
Trusted S none cache = Unit {0}
Trusted S (some f) cache = All (IsFaithful S f) cache
