-- ===== src/Hosts/Hashes.antt =====
-- Hashed host names of knownhosts/knownhosts.go: encodeHash, HashHostname, and their way back.
use xcryptossh.Prelude.{
  ℕ, ◌≡◌, refl, ap, ◌∙◌, List, [], ◌∷◌, ◌++◌, Bytes, true, false, ◌==◌, bytes_eq, bytes_eq_refl, ok,
  ◌>>=◌, All, arith, if_true,
}
use xcryptossh.Hosts.{Addr}
use xcryptossh.Hosts.Addresses.{contains, split, normalize, addr_string}
use xcryptossh.Hosts.Splits.{split-one}
use xcryptossh.Hosts.Database.{HostKeys, Matcher, hashed, hash_host, match_hashed, matcher_match}
use xcryptossh.Hosts.Lines.{
  decode_hash, hash_parts, new_hashed_host, hashed_of, sha1_hash_type, bad_base64, found,
}

-- strings.Join at one byte.
unfoldable pub join : ℕ → List Bytes → Bytes
join c [] = []
join c (w ∷ []) = w
join c (w ∷ v ∷ ws) = w ++ (c ∷ join c (v ∷ ws))

unfoldable pub encode_hash : HostKeys → Bytes → Bytes → Bytes → Bytes
unfolding join
encode_hash ks typ salt hash = join b'|' ([] ∷ typ ∷ ks.encode64 salt ∷ ks.encode64 hash ∷ [])

-- HashHostname, with the salt that it draws.
abbrev pub hash_hostname : HostKeys → Bytes → Bytes → Bytes
hash_hostname ks hostname salt = encode_hash ks sha1_hash_type salt (hash_host ks hostname salt)

split-append : (c : ℕ) (w s : Bytes) → contains c w ≡ false → split c (w ++ (c ∷ s)) ≡ w ∷ split c s
unfolding split
split-append c [] s h = if_true {b = c == c} _ _ (ground arith)
split-append c (x ∷ w) s h = ground (arith, split-append c w s)

-- What was joined comes apart again.
split-join :
    (c : ℕ) (w : Bytes) (ws : List Bytes)
    → All (λ v. contains c v ≡ false) (w ∷ ws)
    → split c (join c (w ∷ ws)) ≡ w ∷ ws
unfolding join
split-join c w [] h = split-one c w h.0
split-join c w (v ∷ ws) h =
    split-append c w (join c (v ∷ ws)) h.0 ∙ ap (λ l. w ∷ l) (split-join c v ws h.1)

-- decodeHash gives back the type, the salt and the hash that encodeHash was given, for a type with
-- no `|`.
pub decode_hash-encode_hash :
    (ks : HostKeys) (typ salt hash : Bytes)
    → contains b'|' typ ≡ false
    → decode_hash ks (encode_hash ks typ salt hash) ≡ ok (typ, salt, hash)
unfolding decode_hash encode_hash
decode_hash-encode_hash ks typ salt hash plain =
    ap (hash_parts ks) (
      split-join b'|' [] (typ ∷ ks.encode64 salt ∷ ks.encode64 hash ∷ [])
        (refl, (plain, (ks.encode64_bar salt, (ks.encode64_bar hash, tt)))))
    ∙ (λ i. found (ks.decode64-encode64 salt i) bad_base64 >>= λ s.
        found (ks.decode64-encode64 hash i) bad_base64 >>= λ h. ok (typ, s, h))

-- A hash meets the address that it was made of, wherever this stands among those asked for.
match_hashed-here :
    (ks : HostKeys) (salt : Bytes) (before after : List Addr) (a : Addr)
    → match_hashed ks salt (hash_host ks (normalize (addr_string a)) salt) (before ++ (a ∷ after))
      ≡ true
unfolding match_hashed
match_hashed-here ks salt [] after a =
    if_true _ _ (bytes_eq_refl (hash_host ks (normalize (addr_string a)) salt))
match_hashed-here ks salt (b ∷ before) after a =
    ground (arith, match_hashed-here ks salt before after a)

-- A line's host that is the hash of a normalised address, under any salt, is accepted, and matches
-- whenever this address is among those asked for, first or behind others.
pub hash_hostname-matches :
    (ks : HostKeys) (a : Addr) (before after : List Addr) (salt : Bytes)
    → (m : Matcher) × (new_hashed_host ks (hash_hostname ks (normalize (addr_string a)) salt)
        ≡ ok m)
      × (matcher_match ks m (before ++ (a ∷ after)) ≡ true)
unfolding new_hashed_host bytes_eq
hash_hostname-matches ks a before after salt =
    let name : Bytes = normalize (addr_string a) in
    let hash : Bytes = hash_host ks name salt in
    (
      hashed salt hash,
      ap (λ r. r >>= hashed_of) (decode_hash-encode_hash ks sha1_hash_type salt hash refl),
      match_hashed-here ks salt before after a,
    )
