-- ===== src/Hosts/Blanks.antt =====
-- The line that parseLine of knownhosts/knownhosts.go gets is trimmed, so the host that it finds has
-- a first byte, which `pattern[0]` reads.
use xcryptossh.Prelude.{
  ℕ, ◌+◌, ◌≡◌, ◌≢◌, refl, sym, ap, ◌∙◌, subst, List, [], ◌∷◌, Option, none, some, Bytes, Bool, true,
  false, ◌==◌, ◌||◌, if◌then◌else◌, bytes_eq, Result, ok, err, ◌>>=◌, >>=-eq-ok, arith, if_true,
  if_false, Bool-cases, inl, inr,
}
use xcryptossh.Hosts.Addresses.{split, new_hostname_matcher}
use xcryptossh.Hosts.Database.{HostKeys, HostKeyDb}
use xcryptossh.Hosts.Lines.{
  LineError, missing_host, missing_key_type, bad_base64, bad_key, bad_pattern, bad_hash, no_host,
  Parsed, is_space, trim_left, trim_end, trim_right, trim_space, is_blank, cut_blank, next_word,
  cut_marker, marker_cert, marker_revoked, require, found, hash_parts, hashed_of, new_hashed_host,
  parse_rest, parse_line, new_matcher, add_entry, db_parse_line, read_line, read_lines,
}

-- No white space in front.
abbrev Leads : Bytes → Type 0
Leads [] = Unit {0}
Leads (c ∷ s) = is_space c ≡ false

trim_left-Leads : (s : Bytes) → Leads (trim_left s)
unfolding trim_left
trim_left-Leads [] = tt
trim_left-Leads (c ∷ s) = elim (Bool-cases (is_space c)) [
  | inl space ↦ subst Leads (sym (if_true _ _ space)) (trim_left-Leads s)
  | inr other ↦ subst Leads (sym (if_false _ (c ∷ s) other)) other
]

trim_right-Leads : (s : Bytes) → Leads s → Leads (trim_right s)
unfolding trim_right
trim_right-Leads [] h = tt
trim_right-Leads (c ∷ s) h = go (trim_right s)
  where
    go : (t : Bytes) → Leads (trim_end c t)
    go [] = subst Leads (sym (if_false [] (c ∷ []) h)) h
    go (d ∷ t) = h

trim_space-Leads : (s : Bytes) → Leads (trim_space s)
unfolding trim_space
trim_space-Leads s = trim_right-Leads (trim_left s) (trim_left-Leads s)

next_word-Leads : (s : Bytes) → Leads (next_word s).1
unfolding next_word
next_word-Leads s = trim_space-Leads (cut_blank s).1

next_word_named :
    (c : ℕ) (s : Bytes) → is_space c ≡ false → (w : Bytes) × ((next_word (c ∷ s)).0 ≡ c ∷ w)
unfolding next_word
next_word_named c s h = (
  (cut_blank s).0,
  ap (λ (r : Bytes × Bytes). r.0)
      (if_false {b = is_blank c} ([], c ∷ s) (c ∷ (cut_blank s).0, (cut_blank s).1) (ground arith)),
)

cut_marker-Leads : (line : Bytes) → Leads line → Leads (cut_marker (next_word line) line).1
cut_marker-Leads line h =
    go (bytes_eq (next_word line).0 marker_cert || bytes_eq (next_word line).0 marker_revoked)
  where
    go : (b : Bool) → Leads (if b then next_word line else ([], line)).1
    go true = next_word-Leads line
    go false = h

parse_rest_named :
    (ks : HostKeys) (marker line : Bytes) (p : Parsed ks.Key)
    → Leads line
    → parse_rest ks (marker, line) ≡ ok p
    → (c : ℕ) × (w : Bytes) × (p.host ≡ c ∷ w)
unfolding next_word
parse_rest_named ks marker [] p h e = cc
parse_rest_named ks marker (c ∷ s) p h e =
    let (w, named) = next_word_named c s h in
    let (l1, _, e1) = >>=-eq-ok (require (next_word (c ∷ s)).1 missing_host) _ e in
    let (l2, _, e2) = >>=-eq-ok (require (next_word l1).1 missing_key_type) _ e1 in
    let (blob, _, e3) = >>=-eq-ok (found (ks.decode64 (next_word l2).0) bad_base64) _ e2 in
    let (key, _, e4) = >>=-eq-ok (found (ks.parse_key blob) bad_key) _ e3 in
    (c, w, sym (ap host_of e4) ∙ named)
  where
    host_of : Result LineError (Parsed ks.Key) → Bytes
    host_of (ok q) = q.host
    host_of (err x) = []

-- The error that stands for the panic is not returned.
abbrev NoPanic {ℓ} : {A : Type ℓ} → Result LineError A → Type 0
NoPanic (ok a) = Unit {0}
NoPanic (err e) = e ≢ no_host

bind-NoPanic {ℓ κ} :
    {A : Type ℓ} {B : Type κ} (m : Result LineError A) (f : A → Result LineError B)
    → NoPanic m
    → ((a : A) → m ≡ ok a → NoPanic (f a))
    → NoPanic (m >>= f)
bind-NoPanic (ok a) f h k = k a refl
bind-NoPanic (err e) f h k = h

found-NoPanic {ℓ} : {A : Type ℓ} (o : Option A) (e : LineError) → e ≢ no_host → NoPanic (found o e)
found-NoPanic none e h = h
found-NoPanic (some a) e h = tt

require-NoPanic : (s : Bytes) (e : LineError) → e ≢ no_host → NoPanic (require s e)
require-NoPanic [] e h = h
require-NoPanic (c ∷ s) e h = tt

if-NoPanic {ℓ} :
    {A : Type ℓ} (b : Bool) (x y : Result LineError A)
    → NoPanic x
    → NoPanic y
    → NoPanic (if b then x else y)
if-NoPanic true x y h k = h
if-NoPanic false x y h k = k

hash_parts-NoPanic : (ks : HostKeys) (l : List Bytes) → NoPanic (hash_parts ks l)
hash_parts-NoPanic ks [] = λ e. cc
hash_parts-NoPanic ks (a ∷ []) = λ e. cc
hash_parts-NoPanic ks (a ∷ b ∷ []) = λ e. cc
hash_parts-NoPanic ks (a ∷ b ∷ c ∷ []) = λ e. cc
hash_parts-NoPanic ks (a ∷ b ∷ c ∷ d ∷ []) =
    bind-NoPanic (found (ks.decode64 c) bad_base64) _ (found-NoPanic _ bad_base64 (λ e. cc)) λ s _.
      bind-NoPanic (found (ks.decode64 d) bad_base64) _ (found-NoPanic _ bad_base64 (λ e. cc))
        λ h _. tt
hash_parts-NoPanic ks (a ∷ b ∷ c ∷ d ∷ e ∷ l) = λ e. cc

new_hashed_host-NoPanic : (ks : HostKeys) (s : Bytes) → NoPanic (new_hashed_host ks s)
unfolding new_hashed_host
new_hashed_host-NoPanic ks [] = λ e. cc
new_hashed_host-NoPanic ks (c ∷ s) =
    bind-NoPanic (if c == b'|' then hash_parts ks (split b'|' (c ∷ s)) else err bad_hash) hashed_of
      (if-NoPanic (c == b'|') _ _ (hash_parts-NoPanic ks (split b'|' (c ∷ s))) (λ e. cc))
      (λ r _. if-NoPanic (bytes_eq r.0 _) _ _ tt (λ e. cc))

new_matcher-NoPanic : (ks : HostKeys) (c : ℕ) (s : Bytes) → NoPanic (new_matcher ks (c ∷ s))
new_matcher-NoPanic ks c s = if-NoPanic (c == b'|') _ _ (new_hashed_host-NoPanic ks (c ∷ s)) (
    bind-NoPanic (found (new_hostname_matcher (c ∷ s)) bad_pattern) _
      (found-NoPanic _ bad_pattern (λ e. cc)) (λ ps _. tt))

parse_rest-NoPanic : (ks : HostKeys) (marker line : Bytes) → NoPanic (parse_rest ks (marker, line))
parse_rest-NoPanic ks marker line =
    bind-NoPanic (require (next_word line).1 missing_host) _
      (require-NoPanic _ missing_host (λ e. cc))
      λ l1 _.
        bind-NoPanic (require (next_word l1).1 missing_key_type) _
          (require-NoPanic _ missing_key_type (λ e. cc))
          λ l2 _.
            bind-NoPanic (found (ks.decode64 (next_word l2).0) bad_base64) _
              (found-NoPanic _ bad_base64 (λ e. cc))
              λ blob _.
                bind-NoPanic (found (ks.parse_key blob) bad_key) _
                  (found-NoPanic _ bad_key (λ e. cc)) λ key _. tt

db_parse_line-NoPanic :
    (ks : HostKeys) (line filename : Bytes) (n : ℕ) (db : HostKeyDb ks.Key)
    → Leads line
    → NoPanic (db_parse_line ks line filename n db)
unfolding db_parse_line parse_line
db_parse_line-NoPanic ks line filename n db leads =
    let cut = cut_marker (next_word line) line in
    bind-NoPanic (parse_rest ks cut) (λ p. add_entry ks filename n p db)
      (parse_rest-NoPanic ks cut.0 cut.1)
      λ p parsed. if-NoPanic (bytes_eq p.marker marker_revoked) _ _ tt (
        bind-NoPanic (new_matcher ks p.host) _
          (let (c, w, named) =
              parse_rest_named ks cut.0 cut.1 p (cut_marker-Leads line leads) parsed in
            subst (λ h. NoPanic (new_matcher ks h)) (sym named) (new_matcher-NoPanic ks c w))
          (λ m _. tt))

read_line-NoPanic :
    (ks : HostKeys) (line filename : Bytes) (n : ℕ) (db : HostKeyDb ks.Key)
    → Leads line
    → NoPanic (read_line ks line filename n db)
read_line-NoPanic ks [] filename n db leads = tt
read_line-NoPanic ks (c ∷ line) filename n db leads =
    if-NoPanic (c == b'#') _ _ tt (db_parse_line-NoPanic ks (c ∷ line) filename n db leads)

-- Whatever bytes the lines of a file hold, reading it does not come to index an empty host pattern.
pub read_lines-ne-no_host :
    (ks : HostKeys) (filename : Bytes) (lines : List Bytes) (n : ℕ) (db : HostKeyDb ks.Key)
    → read_lines ks filename lines n db ≢ err no_host
unfolding read_lines
read_lines-ne-no_host ks filename [] n db = λ e. cc
read_lines-ne-no_host ks filename (line ∷ lines) n db =
    go (read_line ks (trim_space line) filename (n + 1) db)
      (read_line-NoPanic ks (trim_space line) filename (n + 1) db (trim_space-Leads line))
      (λ d. read_lines-ne-no_host ks filename lines (n + 1) d)
  where
    go :
        (r : Result LineError (HostKeyDb ks.Key))
        → NoPanic r
        → ((d : HostKeyDb ks.Key) → read_lines ks filename lines (n + 1) d ≢ err no_host)
        → elim r as (λ _. Result LineError (HostKeyDb ks.Key)) [
          | err e ↦ err e
          | ok d ↦ read_lines ks filename lines (n + 1) d
        ]
          ≢ err no_host
    go (ok d) h k = k d
    go (err e) h k = λ same. h cc
