-- ===== src/Hosts/Lines.antt =====
-- Reading lines of a known_hosts file: nextWord, parseLine and hostKeyDB.Read of
-- knownhosts/knownhosts.go. White space is ASCII's.
use xcryptossh.Prelude.{
  ℕ, ◌+◌, List, [], ◌∷◌, ◌++◌, Option, none, some, Bytes, Bool, ◌==◌, leb, ◌&&◌, ◌||◌,
  if◌then◌else◌, bytes_eq, codes, Result, ok, err, ◌>>=◌,
}
use xcryptossh.Hosts.Addresses.{split, new_hostname_matcher}
use xcryptossh.Hosts.Database.{HostKeys, KnownKey, Matcher, HostKeyDb, patterns, hashed}

pub data LineError : Type 0 where
  missing_host missing_key_type bad_base64 bad_key bad_pattern bad_hash bad_hash_type no_host :
      LineError

abbrev pub is_space : ℕ → Bool
is_space c = c == 32 || (leb 9 c && leb c 13)

unfoldable pub trim_left : Bytes → Bytes
trim_left [] = []
trim_left (c ∷ s) = let rest = trim_left s in if is_space c then rest else c ∷ s

abbrev pub trim_end : ℕ → Bytes → Bytes
trim_end c [] = if is_space c then [] else c ∷ []
trim_end c (d ∷ s) = c ∷ d ∷ s

unfoldable pub trim_right : Bytes → Bytes
trim_right [] = []
trim_right (c ∷ s) = trim_end c (trim_right s)

-- bytes.TrimSpace
unfoldable pub trim_space : Bytes → Bytes
unfolding trim_left trim_right
trim_space s = trim_right (trim_left s)

abbrev pub is_blank : ℕ → Bool
is_blank c = c == 9 || c == 32

-- The line up to the first tab or space, and from there on.
unfoldable pub cut_blank : Bytes → Bytes × Bytes
cut_blank [] = ([], [])
cut_blank (c ∷ s) =
    let (word, rest) = cut_blank s in if is_blank c then ([], c ∷ s) else (c ∷ word, rest)

unfoldable pub next_word : Bytes → Bytes × Bytes
unfolding cut_blank trim_space
next_word line = let (word, rest) = cut_blank line in (word, trim_space rest)

abbrev pub marker_cert : Bytes
marker_cert = codes "@cert-authority"

abbrev pub marker_revoked : Bytes
marker_revoked = codes "@revoked"

-- The marker, if there is one, and the line behind it.
abbrev pub cut_marker : Bytes × Bytes → Bytes → Bytes × Bytes
cut_marker (w, next) line =
    if bytes_eq w marker_cert || bytes_eq w marker_revoked then (w, next) else ([], line)

abbrev pub require : Bytes → LineError → Result LineError Bytes
require [] e = err e
require (c ∷ s) e = ok (c ∷ s)

abbrev pub found {ℓ} : {A : Type ℓ} → Option A → LineError → Result LineError A
found none e = err e
found (some a) e = ok a

-- decodeHash: the type, the salt and the hash.
abbrev pub hash_parts : HostKeys → List Bytes → Result LineError (Bytes × Bytes × Bytes)
hash_parts ks (start ∷ typ ∷ salt ∷ hash ∷ []) = found (ks.decode64 salt) bad_base64 >>= λ s.
    found (ks.decode64 hash) bad_base64 >>= λ h. ok (typ, s, h)
hash_parts ks _ = err bad_hash

unfoldable pub decode_hash : HostKeys → Bytes → Result LineError (Bytes × Bytes × Bytes)
unfolding split
decode_hash ks [] = err bad_hash
decode_hash ks (c ∷ s) = if c == b'|' then hash_parts ks (split b'|' (c ∷ s)) else err bad_hash

abbrev pub sha1_hash_type : Bytes
sha1_hash_type = codes "1"

abbrev pub hashed_of : Bytes × Bytes × Bytes → Result LineError Matcher
hashed_of (typ, salt, hash) =
    if bytes_eq typ sha1_hash_type then ok (hashed salt hash) else err bad_hash_type

unfoldable pub new_hashed_host : HostKeys → Bytes → Result LineError Matcher
unfolding decode_hash
new_hashed_host ks encoded = decode_hash ks encoded >>= hashed_of

-- The file's line, as parseLine takes it apart.
pub record Parsed (K : Type 0) : Type 0 where
  pub marker : Bytes
  pub host : Bytes
  pub key : K

abbrev pub parse_rest : (ks : HostKeys) → Bytes × Bytes → Result LineError (Parsed ks.Key)
parse_rest ks (marker, line) =
    let (host, line1) = next_word line in
    require line1 missing_host >>= λ l1. require (next_word l1).1 missing_key_type >>= λ l2.
    found (ks.decode64 (next_word l2).0) bad_base64 >>= λ blob.
    found (ks.parse_key blob) bad_key >>= λ key.
    ok (record { marker = marker; host = host; key = key })

unfoldable pub parse_line : (ks : HostKeys) → Bytes → Result LineError (Parsed ks.Key)
unfolding next_word
parse_line ks line = parse_rest ks (cut_marker (next_word line) line)

-- `pattern[0]`: the code would panic where there is none.
abbrev pub new_matcher : HostKeys → Bytes → Result LineError Matcher
new_matcher ks [] = err no_host
new_matcher ks (c ∷ pattern) =
    if c == b'|'
    then new_hashed_host ks (c ∷ pattern)
    else found (new_hostname_matcher (c ∷ pattern)) bad_pattern >>= λ ps. ok (patterns ps)

abbrev pub add_entry :
    (ks : HostKeys)
    → Bytes
    → ℕ
    → Parsed ks.Key
    → HostKeyDb ks.Key
    → Result LineError (HostKeyDb ks.Key)
add_entry ks filename num p db =
    let known : KnownKey ks.Key = record { key = p.key; filename = filename; line = num } in
    if bytes_eq p.marker marker_revoked
    then ok (record db { revoked = (ks.marshal p.key, known) ∷ db.revoked })
    else new_matcher ks p.host >>= λ m. ok (record db {
      lines =
          db.lines
          ++ (record { cert = bytes_eq p.marker marker_cert; matcher = m; known = known } ∷ []);
    })

-- The method parseLine.
unfoldable pub db_parse_line :
    (ks : HostKeys) → Bytes → Bytes → ℕ → HostKeyDb ks.Key → Result LineError (HostKeyDb ks.Key)
unfolding parse_line new_hashed_host
db_parse_line ks line filename num db = parse_line ks line >>= λ p. add_entry ks filename num p db

-- One line of the file, already trimmed.
abbrev pub read_line :
    (ks : HostKeys) → Bytes → Bytes → ℕ → HostKeyDb ks.Key → Result LineError (HostKeyDb ks.Key)
read_line ks [] filename num db = ok db
read_line ks (c ∷ line) filename num db =
    if c == b'#' then ok db else db_parse_line ks (c ∷ line) filename num db

-- The lines behind the first `n`.
unfoldable pub read_lines :
    (ks : HostKeys)
    → Bytes
    → List Bytes
    → ℕ
    → HostKeyDb ks.Key
    → Result LineError (HostKeyDb ks.Key)
unfolding db_parse_line trim_space
read_lines ks filename [] n db = ok db
read_lines ks filename (line ∷ lines) n db =
    elim (read_line ks (trim_space line) filename (n + 1) db) [
      | err e ↦ err e
      | ok db' ↦ read_lines ks filename lines (n + 1) db'
    ]

-- hostKeyDB.Read, from the lines that the scanner gives.
abbrev pub read :
    (ks : HostKeys) → Bytes → List Bytes → HostKeyDb ks.Key → Result LineError (HostKeyDb ks.Key)
read ks filename lines db = read_lines ks filename lines 0 db
