-- ===== src/Tests/Hosts.antt =====
-- The theorems on known hosts, with keys that are byte strings and a base64 that only steps over `|`.
use xcryptossh.Prelude.{
  ◌+◌, ◌-◌, ◌≡◌, ◌≢◌, ◌↔◌, inl, refl, ap, List, [], ◌∷◌, ◌++◌, none, some, ok, err, Bytes, true,
  false, ltb, if◌then◌else◌, codes, arith, bytes_eq,
}
use xcryptossh.Hosts.{Addr, HostPattern, wildcard_match, patterns_match}
use xcryptossh.Hosts.Wildcards.{Glob, strict, wildcard_match_iff}
use xcryptossh.Hosts.Addresses.{
  contains, split_host_port, normalize, new_hostname_matcher, addr_string,
}
use xcryptossh.Hosts.Normal.{exactly, new_hostname_matcher-normalize}
use xcryptossh.Hosts.Database.{
  HostKeys, KnownKey, HostKeyDb, patterns, revoked_key, key_eq, check_addrs, check, is_revoked,
  Matcher, matcher_match,
}
use xcryptossh.Hosts.Checks.{expected, check_addrs_iff}
use xcryptossh.Hosts.Hashes.{hash_hostname, hash_hostname-matches}
use xcryptossh.Hosts.Lines.{
  new_hashed_host, parse_line, read_lines, trim_space, marker_revoked, no_host, Parsed,
}
use xcryptossh.Hosts.Revocation.{check-read_lines_revoked}
use xcryptossh.Hosts.Blanks.{read_lines-ne-no_host}

abbrev pub over_bar : Bytes → Bytes
over_bar [] = []
over_bar (c ∷ s) = (if ltb c 124 then c else c + 1) ∷ over_bar s

abbrev pub back : Bytes → Bytes
back [] = []
back (c ∷ s) = (if ltb c 124 then c else c - 1) ∷ back s

pub back-over_bar : (s : Bytes) → back (over_bar s) ≡ s
back-over_bar [] = refl
back-over_bar (c ∷ s) = ground (arith, back-over_bar s)

pub over_bar_free : (s : Bytes) → contains 124 (over_bar s) ≡ false
over_bar_free [] = refl
over_bar_free (c ∷ s) = ground (arith, over_bar_free s)

abbrev pub byte_keys : HostKeys
byte_keys = record {
  Key = Bytes;
  key_type = λ k. codes "t";
  marshal = λ k. k;
  parse_key = λ b. some b;
  hmac = λ salt text. salt ++ text;
  encode64 = over_bar;
  decode64 = λ b. some (back b);
  decode64-encode64 = λ b. ap some (back-over_bar b);
  encode64_bar = over_bar_free;
}

wildcard_match_iff_example :
    (wildcard_match (codes "a*") (codes "abc") ≡ true) ↔ Glob (strict (codes "a*")) (codes "abc")
wildcard_match_iff_example = wildcard_match_iff (codes "a*") (codes "abc")

-- As the code has it, and unlike OpenSSH.
trailing_star : wildcard_match (codes "a*") (codes "a") ≡ false
unfolding wildcard_match
trailing_star = refl

abbrev pub at : Bytes → Bytes → Addr
at host port = record { host = host; port = port }

abbrev not_b : List HostPattern
not_b =
    exactly (codes "*.b") (codes "22")
    ∷ record { negate = true; addr = at (codes "x.b") (codes "22") }
    ∷ []

new_hostname_matcher-normalize_example :
    (new_hostname_matcher (normalize (codes "h.b:2222"))
      ≡ some (exactly (codes "h.b") (codes "2222") ∷ []))
    × (patterns_match
          (exactly (codes "h.b") (codes "2222") ∷ [])
          (at (codes "h.b") (codes "2222") ∷ [])
        ≡ true)
unfolding split_host_port bytes_eq
new_hostname_matcher-normalize_example =
    new_hostname_matcher-normalize (codes "h.b:2222") (codes "h.b") (codes "2222") refl
      ((λ e. cc), refl) (refl, refl, refl) (inl refl)

abbrev one_line : HostKeyDb Bytes
one_line = record {
  revoked = [];
  lines =
      record {
        cert = false;
        matcher = patterns (exactly (codes "*.b") (codes "22") ∷ []);
        known = record { key = 1 ∷ 2 ∷ []; filename = codes "f"; line = 1 };
      }
      ∷ [];
}

check_addrs_iff_example :
    (check_addrs byte_keys one_line (at (codes "h.b") (codes "22") ∷ []) (1 ∷ 2 ∷ []) ≡ none) ↔ (
      (known : KnownKey Bytes) × (expected byte_keys
          (at (codes "h.b") (codes "22") ∷ [])
          (codes "t")
          one_line.lines
        ≡ some known)
      × (key_eq byte_keys known.key (1 ∷ 2 ∷ []) ≡ true))
check_addrs_iff_example =
    check_addrs_iff byte_keys one_line (at (codes "h.b") (codes "22") ∷ []) (1 ∷ 2 ∷ [])

hash_hostname-matches_example :
    (m : Matcher) × (new_hashed_host byte_keys
        (hash_hostname byte_keys (normalize (addr_string (at (codes "h") (codes "22")))) (9 ∷ []))
      ≡ ok m)
    × (matcher_match byte_keys m
          (at (codes "10.0.0.1") (codes "22") ∷ at (codes "h") (codes "22") ∷ [])
        ≡ true)
hash_hostname-matches_example =
    hash_hostname-matches byte_keys (at (codes "h") (codes "22"))
      (at (codes "10.0.0.1") (codes "22") ∷ []) [] (9 ∷ [])

abbrev revoking : Bytes
revoking = codes " @revoked * t AB"

abbrev empty_db : HostKeyDb Bytes
empty_db = record { revoked = []; lines = [] }

abbrev after_reading : HostKeyDb Bytes
after_reading =
    elim (read_lines byte_keys (codes "f") (codes "# c" ∷ revoking ∷ codes "h t CD" ∷ []) 0
      empty_db) [ ok db ↦ db | err e ↦ empty_db ]

abbrev revoked_key_line : Parsed Bytes
revoked_key_line = record { marker = marker_revoked; host = codes "*"; key = codes "AB" }

check-read_lines_revoked_example :
    (is_revoked byte_keys after_reading (codes "AB") ≡ true)
    × ((r : KnownKey Bytes) × (check byte_keys after_reading
            (codes "h:22")
            (codes "1.2.3.4:22")
            (codes "AB")
          ≡ some (revoked_key r)))
unfolding read_lines parse_line trim_space bytes_eq split_host_port new_hostname_matcher
check-read_lines_revoked_example =
    check-read_lines_revoked byte_keys (codes "f") revoking (codes "# c" ∷ []) (codes "h t CD" ∷ [])
      0 empty_db after_reading b'@' (codes "revoked * t AB") revoked_key_line (codes "h:22")
      (codes "1.2.3.4:22") refl refl refl refl refl

read_lines-ne-no_host_example :
    read_lines byte_keys (codes "f") (codes "@cert-authority * t A" ∷ codes "  " ∷ []) 0 empty_db
    ≢ err no_host
read_lines-ne-no_host_example =
    read_lines-ne-no_host byte_keys (codes "f") (codes "@cert-authority * t A" ∷ codes "  " ∷ []) 0
      empty_db
