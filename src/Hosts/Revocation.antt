-- ===== src/Hosts/Revocation.antt =====
-- Revoked keys of knownhosts/knownhosts.go, from the file to the check.
use xcryptossh.Prelude.{
  ℕ, ◌+◌, ◌≡◌, refl, sym, ap, ◌∙◌, subst, List, [], ◌∷◌, ◌++◌, some, Bytes, true, false, ◌==◌,
  bytes_eq, bytes_eq_refl, Result, ok, err, ◌>>=◌, >>=-eq-ok, if_true, if_false, Bool-cases, inl,
  inr,
}
use xcryptossh.Hosts.Database.{
  HostKeys, KnownKey, HostKeyDb, revoked_key, lookup, check, check_revoked, is_revoked, is_some,
}
use xcryptossh.Hosts.Lines.{
  LineError, Parsed, trim_space, parse_line, add_entry, new_matcher, db_parse_line, read_line,
  read_lines, marker_revoked,
}

ok_inj {ℓ} : {A : Type ℓ} {x y : A} → ◌≡◌ {A = Result LineError A} (ok x) (ok y) → x ≡ y
ok_inj e = cc

module _ (ks : HostKeys) where
  open ks use {Key, marshal}

  -- The database knows a revoked key of this form.
  abbrev Revokes : HostKeyDb Key → Bytes → Type 0
  Revokes db m = (r : KnownKey Key) × (lookup m db.revoked ≡ some r)

  lookup-cons :
      (m j : Bytes) (v : KnownKey Key) (l : List (Bytes × KnownKey Key))
      → (r : KnownKey Key) × (lookup m l ≡ some r)
      → (r : KnownKey Key) × (lookup m ((j, v) ∷ l) ≡ some r)
  unfolding lookup
  lookup-cons m j v l (r, h) = elim (Bool-cases (bytes_eq j m)) [
    | inl same ↦ (v, if_true _ _ same)
    | inr other ↦ (r, if_false _ _ other ∙ h)
  ]

  add_entry-Revokes :
      (filename : Bytes) (n : ℕ) (p : Parsed Key) (db db' : HostKeyDb Key) (m : Bytes)
      → Revokes db m
      → add_entry ks filename n p db ≡ ok db'
      → Revokes db' m
  add_entry-Revokes filename n p db db' m r h =
      elim (Bool-cases (bytes_eq p.marker marker_revoked)) [
        | inl revoking ↦
            subst (λ d. Revokes d m) (ok_inj (sym (if_true _ _ revoking) ∙ h))
              (lookup-cons m (marshal p.key) _ db.revoked r)
        | inr listed ↦
            let (matcher, made, added) =
              >>=-eq-ok (new_matcher ks p.host) _ (sym (if_false _ _ listed) ∙ h) in
            subst (λ d. Revokes d m) (ok_inj added) r
      ]

  read_line-Revokes :
      (line filename : Bytes) (n : ℕ) (db db' : HostKeyDb Key) (m : Bytes)
      → Revokes db m
      → read_line ks line filename n db ≡ ok db'
      → Revokes db' m
  unfolding db_parse_line
  read_line-Revokes [] filename n db db' m r h = subst (λ d. Revokes d m) (ok_inj h) r
  read_line-Revokes (c ∷ line) filename n db db' m r h = elim (Bool-cases (c == b'#')) [
    | inl comment ↦ subst (λ d. Revokes d m) (ok_inj (sym (if_true _ _ comment) ∙ h)) r
    | inr entry ↦
        let (p, parsed, added) =
          >>=-eq-ok (parse_line ks (c ∷ line)) (λ p. add_entry ks filename n p db)
            (sym (if_false _ _ entry) ∙ h) in
        add_entry-Revokes filename n p db db' m r added
  ]

  -- One line, and then the others.
  read_lines_step :
      (filename line : Bytes) (lines : List Bytes) (n : ℕ) (db db' : HostKeyDb Key)
      → read_lines ks filename (line ∷ lines) n db ≡ ok db'
      → (db1 : HostKeyDb Key) × (read_line ks (trim_space line) filename (n + 1) db ≡ ok db1)
        × (read_lines ks filename lines (n + 1) db1 ≡ ok db')
  unfolding read_lines
  read_lines_step filename line lines n db db' h =
      go (read_line ks (trim_space line) filename (n + 1) db) h
    where
      go :
          (r : Result LineError (HostKeyDb Key))
          → elim r as (λ _. Result LineError (HostKeyDb Key)) [
            | err e ↦ err e
            | ok d ↦ read_lines ks filename lines (n + 1) d
          ]
            ≡ ok db'
          → (db1 : HostKeyDb Key) × (r ≡ ok db1)
            × (read_lines ks filename lines (n + 1) db1 ≡ ok db')
      go (ok d) g = (d, refl, g)
      go (err e) g = cc

  read_lines-Revokes :
      (filename : Bytes) (lines : List Bytes) (n : ℕ) (db db' : HostKeyDb Key) (m : Bytes)
      → Revokes db m
      → read_lines ks filename lines n db ≡ ok db'
      → Revokes db' m
  unfolding read_lines
  read_lines-Revokes filename [] n db db' m r h = subst (λ d. Revokes d m) (ok_inj h) r
  read_lines-Revokes filename (line ∷ lines) n db db' m r h =
      let (db1, one, rest) = read_lines_step filename line lines n db db' h in
      read_lines-Revokes filename lines (n + 1) db1 db' m
        (read_line-Revokes (trim_space line) filename (n + 1) db db1 m r one) rest

  -- A line that revokes a key, at its place.
  revoking_line :
      (filename : Bytes) (c : ℕ) (rest : Bytes) (n : ℕ) (p : Parsed Key) (db db' : HostKeyDb Key)
      → (c == b'#') ≡ false
      → parse_line ks (c ∷ rest) ≡ ok p
      → p.marker ≡ marker_revoked
      → read_line ks (c ∷ rest) filename n db ≡ ok db'
      → Revokes db' (marshal p.key)
  unfolding db_parse_line lookup
  revoking_line filename c rest n p db db' entry parsed marked h =
      subst (λ d. Revokes d (marshal p.key))
        (ok_inj (sym (if_true _ _ revoking) ∙ sym added ∙ sym (if_false _ _ entry) ∙ h))
        (
          record { key = p.key; filename = filename; line = n },
          if_true _ _ (bytes_eq_refl (marshal p.key)),
        )
    where
      revoking : bytes_eq p.marker marker_revoked ≡ true
      revoking = ap (λ w. bytes_eq w marker_revoked) marked ∙ bytes_eq_refl marker_revoked

      added : db_parse_line ks (c ∷ rest) filename n db ≡ add_entry ks filename n p db
      added = ap (λ r. r >>= λ q. add_entry ks filename n q db) parsed

  -- A file is read without an error, and one of its lines, trimmed and no comment, is parsed with
  -- the marker `@revoked`: whatever lines stand before and behind it and whatever was in the database,
  -- its key is revoked for IsRevoked, and `check` refuses it as revoked for any addresses.
  pub check-read_lines_revoked :
      (filename line : Bytes) (before after : List Bytes) (n : ℕ) (db db' : HostKeyDb Key) (c : ℕ)
      (rest : Bytes) (p : Parsed Key) (address remote : Bytes)
      → read_lines ks filename (before ++ (line ∷ after)) n db ≡ ok db'
      → trim_space line ≡ c ∷ rest
      → (c == b'#') ≡ false
      → parse_line ks (c ∷ rest) ≡ ok p
      → p.marker ≡ marker_revoked
      → (is_revoked ks db' (marshal p.key) ≡ true)
        × ((r : KnownKey Key) × (check ks db' address remote p.key ≡ some (revoked_key r)))
  unfolding check
  check-read_lines_revoked filename line before after n db db' c rest p address remote h trimmed
        entry parsed marked =
      let (r, at) = reaches before n db h in
      (ap is_some at, (r, ap (check_revoked ks db' address remote p.key) at))
    where
      reaches :
          (before : List Bytes) (n : ℕ) (db : HostKeyDb Key)
          → read_lines ks filename (before ++ (line ∷ after)) n db ≡ ok db'
          → Revokes db' (marshal p.key)
      reaches [] n db h =
          let (db1, one, others) = read_lines_step filename line after n db db' h in
          read_lines-Revokes filename after (n + 1) db1 db' (marshal p.key)
            (revoking_line filename c rest (n + 1) p db db1 entry parsed marked
              (ap (λ t. read_line ks t filename (n + 1) db) (sym trimmed) ∙ one))
            others
      reaches (b ∷ before) n db h =
          let (db1, one, others) =
            read_lines_step filename b (before ++ (line ∷ after)) n db db' h in
          reaches before (n + 1) db1 others
