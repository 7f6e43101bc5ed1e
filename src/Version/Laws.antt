-- ===== src/Version/Laws.antt =====
-- Each side reads the version line that the other one wrote.
use xcryptossh.Prelude.{
  ℕ, zero, suc, ◌+◌, ◌<◌, ◌≡◌, refl, [], ◌∷◌, ◌++◌, Bytes, false, ok, arith, length, append_assoc,
  append-nil, ap, ◌∙◌, sym,
}
use xcryptossh.Version.{
  strip_cr, read_version_loop, read_version, has_junk, exchange_versions, all_taken,
}

strip_cr-snoc : (line : Bytes) → strip_cr (line ++ (13 ∷ [])) ≡ line
unfolding strip_cr
strip_cr-snoc [] = refl
strip_cr-snoc (c ∷ []) = refl
strip_cr-snoc (c ∷ d ∷ cs) = ap (λ l. c ∷ l) (strip_cr-snoc (d ∷ cs))

-- A line with no '\n' in it is gathered byte by byte.
read_line :
    (room : ℕ) (line rest more : Bytes)
    → has_junk rest ≡ false
    → length rest + 1 < room
    → read_version_loop room line (rest ++ (13 ∷ 10 ∷ more)) ≡ ok (line ++ rest, more)
unfolding has_junk read_version_loop
read_line zero line rest more h room = elim room [ ]
read_line (suc zero) line rest more h room = absurd (omega arith)
read_line (suc (suc k)) line [] more h room =
    ap (λ l. ok (l, more)) (strip_cr-snoc line ∙ sym (append-nil line))
read_line (suc (suc k)) line (c ∷ cs) more h room =
    ground (arith, read_line (suc k) (line ++ (c ∷ [])) cs more, append_assoc line (c ∷ []) cs)

sent_line :
    (line input : Bytes)
    → has_junk line ≡ false
    → (exchange_versions all_taken line input).0 ≡ line ++ (13 ∷ 10 ∷ [])
unfolding exchange_versions
sent_line line input h = rw h

reads_line :
    (mine theirs more : Bytes)
    → has_junk mine ≡ false
    → has_junk theirs ≡ false
    → length theirs < 254
    → (exchange_versions all_taken mine ((theirs ++ (13 ∷ 10 ∷ [])) ++ more)).1 ≡ ok (theirs, more)
unfolding exchange_versions read_version
reads_line mine theirs more a b d =
    rw (a, append_assoc theirs (13 ∷ 10 ∷ []) more) (read_line 255 [] theirs more b (omega arith))

-- Two sides, on connections that take what is written, with lines of printable characters, shorter than 254 bytes, exchange them: each reads
-- the other's line, without the line's end, and what comes behind it stays in the input.
pub exchange_versions_lem :
    (mine theirs mine_more theirs_more : Bytes)
    → has_junk mine ≡ false
    → has_junk theirs ≡ false
    → length mine < 254
    → length theirs < 254
    → ((exchange_versions all_taken mine
          ((exchange_versions all_taken theirs []).0 ++ theirs_more)).1
        ≡ ok (theirs, theirs_more))
      × ((exchange_versions all_taken theirs
            ((exchange_versions all_taken mine []).0 ++ mine_more)).1
          ≡ ok (mine, mine_more))
exchange_versions_lem mine theirs mine_more theirs_more a b c d = (
  rw (sent_line theirs [] b) (reads_line mine theirs theirs_more a b d),
  rw (sent_line mine [] a) (reads_line theirs mine mine_more b a c),
)
