-- ===== src/Version.antt =====
-- The version exchange of transport.go: exchangeVersions and readVersion. The connection's input
-- is the list of the bytes that arrive before its end.
pub mod Laws
use xcryptossh.Prelude.{
  ℕ, zero, suc, Option, none, some, List, [], ◌∷◌, ◌++◌, Bytes, Bool, true, false, ◌==◌, ltb, ◌||◌,
  if◌then◌else◌, Result, ok, err,
}
use xcryptossh.Errors.{Error}

-- A '\r' at the end is removed.
unfoldable pub strip_cr : Bytes → Bytes
strip_cr [] = []
strip_cr (c ∷ []) = if c == 13 then [] else c ∷ []
strip_cr (c ∷ d ∷ cs) = c ∷ strip_cr (d ∷ cs)

-- The loop of readVersion, with room for `room` more bytes, and the bytes left in the input.
unfoldable pub read_version_loop : ℕ → Bytes → Bytes → Result Error (Bytes × Bytes)
unfolding strip_cr
read_version_loop zero line input = err Error.version_overflow
read_version_loop (suc room) line [] = err Error.eof
read_version_loop (suc room) line (c ∷ cs) =
    let more = read_version_loop room (line ++ (c ∷ [])) cs in
    if c == 10 then ok (strip_cr line, cs) else more

abbrev pub max_version_string_bytes : ℕ
max_version_string_bytes = 255

unfoldable pub read_version : Bytes → Result Error (Bytes × Bytes)
read_version input = read_version_loop max_version_string_bytes [] input

unfoldable pub has_junk : Bytes → Bool
has_junk [] = false
has_junk (c ∷ cs) = ltb c 32 || has_junk cs

-- What a writer takes of a write, and its error, if any.
abbrev pub Writer : Type 0
Writer = Bytes → Bytes × Option Error

-- A writer that takes everything.
abbrev pub all_taken : Writer
all_taken p = (p, none)

abbrev pub version_written : Bytes × Option Error → Bytes → Bytes × Result Error (Bytes × Bytes)
version_written (sent, some e) input = (sent, err e)
version_written (sent, none) input = (sent, read_version input)

-- What is written, and the peer's version with the input behind it.
unfoldable pub exchange_versions : Writer → Bytes → Bytes → Bytes × Result Error (Bytes × Bytes)
unfolding read_version has_junk
exchange_versions write version_line input =
    if has_junk version_line
    then ([], err Error.junk_in_version)
    else version_written (write (version_line ++ (13 ∷ 10 ∷ []))) input
