-- ===== src/Wire/Strings.antt =====
-- Length-prefixed strings: appendString and parseString; name lists: the []string case of
-- marshalStruct and parseNameList.
use xcryptossh.Prelude.{
  ℕ, ◌+◌, ◌%◌, ◌^◌, ◌<◌, ◌≡◌, refl, List, [], ◌∷◌, ◌++◌, Option, none, some, arith, Bytes, IsByte,
  length, All, ltb, if◌then◌else◌, take, drop, ◌==◌, length-append, take-append, drop-append,
  take-append-drop, length-take, Option-cases, inl, inr,
}
use xcryptossh.Wire.Numbers.{parse_uint32, append_u32, parse_uint32_sound}

-- Also what marshalStruct does for a string and for a []byte (`append_int`, then the bytes).
unfoldable pub append_string : Bytes → Bytes → Bytes
append_string buf s = append_u32 buf (length s % 2 ^ 32) ++ s

unfoldable pub parse_string : Bytes → Option (Bytes × Bytes)
parse_string input = elim (parse_uint32 input) [
  | none ↦ none
  | some (len, rest) ↦
      if ltb (length rest % 2 ^ 32) len then none else some (take len rest, drop len rest)
]

abbrev pub comma : ℕ
comma = b','

-- The loop of marshalStruct over a []string.
unfoldable pub join : List Bytes → Bytes
join [] = []
join (s ∷ []) = s
join (s ∷ t ∷ ss) = s ++ (comma ∷ join (t ∷ ss))

abbrev pub cons_head : ℕ → List Bytes → List Bytes
cons_head c [] = (c ∷ []) ∷ []
cons_head c (s ∷ ss) = (c ∷ s) ∷ ss

-- `bytes.Split(contents, comma)`
unfoldable pub split : Bytes → List Bytes
split [] = [] ∷ []
split (c ∷ cs) = let rest = split cs in if c == comma then [] ∷ rest else cons_head c rest

unfoldable pub append_name_list : Bytes → List Bytes → Bytes
unfolding append_string
append_name_list buf names = append_string buf (join names)

-- `emptyNameList` for no contents, else `bytes.Split`
unfoldable pub names_of : Bytes → List Bytes
names_of [] = []
names_of (c ∷ cs) = split (c ∷ cs)

unfoldable pub parse_name_list : Bytes → Option (List Bytes × Bytes)
parse_name_list input = elim (parse_string input) [
  | none ↦ none
  | some (contents, rest) ↦ some (names_of contents, rest)
]

-- A string followed by anything is read back, as long as both lengths together fit a uint32.
pub parse_string-append_string :
    (s rest : Bytes)
    → length s + length rest < 2 ^ 32
    → parse_string (append_string [] s ++ rest) ≡ some (s, rest)
unfolding parse_string append_string parse_uint32
parse_string-append_string s rest h = ground (
  arith,
  length-append s rest,
  take-append (length s) s rest refl,
  drop-append (length s) s rest refl,
)

-- What parse_string accepts, of bytes under 4 GiB, is the encoding of its result, followed by the
-- rest.
pub parse_string_sound :
    (input s rest : Bytes)
    → All IsByte input
    → length input < 2 ^ 32
    → parse_string input ≡ some (s, rest)
    → input ≡ append_string [] s ++ rest
unfolding parse_string append_string
parse_string_sound input s rest h small e = elim (Option-cases (parse_uint32 input)) [
  | inl p ↦ ground (arith, p)
  | inr ((len, r), p) ↦
      ground (arith, parse_uint32_sound input len r h p, take-append-drop len r, length-take len r)
]
