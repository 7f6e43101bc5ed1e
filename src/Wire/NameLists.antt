-- ===== src/Wire/NameLists.antt =====
-- Name lists: `join`, `split`, append_name_list and parse_name_list of `Strings` undo one another.
use xcryptossh.Prelude.{
  ℕ, ◌+◌, ◌^◌, ◌<◌, ◌≡◌, refl, List, [], ◌∷◌, ◌++◌, some, inl, inr, Option-cases, arith, Bytes,
  IsByte, length, All, ◌≢◌, Bool-cases, ◌==◌, ap, ◌∙◌,
}
use xcryptossh.Wire.Strings.{
  comma, cons_head, names_of, join, split, append_name_list, parse_name_list, parse_string,
  parse_string-append_string, parse_string_sound,
}

-- A name as RFC 4251 has it: not empty, and with no comma.
abbrev pub IsName : Bytes → Type 0
IsName s = (s ≢ []) × All (λ c. c ≢ comma) s

split-last : (s : Bytes) → All (λ c. c ≢ comma) s → split s ≡ s ∷ []
unfolding split
split-last [] h = refl
split-last (c ∷ cs) h = ground (arith, split-last cs)

split-comma : (s t : Bytes) → All (λ c. c ≢ comma) s → split (s ++ (comma ∷ t)) ≡ s ∷ split t
unfolding split
split-comma [] t h = refl
split-comma (c ∷ cs) t h = ground (arith, split-comma cs t)

pub split-join :
    (s : Bytes) (ss : List Bytes) → All IsName (s ∷ ss) → split (join (s ∷ ss)) ≡ s ∷ ss
unfolding join
split-join s [] h = split-last s h.0.1
split-join s (t ∷ ts) h = ground (arith, split-comma s (join (t ∷ ts)) h.0.1, split-join t ts h.1)

split-ne-nil : (s : Bytes) → split s ≢ []
unfolding split
split-ne-nil [] = λ e. cc
split-ne-nil (c ∷ cs) = ground (arith, split-ne-nil cs)

join-cons_head : (c : ℕ) (ss : List Bytes) → ss ≢ [] → join (cons_head c ss) ≡ c ∷ join ss
unfolding join
join-cons_head c [] h = absurd (h refl)
join-cons_head c (s ∷ []) h = refl
join-cons_head c (s ∷ t ∷ ss) h = refl

join-nil_cons : (ss : List Bytes) → ss ≢ [] → join ([] ∷ ss) ≡ comma ∷ join ss
unfolding join
join-nil_cons [] h = absurd (h refl)
join-nil_cons (t ∷ ts) h = refl

pub join-split : (s : Bytes) → join (split s) ≡ s
unfolding split
join-split [] = unfold join in refl
join-split (c ∷ cs) = elim (Bool-cases (c == comma)) [
  | inl e ↦ rw e (ground (arith, join-nil_cons (split cs) (split-ne-nil cs), join-split cs))
  | inr e ↦ rw e (join-cons_head c (split cs) (split-ne-nil cs) ∙ ap (λ l. c ∷ l) (join-split cs))
]

join-ne-nil : (s : Bytes) (ss : List Bytes) → All IsName (s ∷ ss) → join (s ∷ ss) ≢ []
unfolding join
join-ne-nil [] ss h = absurd (h.0.0 refl)
join-ne-nil (c ∷ s) [] h = λ e. cc
join-ne-nil (c ∷ s) (t ∷ ts) h = λ e. cc

names_of-ne-nil : (s : Bytes) → s ≢ [] → names_of s ≡ split s
unfolding names_of
names_of-ne-nil [] h = absurd (h refl)
names_of-ne-nil (c ∷ cs) h = refl

names_of-join : (names : List Bytes) → All IsName names → names_of (join names) ≡ names
names_of-join [] h = unfold names_of join in refl
names_of-join (s ∷ ss) h = names_of-ne-nil (join (s ∷ ss)) (join-ne-nil s ss h) ∙ split-join s ss h

-- A list of names, none of them empty or with a comma, is read back, whatever follows it, as long
-- as the input fits a uint32 length.
pub parse_name_list-append_name_list :
    (names : List Bytes) (rest : Bytes)
    → All IsName names
    → length (join names) + length rest < 2 ^ 32
    → parse_name_list (append_name_list [] names ++ rest) ≡ some (names, rest)
unfolding parse_name_list append_name_list
parse_name_list-append_name_list names rest h small =
    rw (parse_string-append_string (join names) rest small, parse_name_list)
      (ap (λ l. some (l, rest)) (names_of-join names h))

join-names_of : (s : Bytes) → join (names_of s) ≡ s
unfolding names_of
join-names_of [] = unfold join in refl
join-names_of (c ∷ cs) = join-split (c ∷ cs)

-- What parse_name_list accepts, of bytes under 4 GiB, is the encoding of the names that it
-- returns, followed by the rest.
pub parse_name_list_sound :
    (input : Bytes) (names : List Bytes) (rest : Bytes)
    → All IsByte input
    → length input < 2 ^ 32
    → parse_name_list input ≡ some (names, rest)
    → input ≡ append_name_list [] names ++ rest
unfolding parse_name_list append_name_list
parse_name_list_sound input names rest h small e = elim (Option-cases (parse_string input)) [
  | inl p ↦ ground (arith, p)
  | inr ((s, r), p) ↦ ground (arith, join-names_of s, parse_string_sound input s r h small p)
]
