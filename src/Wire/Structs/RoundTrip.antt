-- ===== src/Wire/Structs/RoundTrip.antt =====
-- Unmarshal reads back what Marshal wrote.
use xcryptossh.Prelude.{
  ℕ, ◌+◌, ◌^◌, ◌<◌, ◌≡◌, refl, List, [], ◌∷◌, ◌++◌, Bytes, Bool, true, false, length, map, ok,
  arith, All, ◌≢◌, length-append, append-nil, append_assoc, ◌∙◌, ap, sym, not, ◌&&◌, take-append,
  drop-append,
}
use xcryptossh.Prelude.Int.{ℤ}
use xcryptossh.Wire.Numbers.{parse_uint32-bytes, parse_uint64-bytes}
use xcryptossh.Wire.Strings.{append_string, append_name_list, parse_string-append_string, join}
use xcryptossh.Wire.NameLists.{IsName, parse_name_list-append_name_list}
use xcryptossh.Wire.BigInts.{marshal_int, int_content}
use xcryptossh.Wire.BigInts.RoundTrip.{parse_int-marshal_int}
use xcryptossh.Wire.Structs.{
  Kind, Value, Struct, kind_of, type_of, marshal_field, marshal_fields, first_tag, marshal,
  unmarshal_field, unmarshal_fields, strip_tag, unmarshal,
}

-- A value that its Go type can hold; names are not empty and have no comma.
abbrev pub Fits : Value → Type 0
Fits (Value.uint64 n) = n < 2 ^ 64
Fits (Value.uint32 n) = n < 2 ^ 32
Fits (Value.name_list ns) = All IsName ns
Fits _ = Unit

abbrev is_rest : Value → Bool
is_rest (Value.rest s) = true
is_rest _ = false

-- A field tagged `rest` stands last.
abbrev pub rest_last : List Value → Bool
rest_last [] = true
rest_last (v ∷ []) = true
rest_last (v ∷ w ∷ vs) = not (is_rest v) && rest_last (w ∷ vs)

is_rest-kind_of : (v : Value) → kind_of v ≡ Kind.rest → is_rest v ≡ true
unfolding kind_of
is_rest-kind_of (Value.rest s) h = refl
is_rest-kind_of v h = cc

-- Each round only appends.
marshal_field_append : (out : Bytes) (v : Value) → marshal_field out v ≡ out ++ marshal_field [] v
unfolding marshal_field append_string append_name_list
marshal_field_append out (Value.bool b) = refl
marshal_field_append out (Value.array bs) = refl
marshal_field_append out (Value.uint64 n) = refl
marshal_field_append out (Value.uint32 n) = refl
marshal_field_append out (Value.uint8 n) = refl
marshal_field_append out (Value.string s) = append_assoc out _ s
marshal_field_append out (Value.bytes s) = append_assoc out _ s
marshal_field_append out (Value.rest s) = refl
marshal_field_append out (Value.name_list ns) = append_assoc out _ (join ns)
marshal_field_append out (Value.big_int n) = refl

marshal_fields_append :
    (out : Bytes) (vs : List Value) → marshal_fields out vs ≡ out ++ marshal_fields [] vs
unfolding marshal_fields
marshal_fields_append out [] = sym (append-nil out)
marshal_fields_append out (v ∷ vs) =
    marshal_fields_append (marshal_field out v) vs
    ∙ ap (λ o. o ++ marshal_fields [] vs) (marshal_field_append out v)
    ∙ append_assoc out (marshal_field [] v) (marshal_fields [] vs)
    ∙ ap (λ o. out ++ o) (sym (marshal_fields_append (marshal_field [] v) vs))

length-append_string : (s : Bytes) → length (append_string [] s) ≡ 4 + length s
unfolding append_string
length-append_string s = omega arith

length-append_name_list : (ns : List Bytes) → length (append_name_list [] ns) ≡ 4 + length (join ns)
unfolding append_name_list
length-append_name_list ns = omega arith

length-int_content-le : (n : ℤ) → length (marshal_int n) ≡ 4 + length (int_content n)
unfolding marshal_int
length-int_content-le n = omega arith

fields_cons :
    (v : Value) (vs : List Value)
    → marshal_fields [] (v ∷ vs) ≡ marshal_field [] v ++ marshal_fields [] vs
fields_cons v vs = unfold marshal_fields in marshal_fields_append (marshal_field [] v) vs

split_length :
    (v : Value) (vs : List Value)
    → length (marshal_fields [] (v ∷ vs)) < 2 ^ 32
    → (length (marshal_field [] v) + length (marshal_fields [] vs) < 2 ^ 32)
      × (length (marshal_fields [] vs) < 2 ^ 32)
split_length v vs h =
    omega (
      arith,
      ap length (fields_cons v vs),
      length-append (marshal_field [] v) (marshal_fields [] vs),
    )

rest_is_last :
    (v : Value) (vs : List Value)
    → rest_last (v ∷ vs) ≡ true
    → kind_of v ≡ Kind.rest
    → marshal_fields [] vs ≡ []
unfolding marshal_fields
rest_is_last v [] r e = refl
rest_is_last v (w ∷ vs) r e = ground (arith, is_rest-kind_of v e)

rest_last-tail : (v : Value) (vs : List Value) → rest_last (v ∷ vs) ≡ true → rest_last vs ≡ true
rest_last-tail v [] r = refl
rest_last-tail v (w ∷ vs) r = ground arith

-- One field, followed by the others; a `rest` takes all.
unmarshal_field-marshal_field :
    (i : ℕ) (v : Value) (more : Bytes)
    → Fits v
    → length (marshal_field [] v) + length more < 2 ^ 32
    → (kind_of v ≡ Kind.rest → more ≡ [])
    → unmarshal_field i (kind_of v) (marshal_field [] v ++ more) ≡ ok (v, more)
unfolding marshal_field unmarshal_field kind_of
unmarshal_field-marshal_field i (Value.bool true) more h small l = refl
unmarshal_field-marshal_field i (Value.bool false) more h small l = refl
unmarshal_field-marshal_field i (Value.array bs) more h small l = ground (
  arith,
  take-append (length bs) bs more refl,
  drop-append (length bs) bs more refl,
  length-append bs more,
)
unmarshal_field-marshal_field i (Value.uint64 n) more h small l = rw (parse_uint64-bytes n more h)
unmarshal_field-marshal_field i (Value.uint32 n) more h small l = rw (parse_uint32-bytes n more h)
unmarshal_field-marshal_field i (Value.uint8 n) more h small l = refl
unmarshal_field-marshal_field i (Value.string s) more h small l =
    rw (parse_string-append_string s more (omega (arith, length-append_string s)))
unmarshal_field-marshal_field i (Value.bytes s) more h small l =
    rw (parse_string-append_string s more (omega (arith, length-append_string s)))
unmarshal_field-marshal_field i (Value.rest s) more h small l = rw (l refl, append-nil)
unmarshal_field-marshal_field i (Value.name_list ns) more h small l =
    rw (parse_name_list-append_name_list ns more h (omega (arith, length-append_name_list ns)))
unmarshal_field-marshal_field i (Value.big_int n) more h small l =
    rw (parse_int-marshal_int n more (omega (arith, length-int_content-le n)))

unmarshal_fields-marshal_fields :
    (i : ℕ) (vs : List Value)
    → All Fits vs
    → rest_last vs ≡ true
    → length (marshal_fields [] vs) < 2 ^ 32
    → unmarshal_fields i (map kind_of vs) (marshal_fields [] vs) ≡ ok (vs, [])
unfolding unmarshal_fields
unmarshal_fields-marshal_fields i [] h r small = unfold marshal_fields in refl
unmarshal_fields-marshal_fields i (v ∷ vs) h r small =
    let (here, later) = split_length v vs small in
    rw (fields_cons v vs) (
      rw (unmarshal_field-marshal_field i v (marshal_fields [] vs) h.0 here (rest_is_last v vs r))
        (rw (unmarshal_fields-marshal_fields (i + 1) vs h.1 (rest_last-tail v vs r) later)))

tag_first :
    (tags : List ℕ) (vs : List Value)
    → marshal_fields (first_tag tags) vs ≡ first_tag tags ++ marshal_fields [] vs
tag_first tags vs = marshal_fields_append (first_tag tags) vs

strip_tag-first_tag :
    (tags : List ℕ) (body : Bytes)
    → first_tag tags ++ body ≢ []
    → All (λ t. 0 < t) tags
    → strip_tag tags (first_tag tags ++ body) ≡ ok body
unfolding strip_tag first_tag
strip_tag-first_tag [] [] ne pos = absurd (ne refl)
strip_tag-first_tag [] (b ∷ bs) ne pos = refl
strip_tag-first_tag (t ∷ ts) body ne pos = ground arith

-- Unmarshal reads a struct back from what Marshal made of it, with nothing left over. Its values
-- fit their types, a field tagged rest stands last, message types are above 0, and the encoding
-- is not empty and under 4 GiB.
pub unmarshal-marshal :
    (s : Struct)
    → All Fits s.values
    → rest_last s.values ≡ true
    → length (marshal s) < 2 ^ 32
    → marshal s ≢ []
    → All (λ t. 0 < t) s.tags
    → unmarshal (type_of s) (marshal s) ≡ ok s
unfolding unmarshal marshal
unmarshal-marshal s h r small ne pos =
    let body : Bytes = marshal_fields [] s.values in
    let shape : marshal s ≡ first_tag s.tags ++ body = tag_first s.tags s.values in
    let small' : length body < 2 ^ 32 =
      omega (arith, ap length shape, length-append (first_tag s.tags) body) in
    rw (shape, strip_tag-first_tag s.tags body (λ e. ne (shape ∙ e)) pos)
      (rw (unmarshal_fields-marshal_fields 0 s.values h r small'))

-- A struct with a message type starts with it.
pub marshal_tagged :
    (tag : ℕ) (vs : List Value)
    → marshal (record { tags = tag ∷ []; values = vs }) ≡ tag ∷ marshal_fields [] vs
unfolding marshal first_tag
marshal_tagged tag vs = tag_first (tag ∷ []) vs
