-- ===== src/Wire/Structs.antt =====
-- Marshal and Unmarshal of messages.go. Go walks a struct's fields by reflection; here a struct is
-- the list of its fields' values, and its type is its message tags and its fields' kinds.
pub mod RoundTrip
use xcryptossh.Prelude.{
  ℕ, zero, suc, ◌+◌, ◌%◌, ◌^◌, ◌<◌, ◌≡◌, List, [], ◌∷◌, ◌++◌, Option, none, some, Bytes, Bool, true,
  false, ◌==◌, if◌then◌else◌, ltb, length, map, take, drop, Result, ok, err, ◌>>=◌, not, ◌&&◌, ◌||◌,
}
use xcryptossh.Prelude.Int.{ℤ}
use xcryptossh.Errors.{Error}
use xcryptossh.Wire.Numbers.{append_u32, append_u64, parse_uint32, parse_uint64}
use xcryptossh.Wire.Strings.{append_string, parse_string, append_name_list, parse_name_list}
use xcryptossh.Wire.BigInts.{marshal_int, parse_int}

-- The types of field that Unmarshal tells apart. `rest` is a []byte with the tag `ssh:"rest"`.
pub data Kind : Type 0 where
  bool : Kind
  array : ℕ → Kind
  uint64 uint32 uint8 : Kind
  string bytes rest name_list big_int : Kind
  unsupported : Kind

pub data Value : Type 0 where
  bool : Bool → Value
  array : Bytes → Value
  uint64 uint32 uint8 : ℕ → Value
  string bytes rest : Bytes → Value
  name_list : List Bytes → Value
  big_int : ℤ → Value

pub record StructType : Type 0 where
  pub tags : List ℕ
  pub kinds : List Kind

pub record Struct : Type 0 where
  pub tags : List ℕ
  pub values : List Value

unfoldable pub kind_of : Value → Kind
kind_of (Value.bool b) = Kind.bool
kind_of (Value.array bs) = Kind.array (length bs)
kind_of (Value.uint64 n) = Kind.uint64
kind_of (Value.uint32 n) = Kind.uint32
kind_of (Value.uint8 n) = Kind.uint8
kind_of (Value.string s) = Kind.string
kind_of (Value.bytes s) = Kind.bytes
kind_of (Value.rest s) = Kind.rest
kind_of (Value.name_list ns) = Kind.name_list
kind_of (Value.big_int n) = Kind.big_int

abbrev pub type_of : Struct → StructType
type_of s = record { tags = s.tags; kinds = map kind_of s.values }

-- One round of the loop of marshalStruct.
unfoldable pub marshal_field : Bytes → Value → Bytes
marshal_field out (Value.bool b) = out ++ ((if b then 1 else 0) ∷ [])
marshal_field out (Value.array bs) = out ++ bs
marshal_field out (Value.uint64 n) = append_u64 out n
marshal_field out (Value.uint32 n) = append_u32 out n
marshal_field out (Value.uint8 n) = out ++ (n ∷ [])
marshal_field out (Value.string s) = append_string out s
marshal_field out (Value.bytes s) = append_string out s
marshal_field out (Value.rest s) = out ++ s
marshal_field out (Value.name_list ns) = append_name_list out ns
marshal_field out (Value.big_int n) = out ++ marshal_int n

unfoldable pub marshal_fields : Bytes → List Value → Bytes
marshal_fields out [] = out
marshal_fields out (v ∷ vs) = marshal_fields (marshal_field out v) vs

unfoldable pub first_tag : List ℕ → Bytes
first_tag [] = []
first_tag (t ∷ ts) = t ∷ []

unfoldable pub marshal : Struct → Bytes
unfolding first_tag marshal_fields
marshal s = marshal_fields (first_tag s.tags) s.values

-- A parse that fails with the error `e`.
abbrev pub or_error :
    {A B : Type 0} → Error → (A → B) → Option (A × Bytes) → Result Error (B × Bytes)
or_error e f none = err e
or_error e f (some (a, data')) = ok (f a, data')

-- One round of the loop of Unmarshal, on the field with index `i`.
unfoldable pub unmarshal_field : ℕ → Kind → Bytes → Result Error (Value × Bytes)
unmarshal_field i Kind.bool [] = err Error.short_read
unmarshal_field i Kind.bool (b ∷ bs) = ok (Value.bool (not (b == 0)), bs)
unmarshal_field i (Kind.array n) bs =
    if ltb (length bs) n then err Error.short_read else ok (Value.array (take n bs), drop n bs)
unmarshal_field i Kind.uint64 bs = or_error Error.short_read Value.uint64 (parse_uint64 bs)
unmarshal_field i Kind.uint32 bs = or_error Error.short_read Value.uint32 (parse_uint32 bs)
unmarshal_field i Kind.uint8 [] = err Error.short_read
unmarshal_field i Kind.uint8 (b ∷ bs) = ok (Value.uint8 b, bs)
unmarshal_field i Kind.string bs = or_error (Error.field_error i) Value.string (parse_string bs)
unmarshal_field i Kind.bytes bs = or_error Error.short_read Value.bytes (parse_string bs)
unmarshal_field i Kind.rest bs = ok (Value.rest bs, [])
unmarshal_field i Kind.name_list bs = or_error Error.short_read Value.name_list (parse_name_list bs)
unmarshal_field i Kind.big_int bs = or_error Error.short_read Value.big_int (parse_int bs)
unmarshal_field i Kind.unsupported bs = err (Error.field_error i)

unfoldable pub unmarshal_fields : ℕ → List Kind → Bytes → Result Error (List Value × Bytes)
unmarshal_fields i [] bs = ok ([], bs)
unmarshal_fields i (k ∷ ks) bs = do
  (v, bs') ← unmarshal_field i k bs
  (vs, bs'') ← unmarshal_fields (i + 1) ks bs'
  ok (v ∷ vs, bs'')

unfoldable pub has_tag : List ℕ → ℕ → Bool
has_tag [] b = false
has_tag (e ∷ es) b = (ltb 0 e && (b == e)) || has_tag es b

abbrev pub expected_type : List ℕ → ℕ
expected_type [] = 0
expected_type (e ∷ es) = e

-- The message type in front, checked and dropped if the struct has one.
unfoldable pub strip_tag : List ℕ → Bytes → Result Error Bytes
unfolding has_tag
strip_tag tags [] = err (Error.parse_error (expected_type tags))
strip_tag [] (b ∷ bs) = ok (b ∷ bs)
strip_tag (e ∷ es) (b ∷ bs) =
    if has_tag (e ∷ es) b then ok bs else err (Error.unexpected_type b (e ∷ es))

unfoldable pub no_trailing : ℕ → List Value × Bytes → Result Error (List Value)
no_trailing e (vs, []) = ok vs
no_trailing e (vs, b ∷ bs) = err (Error.parse_error e)

unfoldable pub unmarshal : StructType → Bytes → Result Error Struct
unfolding strip_tag no_trailing
unmarshal t input = do
  body ← strip_tag t.tags input
  fields ← unmarshal_fields 0 t.kinds body
  vs ← no_trailing (expected_type t.tags) fields
  ok (record { tags = t.tags; values = vs })
