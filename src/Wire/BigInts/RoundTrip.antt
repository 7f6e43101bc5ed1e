-- ===== src/Wire/BigInts/RoundTrip.antt =====
-- parse_int reads back what marshal_int wrote, for every integer.
use xcryptossh.Prelude.{
  ℕ, zero, suc, ◌+◌, ◌-◌, ◌/◌, ◌%◌, ◌^◌, ◌<◌, ◌≤◌, ◌≡◌, refl, [], ◌∷◌, ◌++◌, some, arith, Bytes,
  IsByte, length, true, false, ◌==◌, bit_xor, passes_up_to, passes_up_to_at, ==_iff, All, ◌∙◌, ap,
  ltb, leb, ◌≢◌,
}
use xcryptossh.Prelude.Int.{ℤ, pos, negsuc}
use xcryptossh.Wire.Strings.{parse_string-append_string}
use xcryptossh.Wire.BigInts.{
  be_value_from, be_value, be_digits, be_bytes, top_bit, invert, pad_positive, pad_negative,
  int_content, marshal_int, int_value, parse_int,
}

top_bit_table :
    passes_up_to (λ b. elim (top_bit b) [ true ↦ leb 128 b | false ↦ ltb b 128 ]) 256 ≡ true
unfolding passes_up_to
top_bit_table = refl

pub top_bit-eq-leb : (b : ℕ) → b < 256 → top_bit b ≡ leb 128 b
top_bit-eq-leb b h = ground (arith, passes_up_to_at _ 256 h top_bit_table)

invert_table : passes_up_to (λ b. bit_xor b 0xff == 255 - b) 256 ≡ true
unfolding passes_up_to
invert_table = refl

pub bit_xor-eq-sub : (b : ℕ) → b < 256 → bit_xor b 0xff ≡ 255 - b
bit_xor-eq-sub b h = (==_iff _ (255 - b)).0 (passes_up_to_at _ 256 h invert_table)

invert-invert : (bs : Bytes) → All IsByte bs → invert (invert bs) ≡ bs
invert-invert [] h = refl
invert-invert (b ∷ bs) h =
    ground (arith, bit_xor-eq-sub b, bit_xor-eq-sub (255 - b), invert-invert bs h.1)

-- The digits, then what was there already.
be_value-be_digits :
    (fuel n : ℕ) (acc : Bytes) → n ≤ fuel → be_value (be_digits fuel n acc) ≡ be_value_from n acc
unfolding be_digits be_value_from
be_value-be_digits zero n acc h = ground arith
be_value-be_digits (suc fuel) n acc h =
    ground (arith, be_value-be_digits fuel (n / 256) (n % 256 ∷ acc))

pub be_value-be_bytes : (n : ℕ) → be_value (be_bytes n) ≡ n
be_value-be_bytes n = be_value-be_digits n n [] (omega arith) ∙ unfold be_value_from in refl

be_digits-IsByte : (fuel n : ℕ) (acc : Bytes) → All IsByte acc → All IsByte (be_digits fuel n acc)
unfolding be_digits
be_digits-IsByte zero n acc h = h
be_digits-IsByte (suc fuel) n acc h =
    ground (arith, be_digits-IsByte fuel (n / 256) (n % 256 ∷ acc))

pub be_bytes-IsByte : (n : ℕ) → All IsByte (be_bytes n)
be_bytes-IsByte n = be_digits-IsByte n n [] tt

int_value-pad_positive :
    (bs : Bytes) → All IsByte bs → bs ≢ [] → int_value (pad_positive bs) ≡ pos (be_value bs)
unfolding int_value pad_positive be_value_from
int_value-pad_positive [] h ne = absurd (ne refl)
int_value-pad_positive (b ∷ bs) h ne = ground arith

int_value-pad_negative :
    (bs : Bytes) → All IsByte bs → int_value (pad_negative (invert bs)) ≡ negsuc (be_value bs)
unfolding int_value pad_negative be_value_from
int_value-pad_negative [] h = refl
int_value-pad_negative (b ∷ bs) h = ground (arith, invert-invert (b ∷ bs) h)

be_digits-ne-nil : (fuel n : ℕ) (acc : Bytes) → acc ≢ [] → be_digits fuel n acc ≢ []
unfolding be_digits
be_digits-ne-nil zero n acc h = h
be_digits-ne-nil (suc fuel) n acc h =
    ground (arith, be_digits-ne-nil fuel (n / 256) (n % 256 ∷ acc) (λ e. cc))

pub be_bytes-ne-nil : (n : ℕ) → be_bytes (suc n) ≢ []
unfolding be_digits
be_bytes-ne-nil n = ground (arith, be_digits-ne-nil n (suc n / 256) (suc n % 256 ∷ []) (λ e. cc))

int_value-int_content : (n : ℤ) → int_value (int_content n) ≡ n
unfolding int_content
int_value-int_content (negsuc m) =
    int_value-pad_negative (be_bytes m) (be_bytes-IsByte m) ∙ ap negsuc (be_value-be_bytes m)
int_value-int_content (pos zero) = unfold int_value in refl
int_value-int_content (pos (suc n)) =
    int_value-pad_positive (be_bytes (suc n)) (be_bytes-IsByte (suc n)) (be_bytes-ne-nil n)
    ∙ ap pos (be_value-be_bytes (suc n))

-- Every integer is read back, with its sign, whatever follows it, as long as the input fits a
-- uint32 length.
pub parse_int-marshal_int :
    (n : ℤ) (rest : Bytes)
    → length (int_content n) + length rest < 2 ^ 32
    → parse_int (marshal_int n ++ rest) ≡ some (n, rest)
unfolding parse_int marshal_int
parse_int-marshal_int n rest h =
    rw (parse_string-append_string (int_content n) rest h, parse_int)
      (ap (λ k. some (k, rest)) (int_value-int_content n))
