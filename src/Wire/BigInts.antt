-- ===== src/Wire/BigInts.antt =====
-- math/big integers on the wire: intLength, marshalInt and parseInt of messages.go, with the
-- operations of big.Int that they call (Bytes, SetBytes, BitLen, Sign, Neg).
pub mod RoundTrip
pub mod Length
use xcryptossh.Prelude.{
  ℕ, zero, suc, ◌+◌, ◌-◌, ◌*◌, ◌/◌, ◌%◌, ◌^◌, ◌<◌, ◌≤◌, ◌≡◌, refl, List, [], ◌∷◌, ◌++◌, Option,
  none, some, arith, Bytes, IsByte, length, Bool, true, false, ◌==◌, if◌then◌else◌, bit_and,
  bit_xor, map,
}
use xcryptossh.Prelude.Int.{ℤ, pos, negsuc}
use xcryptossh.Wire.Numbers.{u32_bytes}
use xcryptossh.Wire.Strings.{parse_string, append_string}

-- `SetBytes`, from an accumulator
unfoldable pub be_value_from : ℕ → Bytes → ℕ
be_value_from acc [] = acc
be_value_from acc (b ∷ bs) = be_value_from (acc * 256 + b) bs

abbrev pub be_value : Bytes → ℕ
be_value = be_value_from 0

-- `Bytes`: the digits base 256 with no leading zero. `n` rounds are enough for `n`.
unfoldable pub be_digits : ℕ → ℕ → Bytes → Bytes
be_digits zero n acc = acc
be_digits (suc fuel) n acc =
    let more = be_digits fuel (n / 256) (n % 256 ∷ acc) in if n == 0 then acc else more

abbrev pub be_bytes : ℕ → Bytes
be_bytes n = be_digits n n []

-- `BitLen`
unfoldable pub bit_len_loop : ℕ → ℕ → ℕ
bit_len_loop zero n = 0
bit_len_loop (suc fuel) n = let more = bit_len_loop fuel (n / 2) + 1 in if n == 0 then 0 else more

abbrev pub bit_len : ℕ → ℕ
bit_len n = bit_len_loop n n

unfoldable pub magnitude_length : ℕ → ℕ
magnitude_length bits = (if bits % 8 == 0 then 1 else 0) + (bits + 7) / 8

unfoldable pub int_length : ℤ → ℕ
unfolding magnitude_length
int_length (negsuc m) = 4 + magnitude_length (bit_len m)
int_length (pos zero) = 4
int_length (pos (suc n)) = 4 + magnitude_length (bit_len (suc n))

-- `b & 0x80 != 0`
abbrev pub top_bit : ℕ → Bool
top_bit b = bit_and b 0x80 == 0x80

abbrev pub invert : Bytes → Bytes
invert = map (λ b. bit_xor b 0xff)

-- 0x00 in front of a magnitude that would read as a negative number
unfoldable pub pad_positive : Bytes → Bytes
pad_positive [] = []
pad_positive (b ∷ bs) = if top_bit b then 0 ∷ b ∷ bs else b ∷ bs

-- 0xff in front of inverted bytes that would read as a positive number
unfoldable pub pad_negative : Bytes → Bytes
pad_negative [] = 0xff ∷ []
pad_negative (b ∷ bs) = if top_bit b then b ∷ bs else 0xff ∷ b ∷ bs

unfoldable pub int_content : ℤ → Bytes
unfolding pad_positive pad_negative
int_content (negsuc m) = pad_negative (invert (be_bytes m))
int_content (pos zero) = []
int_content (pos (suc n)) = pad_positive (be_bytes (suc n))

-- marshalInt writes the content's length (as four bytes) and the content.
unfoldable pub marshal_int : ℤ → Bytes
unfolding append_string
marshal_int n = append_string [] (int_content n)

unfoldable pub int_value : Bytes → ℤ
int_value [] = pos 0
int_value (b ∷ bs) =
    if top_bit b then negsuc (be_value (invert (b ∷ bs))) else pos (be_value (b ∷ bs))

unfoldable pub parse_int : Bytes → Option (ℤ × Bytes)
unfolding int_value
parse_int input = elim (parse_string input) [
  | none ↦ none
  | some (contents, rest) ↦ some (int_value contents, rest)
]
