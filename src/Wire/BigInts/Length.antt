-- ===== src/Wire/BigInts/Length.antt =====
-- intLength is the number of bytes that marshalInt writes: the buffers of marshalStruct and
-- writeInt, which are cut to it, fit exactly.
use xcryptossh.Prelude.{
  ℕ, zero, suc, ◌+◌, ◌-◌, ◌*◌, ◌/◌, ◌%◌, ◌<◌, ◌≤◌, ◌≡◌, refl, [], ◌∷◌, arith, Bytes, length, true,
  false, ◌==◌, length-map, passes_up_to, passes_up_to_at, ◌∙◌, ap, subst, ltb, leb, ◌&&◌, ◌||◌,
  dec_lt, bit_xor,
}
use xcryptossh.Prelude.Int.{ℤ, pos, negsuc}
use xcryptossh.Wire.BigInts.{
  be_digits, be_bytes, top_bit, invert, pad_positive, pad_negative, bit_len_loop, bit_len,
  magnitude_length, int_length, int_content, marshal_int,
}
use xcryptossh.Wire.BigInts.RoundTrip.{top_bit-eq-leb, bit_xor-eq-sub}

-- The number of rounds does not matter once it is enough.
bit_len_loop-fuel : (f g n : ℕ) → n ≤ f → n ≤ g → bit_len_loop f n ≡ bit_len_loop g n
unfolding bit_len_loop
bit_len_loop-fuel zero zero n hf hg = refl
bit_len_loop-fuel zero (suc g) n hf hg = ground arith
bit_len_loop-fuel (suc f) zero n hf hg = ground arith
bit_len_loop-fuel (suc f) (suc g) n hf hg = ground (arith, bit_len_loop-fuel f g (n / 2))

bit_len_half : (n m : ℕ) → 0 < n → m ≡ n / 2 → bit_len n ≡ bit_len m + 1
unfolding bit_len_loop
bit_len_half zero m h e = elim h [ ]
bit_len_half (suc n) m h e = ground (arith, bit_len_loop-fuel n m m)

bit_len_byte : (n : ℕ) → 256 ≤ n → bit_len n ≡ bit_len (n / 256) + 8
bit_len_byte n h = omega (
  arith,
  bit_len_half n (n / 2) (omega arith) (omega arith),
  bit_len_half (n / 2) (n / 4) (omega arith) (omega arith),
  bit_len_half (n / 4) (n / 8) (omega arith) (omega arith),
  bit_len_half (n / 8) (n / 16) (omega arith) (omega arith),
  bit_len_half (n / 16) (n / 32) (omega arith) (omega arith),
  bit_len_half (n / 32) (n / 64) (omega arith) (omega arith),
  bit_len_half (n / 64) (n / 128) (omega arith) (omega arith),
  bit_len_half (n / 128) (n / 256) (omega arith) (omega arith),
)

-- One byte: 1 to 8 bits, and 8 exactly where the top bit is set.
byte_bits_table :
    passes_up_to
      (λ b.
        (b == 0)
        || ((leb 1 (bit_len b) && leb (bit_len b) 8)
            && elim (bit_len b == 8) [ true ↦ leb 128 b | false ↦ ltb b 128 ]))
      256
    ≡ true
unfolding passes_up_to bit_len_loop
byte_bits_table = refl

byte_bits :
    (b : ℕ) → b < 256 → 0 < b → (1 ≤ bit_len b) × (bit_len b ≤ 8) × (top_bit b ≡ (bit_len b == 8))
byte_bits b h p = ground (arith, passes_up_to_at _ 256 h byte_bits_table, top_bit-eq-leb b h)

-- A first digit that is not 0, with so many more behind it that the bits add up to `bits`.
record HasBits (bits : ℕ) (bs : Bytes) : Type 0 where
  first : ℕ
  others : Bytes
  shape : bs ≡ first ∷ others
  small : first < 256
  nonzero : 0 < first
  count : bits ≡ bit_len first + 8 * length others

be_digits-zero : (fuel : ℕ) (acc : Bytes) → be_digits fuel 0 acc ≡ acc
unfolding be_digits
be_digits-zero zero acc = refl
be_digits-zero (suc fuel) acc = refl

last_digit :
    (fuel n : ℕ) (acc : Bytes)
    → 0 < n
    → n < 256
    → HasBits (bit_len n + 8 * length acc) (be_digits fuel (n / 256) (n % 256 ∷ acc))
last_digit fuel n acc p q = record {
  first = n;
  others = acc;
  shape = shape';
  small = q;
  nonzero = p;
  count = refl;
}
  where
    none_left : n / 256 ≡ 0
    none_left = omega arith

    shape' : be_digits fuel (n / 256) (n % 256 ∷ acc) ≡ n ∷ acc
    shape' = rw none_left (be_digits-zero fuel (n % 256 ∷ acc) ∙ ap (λ k. k ∷ acc) (omega arith))

be_digits-HasBits :
    (fuel n : ℕ) (acc : Bytes)
    → 0 < n
    → n ≤ fuel
    → HasBits (bit_len n + 8 * length acc) (be_digits fuel n acc)
unfolding be_digits
be_digits-HasBits zero n acc p h = absurd (omega arith)
be_digits-HasBits (suc fuel) n acc p h =
    let more : (n == 0) ≡ false = ground arith in
    rw more (elim (dec_lt n 256) [
      | yes q ↦ last_digit fuel n acc p q
      | no q ↦
          let bits : bit_len n + 8 * length acc ≡ bit_len (n / 256) + 8 * suc (length acc) =
            omega (arith, bit_len_byte n (omega arith)) in
          rw bits (be_digits-HasBits fuel (n / 256) (n % 256 ∷ acc) (omega arith) (omega arith))
    ])

be_bytes-HasBits : (n : ℕ) → 0 < n → HasBits (bit_len n) (be_bytes n)
be_bytes-HasBits n p =
    let bits : bit_len n + 8 * 0 ≡ bit_len n = omega arith in
    subst (λ k. HasBits k (be_bytes n)) bits (be_digits-HasBits n n [] p (omega arith))

length-pad_positive :
    (bits : ℕ) (bs : Bytes) → HasBits bits bs → length (pad_positive bs) ≡ magnitude_length bits
unfolding pad_positive magnitude_length
length-pad_positive bits bs h =
    rw h.shape (ground (arith, h.count, byte_bits h.first h.small h.nonzero))

length-pad_negative :
    (bits : ℕ) (bs : Bytes)
    → HasBits bits bs
    → length (pad_negative (invert bs)) ≡ magnitude_length bits
unfolding pad_negative magnitude_length
length-pad_negative bits bs h = rw h.shape (
    ground (
      arith,
      h.count,
      byte_bits h.first h.small h.nonzero,
      top_bit-eq-leb h.first h.small,
      bit_xor-eq-sub h.first h.small,
      top_bit-eq-leb (255 - h.first),
      length-map (λ b. bit_xor b 0xff) h.others,
    ))

length-int_content : (n : ℤ) → 4 + length (int_content n) ≡ int_length n
unfolding int_content int_length
length-int_content (negsuc zero) = unfold be_digits bit_len_loop in refl
length-int_content (negsuc (suc m)) =
    omega (arith, length-pad_negative _ _ (be_bytes-HasBits (suc m) (omega arith)))
length-int_content (pos zero) = refl
length-int_content (pos (suc n)) =
    omega (arith, length-pad_positive _ _ (be_bytes-HasBits (suc n) (omega arith)))

-- What marshalInt writes has exactly the length that intLength has made room for.
pub length-marshal_int : (n : ℤ) → length (marshal_int n) ≡ int_length n
unfolding marshal_int
length-marshal_int n = omega (arith, length-int_content n)
