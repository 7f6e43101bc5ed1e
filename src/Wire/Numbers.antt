-- ===== src/Wire/Numbers.antt =====
-- Fixed-width numbers on the wire: appendU16, appendU32 and appendU64 of common.go, parseUint32 and
-- parseUint64 of messages.go, and the big-endian reads of encoding/binary that they call.
use xcryptossh.Prelude.{
  ℕ, ◌+◌, ◌*◌, ◌/◌, ◌%◌, ◌^◌, ◌<◌, ◌≡◌, [], ◌∷◌, ◌++◌, Option, none, some, arith, Bytes, IsByte, ap,
  All,
}

-- `byte(n >> k)`
abbrev pub byte_at : ℕ → ℕ → ℕ
byte_at n k = n / 2 ^ k % 256

abbrev pub u16_bytes : ℕ → Bytes
u16_bytes n = byte_at n 8 ∷ byte_at n 0 ∷ []

abbrev pub u32_bytes : ℕ → Bytes
u32_bytes n = byte_at n 24 ∷ byte_at n 16 ∷ byte_at n 8 ∷ byte_at n 0 ∷ []

abbrev pub u64_bytes : ℕ → Bytes
u64_bytes n =
    byte_at n 56
    ∷ byte_at n 48
    ∷ byte_at n 40
    ∷ byte_at n 32
    ∷ byte_at n 24
    ∷ byte_at n 16
    ∷ byte_at n 8
    ∷ byte_at n 0
    ∷ []

abbrev pub append_u16 : Bytes → ℕ → Bytes
append_u16 buf n = buf ++ u16_bytes n

abbrev pub append_u32 : Bytes → ℕ → Bytes
append_u32 buf n = buf ++ u32_bytes n

abbrev pub append_u64 : Bytes → ℕ → Bytes
append_u64 buf n = buf ++ u64_bytes n

-- `uint32(n)` of an int
abbrev pub append_int : Bytes → ℕ → Bytes
append_int buf n = append_u32 buf (n % 2 ^ 32)

abbrev pub be32 : ℕ → ℕ → ℕ → ℕ → ℕ
be32 a b c d = a * 2 ^ 24 + b * 2 ^ 16 + c * 2 ^ 8 + d

-- `none` is the result with `ok` false: fewer than four bytes.
unfoldable pub parse_uint32 : Bytes → Option (ℕ × Bytes)
parse_uint32 (a ∷ b ∷ c ∷ d ∷ rest) = some (be32 a b c d, rest)
parse_uint32 _ = none

unfoldable pub parse_uint64 : Bytes → Option (ℕ × Bytes)
parse_uint64 (a ∷ b ∷ c ∷ d ∷ e ∷ f ∷ g ∷ h ∷ rest) =
    some (be32 a b c d * 2 ^ 32 + be32 e f g h, rest)
parse_uint64 _ = none

pub be32-bytes :
    (n : ℕ) → n < 2 ^ 32 → be32 (byte_at n 24) (byte_at n 16) (byte_at n 8) (byte_at n 0) ≡ n
be32-bytes n h = omega arith

pub parse_uint32-bytes :
    (n : ℕ) (rest : Bytes) → n < 2 ^ 32 → parse_uint32 (u32_bytes n ++ rest) ≡ some (n, rest)
unfolding parse_uint32
parse_uint32-bytes n rest h = ap (λ k. some (k, rest)) (be32-bytes n h)

pub parse_uint64-bytes :
    (n : ℕ) (rest : Bytes) → n < 2 ^ 64 → parse_uint64 (u64_bytes n ++ rest) ≡ some (n, rest)
unfolding parse_uint64
parse_uint64-bytes n rest h = ap (λ k. some (k, rest)) (omega arith)

byte_sum :
    (a b c d : ℕ)
    → IsByte a
    → IsByte b
    → IsByte c
    → IsByte d
    → u32_bytes (be32 a b c d) ≡ a ∷ b ∷ c ∷ d ∷ []
byte_sum a b c d ha hb hc hd = ground arith

-- What `parse_uint32` accepts is the encoding of its result.
pub parse_uint32_sound :
    (data' : Bytes) (n : ℕ) (rest : Bytes)
    → All IsByte data'
    → parse_uint32 data' ≡ some (n, rest)
    → (n < 2 ^ 32) × (data' ≡ u32_bytes n ++ rest)
unfolding parse_uint32
parse_uint32_sound [] n rest h e = cc
parse_uint32_sound (a ∷ []) n rest h e = cc
parse_uint32_sound (a ∷ b ∷ []) n rest h e = cc
parse_uint32_sound (a ∷ b ∷ c ∷ []) n rest h e = cc
parse_uint32_sound (a ∷ b ∷ c ∷ d ∷ r) n rest h e =
    ground (arith, byte_sum a b c d h.0 h.1.0 h.1.1.0 h.1.1.1.0)
