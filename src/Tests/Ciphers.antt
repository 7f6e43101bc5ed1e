-- ===== src/Tests/Ciphers.antt =====
-- Packet framing of cipher.go with a key stream that swaps the values 0 and 1 in some of the bytes,
-- and a MAC of one byte.
use xcryptossh.Prelude.{
  ℕ, zero, suc, ◌+◌, ◌%◌, ◌≡◌, refl, [], ◌∷◌, ◌++◌, ok, Bytes, arith, ap, length, ◌∙◌,
}
use xcryptossh.Cipher.{KeyStream, Mac, mac_sealed, padding_length, write_packet, read_packet}
use xcryptossh.Cipher.RoundTrip.{read_packet-write_packet}

-- Swaps the bytes 0 and 1.
unfoldable pub swap : ℕ → ℕ
swap zero = 1
swap (suc zero) = 0
swap (suc (suc n)) = suc (suc n)

swap-swap : (n : ℕ) → swap (swap n) ≡ n
unfolding swap
swap-swap zero = refl
swap-swap (suc zero) = refl
swap-swap (suc (suc n)) = refl

-- Every second byte is changed.
unfoldable pub scramble : ℕ → Bytes → Bytes
scramble k [] = []
scramble zero (b ∷ bs) = swap b ∷ scramble 1 bs
scramble (suc k) (b ∷ bs) = b ∷ scramble k bs

unfoldable pub later : ℕ → ℕ → ℕ
later k zero = k
later zero (suc n) = later 1 n
later (suc k) (suc n) = later k n

pub length-scramble : (k : ℕ) (bs : Bytes) → length (scramble k bs) ≡ length bs
unfolding scramble
length-scramble k [] = refl
length-scramble zero (b ∷ bs) = ap suc (length-scramble 1 bs)
length-scramble (suc k) (b ∷ bs) = ap suc (length-scramble k bs)

pub scramble-scramble : (k : ℕ) (bs : Bytes) → scramble k (scramble k bs) ≡ bs
unfolding scramble
scramble-scramble k [] = refl
scramble-scramble zero (b ∷ bs) = ground (arith, swap-swap b, scramble-scramble 1 bs)
scramble-scramble (suc k) (b ∷ bs) = ap (λ l. b ∷ l) (scramble-scramble k bs)

pub scramble-append :
    (k : ℕ) (xs ys : Bytes)
    → scramble k (xs ++ ys) ≡ scramble k xs ++ scramble (later k (length xs)) ys
unfolding scramble later
scramble-append k [] ys = refl
scramble-append zero (x ∷ xs) ys = ap (λ l. swap x ∷ l) (scramble-append 1 xs ys)
scramble-append (suc k) (x ∷ xs) ys = ap (λ l. x ∷ l) (scramble-append k xs ys)

suc_add : (m n : ℕ) → suc (m + n) ≡ suc m + n
suc_add m n = omega arith

pub later-later : (k m n : ℕ) → later (later k m) n ≡ later k (m + n)
unfolding later
later-later k zero n = ap (later k) (omega arith)
later-later zero (suc m) n = later-later 1 m n ∙ ap (later 0) (suc_add m n)
later-later (suc k) (suc m) n = later-later k m n ∙ ap (later (suc k)) (suc_add m n)

abbrev pub stream : KeyStream
stream = record {
  Position = ℕ;
  xor = scramble;
  skip = later;
  length-xor = length-scramble;
  xor-xor = scramble-scramble;
  xor-append = scramble-append;
  skip-skip = later-later;
}

unfoldable pub total : Bytes → ℕ
total [] = 0
total (b ∷ bs) = (b + total bs) % 256

abbrev pub one_byte : Mac
one_byte = record { size = 1; sum = λ bs. total bs ∷ []; length-sum = λ bs. refl }

abbrev pub ten : Bytes
ten = 1 ∷ 2 ∷ 3 ∷ 4 ∷ 5 ∷ 6 ∷ 7 ∷ 8 ∷ 9 ∷ 10 ∷ []

read_packet-write_packet_example :
    (out : Bytes) × (k : ℕ) × (write_packet stream
        (mac_sealed one_byte)
        3
        (ten ++ ten)
        (94 ∷ 0 ∷ 1 ∷ [])
        0
      ≡ ok (out, k))
    × ((rest : Bytes)
        → read_packet stream (mac_sealed one_byte) 3 (out ++ rest) 0
          ≡ ok (94 ∷ 0 ∷ 1 ∷ [], rest, k))
unfolding padding_length
read_packet-write_packet_example =
    read_packet-write_packet stream (mac_sealed one_byte) 3 (ten ++ ten) (94 ∷ 0 ∷ 1 ∷ []) 0
      (omega arith) (omega arith) (omega arith)
