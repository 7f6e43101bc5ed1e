-- ===== src/Cipher.antt =====
-- Packet framing of cipher.go: streamPacketCipher with readPacket and writePacket.
-- The stream cipher and the MAC come from Go's crypto packages: they are parameters, with what
-- their documentation says as laws.
pub mod RoundTrip
use xcryptossh.Prelude.{
  ℕ, ◌+◌, ◌-◌, ◌*◌, ◌%◌, ◌^◌, ◌≤◌, ◌≡◌, List, [], ◌∷◌, ◌++◌, Bytes, Bool, true, false, ltb, leb,
  if◌then◌else◌, length, take, drop, Result, ok, err, bytes_eq,
}
use xcryptossh.Errors.{Error}
use xcryptossh.Wire.Numbers.{u32_bytes, be32}
use xcryptossh.Channel.Receive.{be32_at}

-- cipher.Stream: `xor k` is XORKeyStream at the position `k` of the key stream, and `skip k n` the
-- position `n` bytes further. Calls on parts are the call on the whole; two of them at one position
-- cancel.
pub record KeyStream : Type 1 where
  pub Position : Type 0
  pub xor : Position → Bytes → Bytes
  pub skip : Position → ℕ → Position
  pub length-xor : (k : Position) (bs : Bytes) → length (xor k bs) ≡ length bs
  pub xor-xor : (k : Position) (bs : Bytes) → xor k (xor k bs) ≡ bs
  pub xor-append :
      (k : Position) (xs ys : Bytes) → xor k (xs ++ ys) ≡ xor k xs ++ xor (skip k (length xs)) ys
  pub skip-skip : (k : Position) (m n : ℕ) → skip (skip k m) n ≡ skip k (m + n)

-- hash.Hash: the sum of all that was written since Reset, of a fixed size.
pub record Mac : Type 0 where
  pub size : ℕ
  pub sum : Bytes → Bytes
  pub length-sum : (bs : Bytes) → length (sum bs) ≡ size

-- The fields `mac` and `etm`: no MAC, one of the plain packet, or one of what was encrypted.
pub data Mode : Type 0 where
  no_mac : Mode
  mac_plain : Mac → Mode
  mac_sealed : Mac → Mode

-- `io.ReadFull` on an input that is too short.
abbrev pub read_full_error : Bytes → Error
read_full_error [] = Error.eof
read_full_error (b ∷ bs) = Error.unexpected_eof

abbrev pub max_packet : ℕ
max_packet = 256 * 1024

abbrev pub mac_size : Mode → ℕ
mac_size no_mac = 0
mac_size (mac_plain m) = m.size
mac_size (mac_sealed m) = m.size

abbrev pub aad_length : Mode → ℕ
aad_length (mac_sealed m) = 4
aad_length _ = 0

unfoldable pub padding_length : Mode → ℕ → ℕ
padding_length mode n =
    let p : ℕ = 16 - (5 + n - aad_length mode) % 16 in if ltb p 4 then p + 16 else p

-- The MAC behind a packet; `seal` is the prefix as sent, `sealed` the encrypted rest.
abbrev pub tag : Mode → ℕ → Bytes → Bytes → Bytes → Bytes → Bytes
tag no_mac seq prefix seal plain sealed = []
tag (mac_plain m) seq prefix seal plain sealed = m.sum (u32_bytes seq ++ (prefix ++ plain))
tag (mac_sealed m) seq prefix seal plain sealed = m.sum (u32_bytes seq ++ (seal ++ sealed))

-- The padding length stands behind the length field.
abbrev pub byte_4 : Bytes → ℕ
byte_4 prefix = elim (drop 4 prefix) [ p ∷ ps ↦ p | [] ↦ 0 ]

module _ (c : KeyStream) where
  open c use {Position, xor, skip}

  -- The prefix goes out encrypted, but for the length field under an EtM mode.
  abbrev pub seal_prefix : Mode → Position → Bytes → Bytes
  seal_prefix (mac_sealed m) k prefix = take 4 prefix ++ xor k (drop 4 prefix)
  seal_prefix _ k prefix = xor k prefix

  -- The position behind the prefix.
  abbrev pub behind_prefix : Mode → Position → Position
  behind_prefix (mac_sealed m) k = skip k 1
  behind_prefix _ k = skip k 5

  -- `rand` is what the source of randomness yields.
  unfoldable pub write_packet :
      Mode → ℕ → Bytes → Bytes → Position → Result Error (Bytes × Position)
  write_packet mode seq rand packet k =
      let n : ℕ = padding_length mode (length packet) in
      let prefix : Bytes = u32_bytes (length packet + 1 + n) ++ (n ∷ []) in
      let padding : Bytes = take n rand in
      let k1 = behind_prefix mode k in
      let k2 = skip k1 (length packet) in
      let seal : Bytes = seal_prefix mode k prefix in
      let sealed : Bytes = xor k1 packet ++ xor k2 padding in
      if ltb max_packet (length packet)
      then err Error.packet_too_large
      else if ltb (length rand) n
      then err (read_full_error rand)
      else ok (seal ++ (sealed ++ tag mode seq prefix seal (packet ++ padding) sealed), skip k2 n)

  -- Behind the length checks: `len` and `pad` are the prefix's fields, `input` what follows it.
  unfoldable pub read_body :
      Mode → ℕ → Bytes → Bytes → ℕ → ℕ → Bytes → Position → Result Error (Bytes × Bytes × Position)
  read_body mode seq prefix seal len pad input k =
      let sealed : Bytes = take (len - 1) input in
      let plain : Bytes = xor k sealed in
      let mac : Bytes = take (mac_size mode) (drop (len - 1) input) in
      if ltb (length input) (len - 1 + mac_size mode)
      then err (read_full_error input)
      else if bytes_eq (tag mode seq prefix seal plain sealed) mac
      then ok (take (len - pad - 1) plain, drop (len - 1 + mac_size mode) input, skip k (len - 1))
      else err Error.mac_failure

  unfoldable pub read_packet : Mode → ℕ → Bytes → Position → Result Error (Bytes × Bytes × Position)
  read_packet mode seq input k =
      let seal : Bytes = take 5 input in
      let prefix : Bytes = seal_prefix mode k seal in
      let len : ℕ = be32_at 0 prefix in
      let pad : ℕ = byte_4 prefix in
      if ltb (length input) 5
      then err (read_full_error input)
      else if leb len (pad + 1)
      then err Error.packet_too_small
      else if ltb max_packet len
      then err Error.packet_too_large
      else read_body mode seq prefix seal len pad (drop 5 input) (behind_prefix mode k)
