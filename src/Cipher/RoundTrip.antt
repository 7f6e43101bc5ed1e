-- ===== src/Cipher/RoundTrip.antt =====
-- readPacket opens what writePacket sealed, in each of the three MAC modes.
use xcryptossh.Prelude.{
  ℕ, ◌+◌, ◌-◌, ◌%◌, ◌≤◌, ◌<◌, ◌≡◌, refl, [], ◌∷◌, ◌++◌, Bytes, true, false, ltb, leb, length, take,
  drop, ok, bytes_eq, bytes_eq_refl, arith, take-append, drop-append, length-append, append_assoc,
  ap, ap₂, ◌∙◌, sym, length-take, if_false, if_true,
}
use xcryptossh.Wire.Numbers.{u32_bytes, be32-bytes}
use xcryptossh.Channel.Receive.{be32_at}
use xcryptossh.Cipher.{
  KeyStream, Mode, no_mac, mac_plain, mac_sealed, mac_size, tag, aad_length, padding_length,
  max_packet, seal_prefix, behind_prefix, byte_4, write_packet, read_body, read_packet,
}

length-tag :
    (mode : Mode) (seq : ℕ) (prefix seal plain sealed : Bytes)
    → length (tag mode seq prefix seal plain sealed) ≡ mac_size mode
length-tag no_mac seq prefix seal plain sealed = refl
length-tag (mac_plain m) seq prefix seal plain sealed = m.length-sum _
length-tag (mac_sealed m) seq prefix seal plain sealed = m.length-sum _

-- A frame has from 4 to 19 bytes of padding, and what is encrypted of it fills up blocks of 16.
pub padding_length_lem :
    (mode : Mode) (n : ℕ)
    → (4 ≤ padding_length mode n)
      × (padding_length mode n < 20)
      × ((5 + n - aad_length mode + padding_length mode n) % 16 ≡ 0)
unfolding padding_length
padding_length_lem mode n = (ground arith, ground arith, ground arith)

module _ (c : KeyStream) where
  open c use {Position, xor, skip}

  length-seal :
      (mode : Mode) (k : Position) (a b d e p : ℕ)
      → length (seal_prefix c mode k (a ∷ b ∷ d ∷ e ∷ p ∷ [])) ≡ 5
  length-seal no_mac k a b d e p = c.length-xor k _
  length-seal (mac_plain m) k a b d e p = c.length-xor k _
  length-seal (mac_sealed m) k a b d e p = omega (arith, c.length-xor k (p ∷ []))

  unseal :
      (mode : Mode) (k : Position) (a b d e p : ℕ)
      → seal_prefix c mode k (seal_prefix c mode k (a ∷ b ∷ d ∷ e ∷ p ∷ []))
        ≡ a ∷ b ∷ d ∷ e ∷ p ∷ []
  unseal no_mac k a b d e p = c.xor-xor k _
  unseal (mac_plain m) k a b d e p = c.xor-xor k _
  unseal (mac_sealed m) k a b d e p = ap (λ l. a ∷ b ∷ d ∷ e ∷ l) (c.xor-xor k (p ∷ []))

  -- The part behind the prefix: the payload comes back, and what follows the MAC is left.
  read_body_lem :
      (mode : Mode) (seq : ℕ) (prefix seal packet padding rest : Bytes) (len : ℕ) (k : Position)
      → len ≡ length packet + 1 + length padding
      → let sealed = xor k (packet ++ padding) in
        read_body c mode seq prefix seal len
          (length padding)
          (sealed ++ (tag mode seq prefix seal (packet ++ padding) sealed ++ rest))
          k
        ≡ ok (packet, rest, skip k (len - 1))
  unfolding read_body
  read_body_lem mode seq prefix seal packet padding rest len k e =
      let plain : Bytes = packet ++ padding in
      let sealed : Bytes = xor k plain in
      let mac : Bytes = tag mode seq prefix seal plain sealed in
      let n_sealed : length sealed ≡ len - 1 =
        c.length-xor k plain ∙ length-append packet padding ∙ omega (arith, e) in
      let n_mac : length mac ≡ mac_size mode = length-tag mode seq prefix seal plain sealed in
      let input : Bytes = sealed ++ (mac ++ rest) in
      let taken : take (len - 1) input ≡ sealed =
        take-append (len - 1) sealed (mac ++ rest) n_sealed in
      let dropped : drop (len - 1) input ≡ mac ++ rest =
        drop-append (len - 1) sealed (mac ++ rest) n_sealed in
      let opened : xor k (take (len - 1) input) ≡ plain = ap (xor k) taken ∙ c.xor-xor k plain in
      let code : take (mac_size mode) (drop (len - 1) input) ≡ mac =
        ap (take (mac_size mode)) dropped ∙ take-append (mac_size mode) mac rest n_mac in
      let front : take (len - length padding - 1) plain ≡ packet =
        take-append (len - length padding - 1) packet padding (omega (arith, e)) in
      let behind : drop (len - 1 + mac_size mode) input ≡ rest =
        ap (drop (len - 1 + mac_size mode)) (sym (append_assoc sealed mac rest))
        ∙ drop-append (len - 1 + mac_size mode) (sealed ++ mac) rest
            (length-append sealed mac ∙ omega (arith, n_sealed, n_mac)) in
      let long : ltb (length input) (len - 1 + mac_size mode) ≡ false =
        ground
          (arith, length-append sealed (mac ++ rest), length-append mac rest, n_sealed, n_mac) in
      let same : bytes_eq
            (tag mode seq prefix seal (xor k (take (len - 1) input)) (take (len - 1) input))
            (take (mac_size mode) (drop (len - 1) input))
          ≡ true =
        ap₂
          (λ p t.
            bytes_eq (tag mode seq prefix seal p t) (take (mac_size mode) (drop (len - 1) input)))
          opened taken
        ∙ ap (bytes_eq mac) code
        ∙ bytes_eq_refl mac in
      if_false _ _ long
      ∙ if_true _ _ same
      ∙ ap₂ (λ p r. ok (p, r, skip k (len - 1)))
          (ap (take (len - length padding - 1)) opened ∙ front) behind

  -- A frame the reader can take apart: the two length tests pass on the prefix it opens.
  read_packet_of :
      (mode : Mode) (seq : ℕ) (input seal : Bytes) (len pad : ℕ) (k : Position) (body : Bytes)
      → input ≡ seal ++ body
      → length seal ≡ 5
      → seal_prefix c mode k seal ≡ u32_bytes len ++ (pad ∷ [])
      → pad + 1 < len
      → len ≤ max_packet
      → read_packet c mode seq input k
        ≡ read_body c mode seq
            (u32_bytes len ++ (pad ∷ []))
            seal
            len
            pad
            body
            (behind_prefix c mode k)
  unfolding read_packet
  read_packet_of mode seq input seal len pad k body e five clear low high =
      let K = behind_prefix c mode k in
      let prefix : Bytes = u32_bytes len ++ (pad ∷ []) in
      let first : take 5 input ≡ seal = ap (take 5) e ∙ take-append 5 seal body five in
      let behind : drop 5 input ≡ body = ap (drop 5) e ∙ drop-append 5 seal body five in
      let opened : seal_prefix c mode k (take 5 input) ≡ prefix =
        ap (seal_prefix c mode k) first ∙ clear in
      let field : be32_at 0 prefix ≡ len = be32-bytes len (omega (arith, high)) in
      let there : ltb (length input) 5 ≡ false =
        ap (λ l. ltb (length l) 5) e ∙ ground (arith, length-append seal body, five) in
      let not_small : leb (be32_at 0 (seal_prefix c mode k (take 5 input)))
            (byte_4 (seal_prefix c mode k (take 5 input)) + 1)
          ≡ false =
        ap (λ p. leb (be32_at 0 p) (byte_4 p + 1)) opened
        ∙ ap (λ l. leb l (pad + 1)) field
        ∙ ground arith in
      let not_large : ltb max_packet (be32_at 0 (seal_prefix c mode k (take 5 input))) ≡ false =
        ap (λ p. ltb max_packet (be32_at 0 p)) opened ∙ ap (ltb max_packet) field ∙ ground arith in
      if_false _ _ there
      ∙ if_false _ _ not_small
      ∙ if_false _ _ not_large
      ∙ ap₂
          (λ (p : Bytes) (s : Bytes).
            read_body c mode seq p s (be32_at 0 p) (byte_4 p) (drop 5 input) K)
          opened first
      ∙ ap₂ (λ l b. read_body c mode seq prefix seal l pad b K) field behind

  -- With enough randomness for the padding, a packet that is not empty and fits the reader's
  -- limit together with its padding is written, and the reader gives it back, leaves what follows
  -- the frame, and stands at the same position of the key stream as the writer.
  pub read_packet-write_packet :
      (mode : Mode) (seq : ℕ) (rand packet : Bytes) (k : Position)
      → 1 ≤ length packet
      → length packet + 1 + padding_length mode (length packet) ≤ max_packet
      → padding_length mode (length packet) ≤ length rand
      → (out : Bytes) × (k' : Position) × (write_packet c mode seq rand packet k ≡ ok (out, k'))
        × ((rest : Bytes) → read_packet c mode seq (out ++ rest) k ≡ ok (packet, rest, k'))
  unfolding write_packet
  read_packet-write_packet mode seq rand packet k some_byte fits enough =
      let n : ℕ = padding_length mode (length packet) in
      let len : ℕ = length packet + 1 + n in
      let K = behind_prefix c mode k in
      let prefix : Bytes = u32_bytes len ++ (n ∷ []) in
      let seal : Bytes = seal_prefix c mode k prefix in
      let padding : Bytes = take n rand in
      let plain : Bytes = packet ++ padding in
      let sealed : Bytes = xor K packet ++ xor (skip K (length packet)) padding in
      let mac : Bytes = tag mode seq prefix seal plain sealed in
      let whole : xor K plain ≡ sealed = c.xor-append K packet padding in
      let n_pad : length padding ≡ n = length-take n rand ∙ ground arith in
      let after : skip K (len - 1) ≡ skip (skip K (length packet)) n =
        ap (skip K) (omega arith) ∙ sym (c.skip-skip K (length packet) n) in
      (
        seal ++ (sealed ++ mac),
        skip (skip K (length packet)) n,
        if_false {b = ltb max_packet (length packet)} _ _ (ground arith)
            ∙ if_false {b = ltb (length rand) n} _ _ (ground arith),
        λ rest.
            read_packet_of mode seq _ seal len n k (sealed ++ (mac ++ rest))
              (append_assoc seal (sealed ++ mac) rest
                ∙ ap (λ l. seal ++ l) (append_assoc sealed mac rest))
              (length-seal mode k _ _ _ _ n) (unseal mode k _ _ _ _ n) (omega arith) fits
            ∙ ap₂
                (λ p s.
                  read_body c mode seq prefix seal len p
                    (s ++ (tag mode seq prefix seal plain s ++ rest)) K)
                (sym n_pad) (sym whole)
            ∙ read_body_lem mode seq prefix seal packet padding rest len K (omega (arith, n_pad))
            ∙ ap (λ r. ok (packet, rest, r)) after,
      )
