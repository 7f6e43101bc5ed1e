-- ===== src/Transport/Ciphers.antt =====
-- streamPacketCipher is a packetCipher: its theorems fill the interface.
use xcryptossh.Prelude.{
  ℕ, ◌+◌, ◌-◌, ◌≤◌, ◌<◌, ◌≡◌, ◌++◌, Bytes, length, take, drop, Result, ok, arith, length-drop, ap,
  >>=-eq-ok, ◌>>=◌, ◌∙◌,
}
use xcryptossh.Errors.{Error}
use xcryptossh.Channel.Receive.{be32_at}
use xcryptossh.Cipher.{
  KeyStream, Mode, padding_length, max_packet, mac_size, seal_prefix, behind_prefix, byte_4,
  write_packet, read_body, read_packet,
}
use xcryptossh.Cipher.RoundTrip.{padding_length_lem, read_packet-write_packet}
use xcryptossh.Transport.{PacketCipher}

module _ (c : KeyStream) where
  open c use {Position}

  written_enough :
      (mode : Mode) (seq : ℕ) (rand packet : Bytes) (k : Position) {r : Bytes × Position}
      → write_packet c mode seq rand packet k ≡ ok r
      → padding_length mode (length packet) ≤ length rand
  unfolding write_packet
  written_enough mode seq rand packet k h = ground arith

  abbrev pub Fits : Bytes → Type 0
  Fits packet = (1 ≤ length packet) × (length packet + 20 ≤ max_packet)

  stream_unseal-seal :
      (mode : Mode) (k k' : Position) (seq : ℕ) (rand packet out rest : Bytes)
      → Fits packet
      → write_packet c mode seq rand packet k ≡ ok (out, k')
      → read_packet c mode seq (out ++ rest) k ≡ ok (packet, rest, k')
  stream_unseal-seal mode k k' seq rand packet out rest (low, high) h =
      let (pad_low, pad_high, _) = padding_length_lem mode (length packet) in
      let (out1, k1, sent, opened) =
        read_packet-write_packet c mode seq rand packet k low (omega arith)
          (written_enough mode seq rand packet k h) in
      let same_out : out ≡ out1 = cc in
      let same_position : k1 ≡ k' = cc in
      ap (λ o. read_packet c mode seq (o ++ rest) k) same_out
      ∙ opened rest
      ∙ ap (λ p. ok (packet, rest, p)) same_position

  read_body_shortens :
      (mode : Mode) (seq : ℕ) (prefix seal : Bytes) (len pad : ℕ) (input : Bytes) (k k' : Position)
      (packet rest : Bytes)
      → read_body c mode seq prefix seal len pad input k ≡ ok (packet, rest, k')
      → length rest ≤ length input
  unfolding read_body
  read_body_shortens mode seq prefix seal len pad input k k' packet rest h =
      ground (arith, length-drop (len - 1 + mac_size mode) input)

  read_packet_shortens :
      (mode : Mode) (seq : ℕ) (input packet rest : Bytes) (k k' : Position)
      → read_packet c mode seq input k ≡ ok (packet, rest, k')
      → length rest < length input
  unfolding read_packet
  read_packet_shortens mode seq input packet rest k k' h = ground (
    arith,
    length-drop 5 input,
    read_body_shortens mode seq (seal_prefix c mode k (take 5 input)) (take 5 input)
        (be32_at 0 (seal_prefix c mode k (take 5 input)))
        (byte_4 (seal_prefix c mode k (take 5 input))) (drop 5 input) (behind_prefix c mode k) k'
        packet rest,
  )

  abbrev stream_seal :
      Mode × Position → ℕ → Bytes → Bytes → Result Error (Bytes × (Mode × Position))
  stream_seal (mode, k) seq rand packet =
      write_packet c mode seq rand packet k >>= λ r. ok (r.0, (mode, r.1))

  abbrev stream_unseal :
      Mode × Position → ℕ → Bytes → Result Error (Bytes × Bytes × (Mode × Position))
  stream_unseal (mode, k) seq input =
      read_packet c mode seq input k >>= λ r. ok (r.0, r.1, (mode, r.2))

  pub stream_opens :
      (s s' : Mode × Position) (seq : ℕ) (rand packet out rest : Bytes)
      → Fits packet
      → stream_seal s seq rand packet ≡ ok (out, s')
      → stream_unseal s seq (out ++ rest) ≡ ok (packet, rest, s')
  stream_opens (mode, k) (mode', k') seq rand packet out rest fits h =
      let ((out1, k1), sent, done) =
        >>=-eq-ok {A = Bytes × Position} (write_packet c mode seq rand packet k)
          (λ r. ok (r.0, (mode, r.1))) h in
      let same_out : out ≡ out1 = cc in
      let same_state : ◌≡◌ {A = Mode × Position} (mode, k1) (mode', k') = cc in
      rw (same_out, stream_unseal-seal mode k k1 seq rand packet out1 rest fits sent)
        (ap (λ x. ok (packet, rest, x)) same_state)

  pub stream_shortens :
      (s s' : Mode × Position) (seq : ℕ) (input packet rest : Bytes)
      → stream_unseal s seq input ≡ ok (packet, rest, s')
      → length rest < length input
  stream_shortens (mode, k) (mode', k') seq input packet rest h =
      let ((packet1, rest1, k1), opened, done) =
        >>=-eq-ok {A = Bytes × Bytes × Position} (read_packet c mode seq input k)
          (λ r. ok (r.0, r.1, (mode, r.2))) h in
      let same : rest1 ≡ rest = cc in
      rw (← same) (read_packet_shortens mode seq input packet1 rest1 k k1 opened)

  -- The mode stays with the key stream: a change of keys can change both.
  abbrev pub stream_cipher : PacketCipher
  stream_cipher = record {
    State = Mode × Position;
    Sendable = Fits;
    seal = stream_seal;
    unseal = stream_unseal;
    unseal-seal = stream_opens;
    unseal_shortens = stream_shortens;
  }
