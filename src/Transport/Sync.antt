-- ===== src/Transport/Sync.antt =====
-- Two ends of a connection stay in step, over changes of keys.
use xcryptossh.Prelude.{
  ℕ, zero, suc, ◌<◌, ◌≡◌, ◌≢◌, refl, List, [], ◌∷◌, ◌++◌, none, Bytes, false, ◌==◌, ◌||◌,
  if◌then◌else◌, length, map, Result, ok, ◌>>=◌, arith, All, Result-cases, >>=-eq-ok, ap₂,
  append_assoc, ap, Bool-cases, inl, inr,
}
use xcryptossh.Errors.{Error}
use xcryptossh.Transport.{
  PacketCipher, ConnState, change_keys, next_seq, write_packet, interpret, read_packet, read_loop,
  read, is_type, msg_new_keys, msg_disconnect, msg_ignore, msg_debug,
}

module _ (c : PacketCipher) where
  open c use {State, Sendable, seal, unseal, unseal-seal, unseal_shortens}

  -- A packet with its padding bytes; writers send none that is empty or a disconnect.
  abbrev pub Packets : Type 0
  Packets = List (Bytes × Bytes)

  unfoldable pub write_all : Packets → ConnState c → Result Error (Bytes × ConnState c)
  write_all [] s = ok ([], s)
  write_all ((rand, packet) ∷ ps) s = do
    (out, s') ← write_packet c rand packet s
    (outs, s'') ← write_all ps s'
    ok (out ++ outs, s'')

  unfoldable pub read_all :
      ℕ → Bytes → ConnState c → Result Error (List Bytes × Bytes × ConnState c)
  read_all zero input s = ok ([], input, s)
  read_all (suc n) input s = do
    (packet, rest, s') ← read_packet c input s
    (packets, rest', s'') ← read_all n rest s'
    ok (packet ∷ packets, rest', s'')

  change_keys_ok :
      (e e' : Error) (ks : List State) (s s' : ConnState c)
      → change_keys c e ks s ≡ ok s'
      → change_keys c e' ks s ≡ ok s'
  change_keys_ok e e' [] s s' h = cc
  change_keys_ok e e' (k ∷ ks) s s' h = h

  interpret_sent :
      (packet : Bytes) (s s' : ConnState c)
      → packet ≢ []
      → is_type msg_disconnect packet ≡ false
      → (if is_type msg_new_keys packet
          then change_keys c Error.no_key_material s.pending s
          else ok s)
        ≡ ok s'
      → interpret c packet s ≡ ok s'
  unfolding interpret
  interpret_sent [] s s' ne live h = absurd (ne refl)
  interpret_sent (t ∷ body) s s' ne live h = elim (Bool-cases (t == msg_new_keys)) [
    | inl e ↦
        rw e (change_keys_ok Error.no_key_material Error.bogus_new_keys s.pending s s' (rw e at h))
    | inr e ↦ rw (e, live) (rw e at h)
  ]

  -- One packet, and what follows it.
  pub read_packet-write_packet_conn :
      (rand packet out rest : Bytes) (s s' : ConnState c)
      → Sendable packet
      → packet ≢ []
      → is_type msg_disconnect packet ≡ false
      → write_packet c rand packet s ≡ ok (out, s')
      → read_packet c (out ++ rest) s ≡ ok (packet, rest, s')
  unfolding write_packet read_packet
  read_packet-write_packet_conn rand packet out rest s s' fits ne live h =
      let ((out', k), sealed, h') = >>=-eq-ok _ _ h in
      let (s'', changed, done) = >>=-eq-ok _ _ h' in
      let same_out : out' ≡ out = cc in
      let same : s'' ≡ s' = cc in
      let opened = unseal-seal s.cipher k s.seq_num rand packet out' rest fits sealed in
      rw (← same_out, opened)
        (rw (interpret_sent packet (next_seq c k s) s'' ne live changed)
          (ap (λ x. ok (packet, rest, x)) same))

  abbrev pub Lively : Packets → Type 0
  Lively = All (λ p. Sendable p.1 × (p.1 ≢ []) × (is_type msg_disconnect p.1 ≡ false))

  -- Packets that the cipher can send, none empty and none a disconnect, are written one after the
  -- other without an error, changes of keys among them: a reader in the same state as the writer, with the same
  -- pending ciphers, reads back just these packets, leaves what follows them, and ends in the state of the writer.
  pub read_all-write_all :
      (ps : Packets) (out rest : Bytes) (s s' : ConnState c)
      → Lively ps
      → write_all ps s ≡ ok (out, s')
      → read_all (length ps) (out ++ rest) s ≡ ok (map (λ p. p.1) ps, rest, s')
  unfolding write_all read_all
  read_all-write_all [] out rest s s' live h =
      let none_out : out ≡ [] = cc in
      let same : s ≡ s' = cc in ap₂ (λ o x. ok ([], o ++ rest, x)) none_out same
  read_all-write_all ((rand, packet) ∷ ps) out rest s s' live h =
      let ((out1, s1), first, h1) =
        >>=-eq-ok {A = Bytes × ConnState c} (write_packet c rand packet s)
          (λ r. write_all ps r.1 >>= λ q. ok (r.0 ++ q.0, q.1)) h in
      let ((outs, s2), others, h2) =
        >>=-eq-ok {A = Bytes × ConnState c} (write_all ps s1) (λ q. ok (out1 ++ q.0, q.1)) h1 in
      let all_out : out ≡ out1 ++ outs = cc in
      let same : s2 ≡ s' = cc in
      let (fits, ne, quiet) = live.0 in
      rw
        (
          all_out,
          append_assoc out1 outs rest,
          read_packet-write_packet_conn rand packet out1 (outs ++ rest) s s1 fits ne quiet first,
        )
        (rw (read_all-write_all ps outs rest s1 s2 live.1 others)
          (ap (λ x. ok (packet ∷ map (λ p. p.1) ps, rest, x)) same))

  read_packet_shortens :
      (input packet rest : Bytes) (s s' : ConnState c)
      → read_packet c input s ≡ ok (packet, rest, s')
      → length rest < length input
  unfolding read_packet
  read_packet_shortens input packet rest s s' h =
      let ((packet', rest', k), opened, h1) =
        >>=-eq-ok {A = Bytes × Bytes × State} (unseal s.cipher s.seq_num input)
          (λ r. interpret c r.0 (next_seq c r.2 s) >>= λ s1. ok (r.0, r.1, s1)) h in
      let (s1, understood, h2) =
        >>=-eq-ok {A = ConnState c} (interpret c packet' (next_seq c k s))
          (λ s1. ok (packet', rest', s1)) h1 in
      let same : rest' ≡ rest = cc in
      rw (← same) (unseal_shortens s.cipher k s.seq_num input packet' rest' opened)

  read_loop-ne-none :
      (fuel : ℕ) (input : Bytes) (s : ConnState c)
      → length input < fuel
      → read_loop c fuel input s ≢ none
  unfolding read_loop
  read_loop-ne-none zero input s h = elim h [ ]
  read_loop-ne-none (suc fuel) input s h = elim (Result-cases (read_packet c input s)) [
    | inr (e, failed) ↦ rw (failed, read_loop) (λ q. cc)
    | inl ((packet, rest, s'), done) ↦
        let shorter = read_packet_shortens input packet rest s s' done in
        rw (done, read_loop)
          (elim (Bool-cases (is_type msg_ignore packet || is_type msg_debug packet)) [
            | inl skip ↦ rw skip (read_loop-ne-none fuel rest s' (omega arith))
            | inr stop ↦ rw stop (λ q. cc)
          ])
  ]

  -- The loop of transport.readPacket, which goes on after an ignored or a debug message, ends on every
  -- input that ends and in every state, with the fuel that `read` gives it.
  pub read-ne-none : (input : Bytes) (s : ConnState c) → read c input s ≢ none
  unfolding read
  read-ne-none input s = read_loop-ne-none (suc (length input)) input s (omega arith)
