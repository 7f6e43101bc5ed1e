-- ===== src/Channel/Receive/Laws.antt =====
-- What the receiver does with data packets, and the account of its window.
use xcryptossh.Prelude.{
  ℕ, ◌+◌, ◌-◌, ◌^◌, ◌≤◌, ◌<◌, ◌≡◌, ◌≢◌, refl, [], ◌∷◌, ◌++◌, ◌==◌, if◌then◌else◌, none, Bytes, ltb,
  length, arith, drop, length-append, ap, ◌∙◌, length-drop, dec_lt, if_true, if_false, lt→ltb,
}
use xcryptossh.Wire.Numbers.{be32, be32-bytes}
use xcryptossh.Buffer.{contents}
use xcryptossh.Buffer.Fifo.{contents-write}
use xcryptossh.Channel.{Channel, data_packet}
use xcryptossh.Channel.Receive.{deliver, be32_at, accept_data, handle_data}

-- The bytes of window that the peer may still use, or that wait for a reader.
abbrev pub in_use : Channel → ℕ
in_use c = c.my_window + length (contents c.pending) + length (contents c.ext_pending)

accept_data_lem :
    (extended : ℕ) (input : Bytes) (c : Channel)
    → input ≢ []
    → length input < 2 ^ 32
    → length input ≤ c.max_incoming_payload
    → length input ≤ c.my_window
    → accept_data extended (length input) input c
      ≡ (none, deliver extended input (record c { my_window = c.my_window - length input }))
unfolding accept_data
accept_data_lem extended [] c ne small fits window = absurd (ne refl)
accept_data_lem extended (b ∷ bs) c ne small fits window = ground arith

extended_packet :
    (a b c d e f g h i j k l : ℕ) (input : Bytes) (ch : Channel)
    → handle_data (95 ∷ a ∷ b ∷ c ∷ d ∷ e ∷ f ∷ g ∷ h ∷ i ∷ j ∷ k ∷ l ∷ input) ch
      ≡ accept_data (be32 e f g h) (be32 i j k l) input ch
unfolding handle_data
extended_packet a b c d e f g h i j k l input ch = ground arith

plain_packet :
    (a b c d e f g h : ℕ) (input : Bytes) (ch : Channel)
    → handle_data (94 ∷ a ∷ b ∷ c ∷ d ∷ e ∷ f ∷ g ∷ h ∷ input) ch
      ≡ accept_data 0 (be32 e f g h) input ch
unfolding handle_data
plain_packet a b c d e f g h input ch = ground arith

handle_data-deliver :
    (id code : ℕ) (input : Bytes) (c : Channel)
    → id < 2 ^ 32
    → code < 2 ^ 32
    → input ≢ []
    → length input < 2 ^ 32
    → length input ≤ c.max_incoming_payload
    → length input ≤ c.my_window
    → handle_data (data_packet id code input) c
      ≡ (none, deliver code input (record c { my_window = c.my_window - length input }))
unfolding data_packet
handle_data-deliver id code input c hi hc ne small fits window = elim (dec_lt 0 code) [
  | yes p ↦
      ap (λ q. handle_data q c) (if_true _ _ (lt→ltb 0 code p))
      ∙ extended_packet _ _ _ _ _ _ _ _ _ _ _ _ input c
      ∙ rw (be32-bytes code hc, be32-bytes (length input) small)
          (accept_data_lem code input c ne small fits window)
  | no p ↦
      let e : 0 ≡ code = omega arith in
      ap (λ q. handle_data q c) (if_false {b = ltb 0 code} _ _ (ground arith))
      ∙ plain_packet _ _ _ _ _ _ _ _ input c
      ∙ rw (be32-bytes (length input) small, ← e) (accept_data_lem 0 input c ne small fits window)
]

-- What a channel has of each stream when `input` has come with an extended code.
abbrev pub HasTaken : ℕ → Bytes → Channel → Channel → Type 0
HasTaken code input c c' =
    (contents c'.pending ≡ (if code == 0 then contents c.pending ++ input else contents c.pending))
    × (contents c'.ext_pending
        ≡ (if code == 1 then contents c.ext_pending ++ input else contents c.ext_pending))
    × (c'.my_window ≡ c.my_window - length input)

deliver-HasTaken :
    (code : ℕ) (input : Bytes) (c : Channel)
    → HasTaken code input c
        (deliver code input (record c { my_window = c.my_window - length input }))
deliver-HasTaken code input c =
    ground (arith, contents-write input c.pending, contents-write input c.ext_pending)

-- A packet that the peer's WriteExtended laid out, with a payload that is not empty, within the
-- payload limit and within the window, is taken with no error, and its payload is taken off the
-- window. With code 0 the payload stands behind what waits in the plain buffer, with code 1 behind
-- what waits in the extended one; the other buffer has what it had. With a code above 1 the payload
-- is thrown away.
pub handle_data-data_packet :
    (id code : ℕ) (input : Bytes) (c : Channel)
    → id < 2 ^ 32
    → code < 2 ^ 32
    → input ≢ []
    → length input < 2 ^ 32
    → length input ≤ c.max_incoming_payload
    → length input ≤ c.my_window
    → ((handle_data (data_packet id code input) c).0 ≡ none)
      × HasTaken code input c (handle_data (data_packet id code input) c).1
handle_data-data_packet id code input c hi hc ne small fits window =
    rw (handle_data-deliver id code input c hi hc ne small fits window)
      (refl, deliver-HasTaken code input c)

in_use-deliver :
    (extended : ℕ) (input : Bytes) (c : Channel)
    → in_use (deliver extended input c) ≤ in_use c + length input
in_use-deliver extended input c = ground (
  arith,
  ap length (contents-write input c.pending),
  ap length (contents-write input c.ext_pending),
  length-append (contents c.pending) input,
  length-append (contents c.ext_pending) input,
)

in_use-accept_data :
    (extended len : ℕ) (input : Bytes) (c : Channel)
    → length input < 2 ^ 32
    → in_use (accept_data extended len input c).1 ≤ in_use c
unfolding accept_data
in_use-accept_data extended len input c small =
    ground (arith, in_use-deliver extended input (record c { my_window = c.my_window - len }))

-- Nothing that arrives makes more window than there was: data only moves it from the window to a
-- buffer. Packets are under 4 GiB, as the transport's limit has it.
pub in_use-handle_data :
    (packet : Bytes) (c : Channel)
    → length packet < 2 ^ 32
    → in_use (handle_data packet c).1 ≤ in_use c
unfolding handle_data
in_use-handle_data [] c small = omega arith
in_use-handle_data (t ∷ rest) c small = ground (
  arith,
  length-drop 13 (t ∷ rest),
  length-drop 9 (t ∷ rest),
  in_use-accept_data (be32_at 5 (t ∷ rest)) (be32_at 9 (t ∷ rest)) (drop 13 (t ∷ rest)) c,
  in_use-accept_data 0 (be32_at 5 (t ∷ rest)) (drop 9 (t ∷ rest)) c,
)
