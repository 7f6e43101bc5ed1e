-- ===== src/Transport.antt =====
-- The transport of transport.go: connectionState with its sequence number and its pending key
-- change, and the loop of transport.readPacket. `Transport.Keys` derives the keys.
pub mod Keys
pub mod Material
pub mod Ciphers
pub mod Sync
pub mod Directions
use xcryptossh.Prelude.{
  ℕ, zero, suc, ◌+◌, ◌%◌, ◌^◌, ◌<◌, ◌≡◌, List, [], ◌∷◌, ◌++◌, Option, none, some, Bytes, Bool, true,
  false, ◌==◌, ◌||◌, if◌then◌else◌, length, Result, ok, err, ◌>>=◌,
}
use xcryptossh.Errors.{Error}
use xcryptossh.Messages.{Message, disconnect}
use xcryptossh.Messages.Decode.{decode}

-- The interface packetCipher. A cipher with its keys and its place in the key stream is a `State`.
-- What one side has sealed the other side opens, as long as the packet is `Sendable`; and reading a
-- packet takes bytes off the input.
pub record PacketCipher : Type 1 where
  pub State : Type 0
  pub Sendable : Bytes → Type 0
  pub seal : State → ℕ → Bytes → Bytes → Result Error (Bytes × State)
  pub unseal : State → ℕ → Bytes → Result Error (Bytes × Bytes × State)
  pub unseal-seal :
      (s s' : State) (seq : ℕ) (rand packet out rest : Bytes)
      → Sendable packet
      → seal s seq rand packet ≡ ok (out, s')
      → unseal s seq (out ++ rest) ≡ ok (packet, rest, s')
  pub unseal_shortens :
      (s s' : State) (seq : ℕ) (input packet rest : Bytes)
      → unseal s seq input ≡ ok (packet, rest, s')
      → length rest < length input

abbrev pub msg_disconnect : ℕ
msg_disconnect = 1

abbrev pub msg_ignore : ℕ
msg_ignore = 2

abbrev pub msg_debug : ℕ
msg_debug = 4

abbrev pub msg_new_keys : ℕ
msg_new_keys = 21

abbrev pub is_type : ℕ → Bytes → Bool
is_type t [] = false
is_type t (b ∷ bs) = b == t

-- The error that a disconnect message becomes.
abbrev pub disconnect_error : Result Error Message → Error
disconnect_error (ok (disconnect reason message language)) = Error.disconnected reason message
disconnect_error (ok m) = Error.bad_fields
disconnect_error (err e) = e

module _ (c : PacketCipher) where
  open c use {State, seal, unseal}

  -- `pending` is what is queued in pendingKeyChange.
  pub record ConnState : Type 0 where
    pub cipher : State
    pub seq_num : ℕ
    pub pending : List State

  -- The receive of a pending cipher, or the default case of the select with the error `e`.
  abbrev pub change_keys : Error → List State → ConnState → Result Error ConnState
  change_keys e [] s = err e
  change_keys e (k ∷ ks) s = ok (record s { cipher = k; pending = ks })

  abbrev pub next_seq : State → ConnState → ConnState
  next_seq k s = record s { cipher = k; seq_num = (s.seq_num + 1) % 2 ^ 32 }

  -- connectionState.writePacket: what goes out, and the new state. Sending newKeys with no cipher
  -- pending panics.
  unfoldable pub write_packet : Bytes → Bytes → ConnState → Result Error (Bytes × ConnState)
  write_packet rand packet s = do
    (out, k) ← seal s.cipher s.seq_num rand packet
    let s' = next_seq k s
    s'' ←
        if is_type msg_new_keys packet
        then change_keys Error.no_key_material s'.pending s'
        else ok s'
    ok (out, s'')

  -- What connectionState.readPacket does with a packet that it has opened.
  unfoldable pub interpret : Bytes → ConnState → Result Error ConnState
  interpret [] s = err Error.zero_length_packet
  interpret (t ∷ body) s =
      if t == msg_new_keys
      then change_keys Error.bogus_new_keys s.pending s
      else if t == msg_disconnect
      then err (disconnect_error (decode (t ∷ body)))
      else ok s

  unfoldable pub read_packet : Bytes → ConnState → Result Error (Bytes × Bytes × ConnState)
  unfolding interpret
  read_packet input s = do
    (packet, rest, k) ← unseal s.cipher s.seq_num input
    s' ← interpret packet (next_seq k s)
    ok (packet, rest, s')

  -- The loop of transport.readPacket; `none`: the fuel ran out.
  unfoldable pub read_loop :
      ℕ → Bytes → ConnState → Option (Result Error (Bytes × Bytes × ConnState))
  read_loop zero input s = none
  read_loop (suc fuel) input s = elim (read_packet input s) [
    | err e ↦ some (err e)
    | ok (packet, rest, s') ↦
        let more = read_loop fuel rest s' in
        if is_type msg_ignore packet || is_type msg_debug packet
        then more
        else some (ok (packet, rest, s'))
  ]

  -- A round takes at least a byte off the input.
  unfoldable pub read : Bytes → ConnState → Option (Result Error (Bytes × Bytes × ConnState))
  unfolding read_loop
  read input s = read_loop (suc (length input)) input s
