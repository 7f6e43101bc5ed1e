-- ===== src/Agent.antt =====
-- The keyring of agent/keyring.go: its keys, its lock and its operations. `Agent.Removal` and
-- `Agent.Expiry` are about the loops that take keys out.
pub mod Removal
pub mod Expiry
pub mod Lock
use xcryptossh.Prelude.{
  ℕ, ◌+◌, ◌*◌, ◌^◌, zero, suc, List, [], ◌∷◌, ◌++◌, Option, none, some, Bytes, Bool, true, false,
  ltb, if◌then◌else◌, length, get_elem?, set, take, map, Result, ok, err, bytes_eq, not, ◌&&◌, ◌==◌,
}

-- A privKey. Of its signer's public key, `format` is Type() and `blob` Marshal().
pub record PrivKey (Signer : Type 0) : Type 0 where
  pub signer : Signer
  pub format : Bytes
  pub blob : Bytes
  pub comment : Bytes
  pub expire : Option ℕ

pub record Keyring (Signer : Type 0) : Type 0 where
  pub keys : List (PrivKey Signer)
  pub locked : Bool
  pub passphrase : Bytes

-- A Key of agent/client.go.
pub record Key : Type 0 where
  pub format : Bytes
  pub blob : Bytes
  pub comment : Bytes

-- `E` is what making a signer or signing fails with.
pub data AgentError (E : Type 0) : Type 0 where
  agent_locked key_not_found not_locked bad_passphrase : AgentError E
  of_signer : E → AgentError E

-- The array under the slice `keys`, and the slice's length.
pub record Slice (Signer : Type 0) : Type 0 where
  pub cells : List (PrivKey Signer)
  pub len : ℕ

-- `k.expire != nil && time.Now().After(*k.expire)`
abbrev pub has_expired : ℕ → Option ℕ → Bool
has_expired now none = false
has_expired now (some t) = ltb t now

-- When a key that is added at `now`, in nanoseconds, expires.
abbrev pub expiry : ℕ → ℕ → Option ℕ
expiry now lifetime_secs =
    if ltb 0 lifetime_secs then some (now + lifetime_secs * 1000000000) else none

abbrev pub signed : {E Sig : Type 0} → Result E Sig → Result (AgentError E) Sig
signed (ok sig) = ok sig
signed (err e) = err (of_signer e)

module _ {Signer : Type 0} where
  abbrev pub new_keyring : Keyring Signer
  new_keyring = record { keys = []; locked = false; passphrase = [] }

  abbrev pub is_key : Bytes → Option (PrivKey Signer) → Bool
  is_key want none = false
  is_key want (some k) = bytes_eq k.blob want

  -- `r.keys[i] = r.keys[len(r.keys)-1]`
  abbrev pub move_last : List (PrivKey Signer) → ℕ → Option (PrivKey Signer) → List (PrivKey Signer)
  move_last cells i none = cells
  move_last cells i (some k) = set cells i k

  -- The loop of removeLocked from index i, where the slice has `todo` more keys from there on. The
  -- flag is `found`.
  unfoldable pub remove_loop : Bytes → ℕ → ℕ → List (PrivKey Signer) → Bool → Slice Signer × Bool
  unfolding bytes_eq
  remove_loop want zero i cells found = (record { cells = cells; len = i }, found)
  remove_loop want (suc todo) i cells found = elim (is_key want (get_elem? cells i)) [
    | true ↦ remove_loop want todo i (move_last cells i (get_elem? cells (i + todo))) true
    | false ↦ remove_loop want todo (i + 1) cells found
  ]

  unfoldable pub remove_locked : Bytes → Slice Signer → Slice Signer × Bool
  unfolding remove_loop
  remove_locked want s = remove_loop want s.len 0 s.cells false

  -- A key that the loop of expireKeysLocked comes to.
  unfoldable pub expire_one : ℕ → Option (PrivKey Signer) → Slice Signer → Slice Signer
  unfolding remove_locked
  expire_one now none s = s
  expire_one now (some k) s = if has_expired now k.expire then (remove_locked k.blob s).0 else s

  -- The loop ranges over the slice as it was, with `todo` more of its cells from index i on: it
  -- reads what the array holds by then. `now` is the time while it runs.
  unfoldable pub expire_loop : ℕ → ℕ → ℕ → Slice Signer → Slice Signer
  unfolding expire_one
  expire_loop now zero i s = s
  expire_loop now (suc todo) i s =
      expire_loop now todo (i + 1) (expire_one now (get_elem? s.cells i) s)

  unfoldable pub expire_keys : ℕ → List (PrivKey Signer) → List (PrivKey Signer)
  unfolding expire_loop
  expire_keys now keys =
      let s = expire_loop now (length keys) 0 (record { cells = keys; len = length keys }) in
      take s.len s.cells

  unfoldable pub expire_keys_locked : ℕ → Keyring Signer → Keyring Signer
  unfolding expire_keys
  expire_keys_locked now r = record r { keys = expire_keys now r.keys }

  unfoldable pub find_key : Bytes → List (PrivKey Signer) → Option (PrivKey Signer)
  unfolding bytes_eq
  find_key want [] = none
  find_key want (k ∷ ks) =
      let later = find_key want ks in if bytes_eq k.blob want then some k else later

  abbrev pub listed_key : PrivKey Signer → Key
  listed_key k = record { format = k.format; blob = k.blob; comment = k.comment }

  -- `List`
  unfoldable pub list : ℕ → Keyring Signer → List Key × Keyring Signer
  unfolding expire_keys_locked
  list now r =
      let r' = expire_keys_locked now r in
      if r.locked then ([], r) else (map listed_key r'.keys, r')

module _ {Signer E : Type 0} where
  unfoldable pub remove_all_keys : Keyring Signer → Option (AgentError E) × Keyring Signer
  remove_all_keys r = if r.locked then (some agent_locked, r) else (none, record r { keys = [] })

  unfoldable pub remove : Bytes → Keyring Signer → Option (AgentError E) × Keyring Signer
  unfolding remove_locked
  remove want r =
      let (s, found) = remove_locked want (record { cells = r.keys; len = length r.keys }) in
      if r.locked
      then (some agent_locked, r)
      else (if found then none else some key_not_found, record r { keys = take s.len s.cells })

  unfoldable pub lock : Bytes → Keyring Signer → Option (AgentError E) × Keyring Signer
  lock passphrase r =
      if r.locked
      then (some agent_locked, r)
      else (none, record r { locked = true; passphrase = passphrase })

  -- The lengths, then subtle.ConstantTimeCompare.
  unfoldable pub unlock : Bytes → Keyring Signer → Option (AgentError E) × Keyring Signer
  unfolding bytes_eq
  unlock passphrase r =
      if r.locked
      then if (length passphrase == length r.passphrase) && bytes_eq passphrase r.passphrase
        then (none, record r { locked = false; passphrase = [] })
        else (some bad_passphrase, r)
      else (some not_locked, r)

  -- Add, with the signer that NewSignerFromKey and NewCertSigner made, or their error.
  unfoldable pub add :
      ℕ → Result E (Signer × Key) → ℕ → Keyring Signer → Option (AgentError E) × Keyring Signer
  add now (err e) lifetime_secs r =
      if r.locked then (some agent_locked, r) else (some (of_signer e), r)
  add now (ok (signer, key)) lifetime_secs r = if r.locked then (some agent_locked, r) else (
    none,
    record r {
      keys =
          r.keys
          ++ (record {
            signer = signer;
            format = key.format;
            blob = key.blob;
            comment = key.comment;
            expire = expiry now lifetime_secs;
          }
              ∷ []);
    },
  )

  -- Sign, by the signers' own `sign`.
  unfoldable pub sign :
      {Sig : Type 0}
      → (Signer → Bytes → Result E Sig)
      → ℕ
      → Bytes
      → Bytes
      → Keyring Signer
      → Result (AgentError E) Sig × Keyring Signer
  unfolding expire_keys_locked find_key
  sign sign_with now wanted input r =
      let r' = expire_keys_locked now r in
      if r.locked then (err agent_locked, r) else (
        elim (find_key wanted r'.keys) [
          | none ↦ err key_not_found
          | some k ↦ signed (sign_with k.signer input)
        ],
        r',
      )

  unfoldable pub signers : ℕ → Keyring Signer → Result (AgentError E) (List Signer) × Keyring Signer
  unfolding expire_keys_locked
  signers now r =
      let r' = expire_keys_locked now r in
      if r.locked
      then (err agent_locked, r)
      else (ok (map (λ (k : PrivKey Signer). k.signer) r'.keys), r')
