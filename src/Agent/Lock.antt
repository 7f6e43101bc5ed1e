-- ===== src/Agent/Lock.antt =====
-- The lock of agent/keyring.go over a run of calls.
use xcryptossh.Prelude.{
  ℕ, ◌≡◌, ◌≢◌, refl, ap, List, [], ◌∷◌, Option, none, Bytes, true, false, Result, ok, err, All,
  ◌&&◌, ◌==◌, bytes_eq, bytes_eq→eq, bytes_eq_refl, length, arith, if_true, if_false, Bool-cases,
  inl, inr, ◌∙◌, ==_refl,
}
use xcryptossh.Agent.{
  Keyring, Key, AgentError, remove_all_keys, remove, lock, unlock, list, add, sign, signers,
}

-- A call of one of the keyring's methods, at the time that it is given.
pub data Call (Signer E : Type 0) : Type 0 where
  call_remove_all : Call Signer E
  call_remove : Bytes → Call Signer E
  call_lock : Bytes → Call Signer E
  call_unlock : Bytes → Call Signer E
  call_list : ℕ → Call Signer E
  call_add : ℕ → Result E (Signer × Key) → ℕ → Call Signer E
  call_sign : ℕ → Bytes → Bytes → Call Signer E
  call_signers : ℕ → Call Signer E

module _ {Signer E Sig : Type 0} (sign_with : Signer → Bytes → Result E Sig) where
  unfoldable pub apply : Call Signer E → Keyring Signer → Keyring Signer
  unfolding remove_all_keys remove lock unlock list add sign signers
  apply call_remove_all r = (remove_all_keys {E = E} r).1
  apply (call_remove want) r = (remove {E = E} want r).1
  apply (call_lock passphrase) r = (lock {E = E} passphrase r).1
  apply (call_unlock passphrase) r = (unlock {E = E} passphrase r).1
  apply (call_list now) r = (list now r).1
  apply (call_add now made lifetime) r = (add now made lifetime r).1
  apply (call_sign now wanted input) r = (sign sign_with now wanted input r).1
  apply (call_signers now) r = (signers {E = E} now r).1

  unfoldable pub apply_all : List (Call Signer E) → Keyring Signer → Keyring Signer
  unfolding apply
  apply_all [] r = r
  apply_all (c ∷ cs) r = apply_all cs (apply c r)

  -- Not the key to a lock with this passphrase.
  abbrev pub KeepsLock : Bytes → Call Signer E → Type 0
  KeepsLock secret (call_unlock passphrase) = passphrase ≢ secret
  KeepsLock secret _ = Unit {0}

  apply-locked :
      (c : Call Signer E) (r : Keyring Signer)
      → r.locked ≡ true
      → KeepsLock r.passphrase c
      → apply c r ≡ r
  unfolding apply
  apply-locked call_remove_all r e k = ground arith
  apply-locked (call_remove want) r e k = ground arith
  apply-locked (call_lock passphrase) r e k = ground arith
  apply-locked (call_unlock passphrase) r e k =
      elim (Bool-cases (bytes_eq passphrase r.passphrase)) [
        | inl same ↦ absurd (k (bytes_eq→eq _ _ same))
        | inr other ↦ ground arith
      ]
  apply-locked (call_list now) r e k = ground arith
  apply-locked (call_add now (ok m) lifetime) r e k = ground arith
  apply-locked (call_add now (err m) lifetime) r e k = ground arith
  apply-locked (call_sign now wanted input) r e k = ground arith
  apply-locked (call_signers now) r e k = ground arith

  stays-locked :
      (cs : List (Call Signer E)) (r : Keyring Signer)
      → r.locked ≡ true
      → All (KeepsLock r.passphrase) cs
      → apply_all cs r ≡ r
  unfolding apply_all
  stays-locked [] r e k = refl
  stays-locked (c ∷ cs) r e k = ap (apply_all cs) (apply-locked c r e k.0) ∙ stays-locked cs r e k.1

  -- A keyring that is locked keeps its keys over any run of calls, none of them an unlock with the
  -- passphrase; that unlock succeeds behind them, and the keys are those from before the lock.
  pub unlock-lock :
      (cs : List (Call Signer E)) (r : Keyring Signer) (secret : Bytes)
      → r.locked ≡ false
      → All (KeepsLock secret) cs
      → (apply_all cs (apply (call_lock secret) r)
          ≡ record r { locked = true; passphrase = secret })
        × (unlock {E = E} secret (apply_all cs (apply (call_lock secret) r))
            ≡ (none, record r { locked = false; passphrase = [] }))
  unfolding unlock
  unlock-lock cs r secret e k =
      let locked' : Keyring Signer = record r { locked = true; passphrase = secret } in
      let locks : apply (call_lock secret) r ≡ locked' =
        unfold apply in
        unfold lock in ap (λ (x : Option (AgentError E) × Keyring Signer). x.1) (if_false _ _ e) in
      let whole : apply_all cs (apply (call_lock secret) r) ≡ locked' =
        ap (apply_all cs) locks ∙ stays-locked cs locked' refl k in
      (
        whole,
        ap (unlock {E = E} secret) whole
            ∙ if_true {b = (length secret == length secret) && bytes_eq secret secret} _ _
                (ground (arith, ==_refl (length secret), bytes_eq_refl secret)),
      )
