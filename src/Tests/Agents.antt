-- ===== src/Tests/Agents.antt =====
-- A keyring with three keys, two of them for one public key.
use xcryptossh.Prelude.{
  ℕ, ◌≡◌, ◌≢◌, ◌↔◌, refl, ap, List, [], ◌∷◌, Option, none, some, Bytes, true, false, Result, ok,
  codes, bytes_eq, arith,
}
use xcryptossh.Agent.{PrivKey, Keyring, expire_keys, has_expired, unlock}
use xcryptossh.Agent.Expiry.{Among, expire_keys_iff}
use xcryptossh.Agent.Lock.{
  Call, call_remove_all, call_unlock, call_lock, apply, apply_all, unlock-lock,
}

abbrev key : ℕ → Bytes → Option ℕ → PrivKey ℕ
key n blob expire = record {
  signer = n;
  format = codes "ssh-rsa";
  blob = blob;
  comment = [];
  expire = expire;
}

abbrev three_keys : List (PrivKey ℕ)
three_keys = key 1 (codes "A") (some 5) ∷ key 2 (codes "B") none ∷ key 3 (codes "A") none ∷ []

-- The key that has not expired goes with the one that has.
expire_three : expire_keys 9 three_keys ≡ key 2 (codes "B") none ∷ []
unfolding expire_keys
expire_three = refl

expire_keys_iff_example : Among (expire_keys 9 three_keys) (key 2 (codes "B") none) ↔ (
    Among three_keys (key 2 (codes "B") none)
    × ((e : PrivKey ℕ) → Among three_keys e → has_expired 9 e.expire ≡ true → (codes "B") ≢ e.blob))
expire_keys_iff_example = expire_keys_iff 9 three_keys (key 2 (codes "B") none)

abbrev ring : Keyring ℕ
ring = record { keys = three_keys; locked = false; passphrase = [] }

abbrev sign_with : ℕ → Bytes → Result ℕ Bytes
sign_with n input = ok (n ∷ input)

abbrev calls : List (Call ℕ ℕ)
calls = call_remove_all ∷ call_unlock (codes "q") ∷ call_lock (codes "q") ∷ []

not_p : codes "q" ≢ codes "p"
unfolding bytes_eq
not_p e = ground (arith, ap (λ (b : Bytes). bytes_eq b (codes "q")) e)

unlock-lock_example :
    (apply_all sign_with calls (apply sign_with (call_lock (codes "p")) ring)
      ≡ record ring { locked = true; passphrase = codes "p" })
    × (unlock {E = ℕ}
          (codes "p")
          (apply_all sign_with calls (apply sign_with (call_lock (codes "p")) ring))
        ≡ (none, record ring { locked = false; passphrase = [] }))
unlock-lock_example =
    unlock-lock sign_with calls ring (codes "p") refl (tt, ((λ e. not_p e), (tt, tt)))
