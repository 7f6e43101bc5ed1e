-- ===== src/Transport/Keys.antt =====
-- Key derivation of transport.go: generateKeyMaterial, generateKeys, the choice that newPacketCipher
-- makes, and the directions of the two sides; with cipherModes of cipher.go and macModes of mac.go.
use xcryptossh.Prelude.{
  ℕ, zero, suc, ◌-◌, ◌<◌, ◌≡◌, List, [], ◌∷◌, ◌++◌, Option, none, some, Bytes, Bool, true, false,
  ◌==◌, if◌then◌else◌, length, take, Result, ok, err, codes, bytes_eq,
}
use xcryptossh.Errors.{Error}
use xcryptossh.Negotiate.{DirectionAlgorithms, Algorithms}

-- crypto.Hash: the sum of what was written since Reset, of a fixed size that is not 0.
pub record Hash : Type 0 where
  pub sum : Bytes → Bytes
  pub size : ℕ
  pub length-sum : (bs : Bytes) → length (sum bs) ≡ size
  pub not_empty : 0 < size

pub record KexResult : Type 0 where
  pub h : Bytes
  pub k : Bytes
  pub hash : Hash
  pub session_id : Bytes

abbrev pub seed : Bytes → Bytes → KexResult → Bytes
seed [] tag r = tag ++ r.session_id
seed (d ∷ ds) tag r = d ∷ ds

abbrev pub digest : Bytes → Bytes → KexResult → Bytes
digest so_far tag r = r.hash.sum (r.k ++ (r.h ++ seed so_far tag r))

-- The loop of generateKeyMaterial, with `n` bytes to go; a round fills in a digest or the rest.
unfoldable pub material_loop : ℕ → ℕ → Bytes → Bytes → KexResult → Bytes
material_loop zero n so_far tag r = []
material_loop (suc fuel) n so_far tag r =
    let d : Bytes = digest so_far tag r in
    let more = material_loop fuel (n - length d) (so_far ++ d) tag r in
    if n == 0 then [] else take n d ++ more

-- As many rounds as there are bytes are enough.
unfoldable pub generate_key_material : ℕ → Bytes → KexResult → Bytes
unfolding material_loop
generate_key_material n tag r = material_loop n n [] tag r

pub record Direction : Type 0 where
  pub iv_tag : Bytes
  pub key_tag : Bytes
  pub mac_key_tag : Bytes

abbrev pub server_keys : Direction
server_keys = record { iv_tag = codes "B"; key_tag = codes "D"; mac_key_tag = codes "F" }

abbrev pub client_keys : Direction
client_keys = record { iv_tag = codes "A"; key_tag = codes "C"; mac_key_tag = codes "E" }

-- The columns keySize and ivSize of cipherModes.
pub record CipherMode : Type 0 where
  pub key_size : ℕ
  pub iv_size : ℕ
  pub skip : ℕ

abbrev pub sizes : ℕ → ℕ → ℕ → CipherMode
sizes key iv skip = record { key_size = key; iv_size = iv; skip = skip }

unfoldable pub lookup_mode {ℓ} : {A : Type ℓ} → Bytes → List (Bytes × A) → Option A
lookup_mode name [] = none
lookup_mode name ((n, a) ∷ rest) = if bytes_eq name n then some a else lookup_mode name rest

abbrev pub cipher_mode_table : List (Bytes × CipherMode)
cipher_mode_table =
    (codes "aes128-ctr", sizes 16 16 0)
    ∷ (codes "aes192-ctr", sizes 24 16 0)
    ∷ (codes "aes256-ctr", sizes 32 16 0)
    ∷ (codes "arcfour128", sizes 16 0 1536)
    ∷ (codes "arcfour256", sizes 32 0 1536)
    ∷ (codes "arcfour", sizes 16 0 0)
    ∷ (codes "aes128-gcm@openssh.com", sizes 16 12 0)
    ∷ (codes "aes128-cbc", sizes 16 16 0)
    ∷ (codes "3des-cbc", sizes 24 8 0)
    ∷ []

-- macMode: the key's size, whether it is encrypt-then-MAC, the hash, and the size of a sum where it
-- is truncated.
pub data MacHash : Type 0 where
  sha1 sha256 : MacHash

pub record MacMode : Type 0 where
  pub key_size : ℕ
  pub etm : Bool
  pub hash : MacHash
  pub truncated : Option ℕ

abbrev pub mac_mode : ℕ → Bool → MacHash → Option ℕ → MacMode
mac_mode key etm hash truncated = record {
  key_size = key;
  etm = etm;
  hash = hash;
  truncated = truncated;
}

abbrev pub mac_mode_table : List (Bytes × MacMode)
mac_mode_table =
    (codes "hmac-sha2-256-etm@openssh.com", mac_mode 32 true sha256 none)
    ∷ (codes "hmac-sha2-256", mac_mode 32 false sha256 none)
    ∷ (codes "hmac-sha1", mac_mode 20 false sha1 none)
    ∷ (codes "hmac-sha1-96", mac_mode 20 false sha1 (some 12))
    ∷ []

pub record Keys : Type 0 where
  pub iv : Bytes
  pub key : Bytes
  pub mac_key : Bytes

unfoldable pub generate_keys : Direction → CipherMode → MacMode → KexResult → Keys
unfolding generate_key_material
generate_keys d cipher mac r = record {
  iv = generate_key_material cipher.iv_size d.iv_tag r;
  key = generate_key_material cipher.key_size d.key_tag r;
  mac_key = generate_key_material mac.key_size d.mac_key_tag r;
}

-- What newPacketCipher builds a cipher of: the constructors of cipher.go are parameters to it.
pub data CipherSpec : Type 0 where
  gcm : Keys → CipherSpec
  aes_cbc : Keys → MacMode → CipherSpec
  triple_des_cbc : Keys → MacMode → CipherSpec
  stream : (name : Bytes) → CipherMode → Keys → MacMode → CipherSpec

abbrev pub choose : Bytes → CipherMode → Keys → MacMode → CipherSpec
choose name mode keys mac =
    if bytes_eq name (codes "aes128-gcm@openssh.com")
    then gcm keys
    else if bytes_eq name (codes "aes128-cbc")
    then aes_cbc keys mac
    else if bytes_eq name (codes "3des-cbc")
    then triple_des_cbc keys mac
    else stream name mode keys mac

-- A name that a table lacks is a nil pointer in the code, which panics.
abbrev pub both :
    Option CipherMode
    → Option MacMode
    → (CipherMode → MacMode → CipherSpec)
    → Result Error CipherSpec
both (some c) (some m) f = ok (f c m)
both _ _ f = err Error.nil_pointer

unfoldable pub new_packet_cipher :
    Direction → DirectionAlgorithms → KexResult → Result Error CipherSpec
unfolding lookup_mode generate_keys bytes_eq
new_packet_cipher d algs r =
    both (lookup_mode algs.cipher cipher_mode_table) (lookup_mode algs.mac mac_mode_table)
      λ c m. choose algs.cipher c (generate_keys d c m r) m

-- The directions that newTransport gives the reader and the writer.
pub record Directions : Type 0 where
  pub reader : Direction
  pub writer : Direction

abbrev pub directions : Bool → Directions
directions true = record { reader = server_keys; writer = client_keys }
directions false = record { reader = client_keys; writer = server_keys }

-- The first error counts.
abbrev pub in_order :
    Result Error CipherSpec → Result Error CipherSpec → Result Error (CipherSpec × CipherSpec)
in_order (err e) w = err e
in_order (ok r) (err e) = err e
in_order (ok r) (ok w) = ok (r, w)

-- prepareKeyChange: the next ciphers of the reader and of the writer.
unfoldable pub prepare_key_change :
    Bool → Algorithms → KexResult → Result Error (CipherSpec × CipherSpec)
prepare_key_change is_client algs r =
    in_order (new_packet_cipher (directions is_client).reader algs.r r)
      (new_packet_cipher (directions is_client).writer algs.w r)
