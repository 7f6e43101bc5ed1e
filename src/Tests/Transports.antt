-- ===== src/Tests/Transports.antt =====
-- The transport's theorems over the cipher of the other tests, at a change to a new MAC.
use xcryptossh.Prelude.{
  ◌%◌, ◌≡◌, ◌≢◌, refl, List, [], ◌∷◌, ◌++◌, none, Bytes, true, false, not, length, take, codes, map,
  arith, ok, err,
}
use xcryptossh.Negotiate.{Algorithms, DirectionAlgorithms}
use xcryptossh.Cipher.{mac_sealed, padding_length}
use xcryptossh.Cipher
use xcryptossh.Transport.{ConnState, read, write_packet}
use xcryptossh.Transport.Ciphers.{stream_cipher}
use xcryptossh.Transport.Sync.{write_all, read_all, read_all-write_all, read-ne-none}
use xcryptossh.Transport.Keys.{
  Hash, KexResult, generate_key_material, prepare_key_change, CipherSpec, new_packet_cipher,
  Direction, sizes, generate_keys, mac_mode, sha1, server_keys, client_keys,
}
use xcryptossh.Transport.Material.{key_stream, generate_key_material_lem}
use xcryptossh.Transport.Directions.{prepare_key_change_agree}
use xcryptossh.Tests.Ciphers.{stream, one_byte, ten, total, scramble, later}

abbrev two_bytes : Hash
two_bytes = record {
  sum = λ bs. total bs ∷ length bs % 256 ∷ [];
  size = 2;
  length-sum = λ bs. refl;
  not_empty = omega arith;
}

abbrev exchanged_once : KexResult
exchanged_once = record { h = 7 ∷ []; k = 9 ∷ 8 ∷ []; hash = two_bytes; session_id = 7 ∷ [] }

generate_key_material_lem_example :
    (generate_key_material 5 (codes "A") exchanged_once
      ≡ take 5 (key_stream 5 (codes "A") exchanged_once))
    × (length (generate_key_material 5 (codes "A") exchanged_once) ≡ 5)
generate_key_material_lem_example = generate_key_material_lem 5 (codes "A") exchanged_once

abbrev one_way : DirectionAlgorithms
one_way = record {
  cipher = codes "aes128-ctr";
  mac = codes "hmac-sha1";
  compression = codes "none";
}

abbrev both_ways : Algorithms
both_ways = record { kex = codes "x"; host_key = codes "y"; w = one_way; r = one_way }

abbrev keyed : ConnState (stream_cipher stream)
keyed = record {
  cipher = (mac_sealed one_byte, 0);
  seq_num = 3;
  pending = (mac_sealed one_byte, 1) ∷ [];
}

read-ne-none_example : read (stream_cipher stream) (1 ∷ 2 ∷ 3 ∷ []) keyed ≢ none
read-ne-none_example = read-ne-none (stream_cipher stream) (1 ∷ 2 ∷ 3 ∷ []) keyed

-- A packet, a change of keys and another packet, with their padding.
abbrev over_a_change : List (Bytes × Bytes)
over_a_change =
    (ten ++ ten, 94 ∷ 0 ∷ 1 ∷ []) ∷ (ten ++ ten, 21 ∷ []) ∷ (ten ++ ten, 95 ∷ 1 ∷ []) ∷ []

abbrev sent : Bytes × ConnState (stream_cipher stream)
sent = elim (write_all (stream_cipher stream) over_a_change keyed) [
  | ok r ↦ r
  | err e ↦ ([], keyed)
]

over_a_change_sent : write_all (stream_cipher stream) over_a_change keyed ≡ ok sent
unfolding write_all write_packet Cipher.write_packet padding_length scramble later
over_a_change_sent = refl

read_all-write_all_example :
    read_all (stream_cipher stream) 3 (sent.0 ++ (1 ∷ 2 ∷ [])) keyed
    ≡ ok (map (λ p. p.1) over_a_change, 1 ∷ 2 ∷ [], sent.1)
read_all-write_all_example =
    read_all-write_all (stream_cipher stream) over_a_change sent.0 (1 ∷ 2 ∷ []) keyed sent.1
      (
        (omega arith, (λ e. cc), refl),
        ((omega arith, (λ e. cc), refl), ((omega arith, (λ e. cc), refl), tt)),
      )
      over_a_change_sent

abbrev keys_of : Direction → CipherSpec
keys_of d =
    CipherSpec.stream (codes "aes128-ctr") (sizes 16 16 0)
      (generate_keys d (sizes 16 16 0) (mac_mode 20 false sha1 none) exchanged_once)
      (mac_mode 20 false sha1 none)

client_prepares :
    prepare_key_change true both_ways exchanged_once ≡ ok (keys_of server_keys, keys_of client_keys)
unfolding prepare_key_change new_packet_cipher
client_prepares = refl

prepare_key_change_agree_example :
    prepare_key_change (not true) both_ways exchanged_once
    ≡ ok (keys_of client_keys, keys_of server_keys)
prepare_key_change_agree_example =
    prepare_key_change_agree true both_ways exchanged_once (keys_of server_keys)
      (keys_of client_keys) refl client_prepares
