-- ===== src/Tests/Wires.antt =====
-- The wire format and the messages of messages.go, at concrete values.
use xcryptossh.Prelude.{
  ◌*◌, ◌^◌, ◌≡◌, refl, List, [], ◌∷◌, ◌++◌, some, ok, Bytes, true, arith, codes,
}
use xcryptossh.Prelude.Int.{negsuc}
use xcryptossh.Wire.Strings.{append_string, join, append_name_list}
use xcryptossh.Wire.BigInts.{marshal_int, parse_int, int_content, be_digits, pad_negative}
use xcryptossh.Wire.BigInts.RoundTrip.{parse_int-marshal_int}
use xcryptossh.Wire.Structs.{
  Value, Struct, type_of, marshal, unmarshal, marshal_field, marshal_fields, first_tag,
}
use xcryptossh.Wire.Structs.RoundTrip.{unmarshal-marshal}
use xcryptossh.Messages.{Message, channel_open, encode}
use xcryptossh.Messages.Decode.{decode}
use xcryptossh.Messages.RoundTrip.{decode-encode}
use xcryptossh.Version.{exchange_versions, has_junk, all_taken}
use xcryptossh.Version.Laws.{exchange_versions_lem}

abbrev session_open : Message
session_open = channel_open (codes "session") 7 (64 * 2 ^ 15) (2 ^ 15) (1 ∷ 2 ∷ [])

decode-encode_example : decode (encode session_open) ≡ ok session_open
unfolding encode marshal marshal_fields marshal_field first_tag append_string
decode-encode_example =
    decode-encode session_open
      ((tt, (omega arith, (omega arith, (omega arith, (tt, tt))))), tt, omega arith)

abbrev two_fields : Struct
two_fields = record {
  tags = 51 ∷ [];
  values = Value.name_list (codes "publickey" ∷ codes "password" ∷ []) ∷ Value.bool true ∷ [];
}

unmarshal-marshal_example : unmarshal (type_of two_fields) (marshal two_fields) ≡ ok two_fields
unfolding marshal marshal_fields marshal_field first_tag append_string append_name_list join
unmarshal-marshal_example =
    unmarshal-marshal two_fields (ground arith, (tt, tt)) refl (omega arith) (λ e. cc)
      (omega arith, tt)

parse_int-marshal_int_example :
    parse_int (marshal_int (negsuc 128) ++ (9 ∷ [])) ≡ some (negsuc 128, 9 ∷ [])
unfolding int_content be_digits pad_negative
parse_int-marshal_int_example = parse_int-marshal_int (negsuc 128) (9 ∷ []) (omega arith)

-- -129 takes two bytes.
neg_129 : marshal_int (negsuc 128) ≡ 0 ∷ 0 ∷ 0 ∷ 2 ∷ 0xff ∷ 0x7f ∷ []
unfolding marshal_int int_content be_digits
neg_129 = refl

abbrev two_macs : List Bytes
two_macs = codes "hmac-sha1" ∷ codes "hmac-sha2-256" ∷ []

exchange_versions_lem_example :
    ((exchange_versions all_taken
        (codes "SSH-2.0-Go")
        ((exchange_versions all_taken (codes "SSH-2.0-x") []).0 ++ (2 ∷ []))).1
      ≡ ok (codes "SSH-2.0-x", 2 ∷ []))
    × ((exchange_versions all_taken
          (codes "SSH-2.0-x")
          ((exchange_versions all_taken (codes "SSH-2.0-Go") []).0 ++ (1 ∷ []))).1
        ≡ ok (codes "SSH-2.0-Go", 1 ∷ []))
unfolding has_junk
exchange_versions_lem_example =
    exchange_versions_lem (codes "SSH-2.0-Go") (codes "SSH-2.0-x") (1 ∷ []) (2 ∷ []) refl refl
      (omega arith) (omega arith)
