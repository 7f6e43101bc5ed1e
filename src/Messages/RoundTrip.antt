-- ===== src/Messages/RoundTrip.antt =====
-- `decode` reads back every message.
use xcryptossh.Prelude.{
  ℕ, ◌<◌, ◌^◌, ◌≡◌, refl, List, [], ◌∷◌, Option, some, ok, All, length, arith, map, ap, true,
}
use xcryptossh.Wire.Structs.{Kind, Value, Struct, kind_of, marshal, unmarshal}
use xcryptossh.Wire.Structs.RoundTrip.{Fits, rest_last, unmarshal-marshal, marshal_tagged}
use xcryptossh.Messages.{
  Message, disconnect, service_request, service_accept, kex_init, kex_dh_init, kex_dh_reply,
  user_auth_request, user_auth_success, user_auth_failure, user_auth_pub_key_ok, global_request,
  global_request_success, global_request_failure, channel_open, channel_data, channel_open_confirm,
  channel_open_failure, window_adjust, channel_eof, channel_close, channel_request,
  channel_request_success, channel_request_failure, struct_of, encode,
}
use xcryptossh.Messages.Decode.{fill, case_of, decode, shape}

-- Numbers fit their fields, names are names, and a cookie has 16 bytes.
abbrev pub FitsCookie : Message → Type 0
FitsCookie (kex_init k) = length k.cookie ≡ 16
FitsCookie _ = Unit

abbrev pub FitsMessage : Message → Type 0
FitsMessage m = All Fits (struct_of m).values × FitsCookie m × (length (encode m) < 2 ^ 32)

abbrev tagged : ℕ → List Value → Struct
tagged tag vs = record { tags = tag ∷ []; values = vs }

decode_fill :
    (tag : ℕ) (vs : List Value) (ks : List Kind) (build : List Value → Option Message) {m : Message}
    → case_of tag ≡ some (fill ks build)
    → 0 < tag
    → map kind_of vs ≡ ks
    → build vs ≡ some m
    → rest_last vs ≡ true
    → All Fits vs
    → length (marshal (tagged tag vs)) < 2 ^ 32
    → decode (marshal (tagged tag vs)) ≡ ok m
unfolding decode
decode_fill tag vs ks build is_case pos kinds builds last fits small =
    let whole : unmarshal (shape tag (map kind_of vs)) (marshal (tagged tag vs))
        ≡ ok (tagged tag vs) =
      unmarshal-marshal (tagged tag vs) fits last small (λ e. cc (marshal_tagged tag vs))
        (pos, tt) in
    rw (marshal_tagged tag vs)
      (rw (is_case, decode) (rw (rw (marshal_tagged tag vs, kinds) at whole) (rw builds)))

decode_success : decode (marshal (tagged 52 [])) ≡ ok user_auth_success
unfolding decode
decode_success = rw (marshal_tagged 52 [])

abbrev kex_init_tail : List Kind
kex_init_tail =
    Kind.name_list ∷ Kind.name_list ∷ Kind.name_list ∷ Kind.name_list ∷ Kind.name_list
    ∷ Kind.name_list ∷ Kind.name_list ∷ Kind.name_list ∷ Kind.name_list ∷ Kind.name_list ∷ Kind.bool
    ∷ Kind.uint32 ∷ []

-- Every message is read back from its encoding, where its numbers fit their fields, its names are
-- not empty and have no comma, a cookie has 16 bytes, and the encoding is under 4 GiB: decode
-- picks the struct by the first byte and rebuilds each field.
pub decode-encode : (m : Message) → FitsMessage m → decode (encode m) ≡ ok m
unfolding encode case_of kind_of
decode-encode (disconnect r m l) h = decode_fill 1 _ _ _ refl (omega arith) refl refl refl h.0 h.2
decode-encode (service_request s) h = decode_fill 5 _ _ _ refl (omega arith) refl refl refl h.0 h.2
decode-encode (service_accept s) h = decode_fill 6 _ _ _ refl (omega arith) refl refl refl h.0 h.2
decode-encode (kex_init k) h =
    decode_fill 20 _ _ _ refl (omega arith) (ap (λ n. Kind.array n ∷ kex_init_tail) h.1) refl refl
      h.0 h.2
decode-encode (kex_dh_init x) h = decode_fill 30 _ _ _ refl (omega arith) refl refl refl h.0 h.2
decode-encode (kex_dh_reply k y s) h =
    decode_fill 31 _ _ _ refl (omega arith) refl refl refl h.0 h.2
decode-encode (user_auth_request u s m p) h =
    decode_fill 50 _ _ _ refl (omega arith) refl refl refl h.0 h.2
decode-encode user_auth_success h = decode_success
decode-encode (user_auth_failure ms p) h =
    decode_fill 51 _ _ _ refl (omega arith) refl refl refl h.0 h.2
decode-encode (user_auth_pub_key_ok a k) h =
    decode_fill 60 _ _ _ refl (omega arith) refl refl refl h.0 h.2
decode-encode (global_request t w d) h =
    decode_fill 80 _ _ _ refl (omega arith) refl refl refl h.0 h.2
decode-encode (global_request_success d) h =
    decode_fill 81 _ _ _ refl (omega arith) refl refl refl h.0 h.2
decode-encode (global_request_failure d) h =
    decode_fill 82 _ _ _ refl (omega arith) refl refl refl h.0 h.2
decode-encode (channel_open t i w m d) h =
    decode_fill 90 _ _ _ refl (omega arith) refl refl refl h.0 h.2
decode-encode (channel_data i n d) h =
    decode_fill 94 _ _ _ refl (omega arith) refl refl refl h.0 h.2
decode-encode (channel_open_confirm i j w m d) h =
    decode_fill 91 _ _ _ refl (omega arith) refl refl refl h.0 h.2
decode-encode (channel_open_failure i r m l) h =
    decode_fill 92 _ _ _ refl (omega arith) refl refl refl h.0 h.2
decode-encode (window_adjust i n) h = decode_fill 93 _ _ _ refl (omega arith) refl refl refl h.0 h.2
decode-encode (channel_eof i) h = decode_fill 96 _ _ _ refl (omega arith) refl refl refl h.0 h.2
decode-encode (channel_close i) h = decode_fill 97 _ _ _ refl (omega arith) refl refl refl h.0 h.2
decode-encode (channel_request i r w d) h =
    decode_fill 98 _ _ _ refl (omega arith) refl refl refl h.0 h.2
decode-encode (channel_request_success i) h =
    decode_fill 99 _ _ _ refl (omega arith) refl refl refl h.0 h.2
decode-encode (channel_request_failure i) h =
    decode_fill 100 _ _ _ refl (omega arith) refl refl refl h.0 h.2
