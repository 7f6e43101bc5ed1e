-- ===== src/Messages/Decode.antt =====
-- `decode` of messages.go: a struct type by the first byte, and the message made of its fields.
use xcryptossh.Prelude.{
  ℕ, List, [], ◌∷◌, Option, none, some, Bytes, ◌==◌, if◌then◌else◌, Result, ok, err, ◌>>=◌,
}
use xcryptossh.Errors.{Error}
use xcryptossh.Wire.Structs.{Kind, Value, StructType, unmarshal}
use xcryptossh.Messages.{
  Message, disconnect, service_request, service_accept, kex_init, kex_dh_init, kex_dh_reply,
  user_auth_request, user_auth_success, user_auth_failure, user_auth_pub_key_ok, global_request,
  global_request_success, global_request_failure, channel_open, channel_data, channel_open_confirm,
  channel_open_failure, window_adjust, channel_eof, channel_close, channel_request,
  channel_request_success, channel_request_failure,
}

abbrev pub shape : ℕ → List Kind → StructType
shape tag ks = record { tags = tag ∷ []; kinds = ks }

abbrev build_disconnect : List Value → Option Message
build_disconnect (Value.uint32 r ∷ Value.string m ∷ Value.string l ∷ []) = some (disconnect r m l)
build_disconnect _ = none

abbrev build_string : (Bytes → Message) → List Value → Option Message
build_string f (Value.string s ∷ []) = some (f s)
build_string f _ = none

abbrev pub build_kex_init : List Value → Option Message
build_kex_init
      (Value.array c
        ∷ Value.name_list n1
        ∷ Value.name_list n2
        ∷ Value.name_list n3
        ∷ Value.name_list n4
        ∷ Value.name_list n5
        ∷ Value.name_list n6
        ∷ Value.name_list n7
        ∷ Value.name_list n8
        ∷ Value.name_list n9
        ∷ Value.name_list n10
        ∷ Value.bool f
        ∷ Value.uint32 r
        ∷ []) =
    some (
      kex_init (record {
        cookie = c;
        kex_algos = n1;
        server_host_key_algos = n2;
        ciphers_client_server = n3;
        ciphers_server_client = n4;
        macs_client_server = n5;
        macs_server_client = n6;
        compression_client_server = n7;
        compression_server_client = n8;
        languages_client_server = n9;
        languages_server_client = n10;
        first_kex_follows = f;
        reserved = r;
      }))
build_kex_init _ = none

abbrev build_bytes : (Bytes → Message) → List Value → Option Message
build_bytes f (Value.rest s ∷ []) = some (f s)
build_bytes f _ = none

abbrev build_id : (ℕ → Message) → List Value → Option Message
build_id f (Value.uint32 i ∷ []) = some (f i)
build_id f _ = none

abbrev build_kex_dh_init : List Value → Option Message
build_kex_dh_init (Value.big_int x ∷ []) = some (kex_dh_init x)
build_kex_dh_init _ = none

abbrev build_kex_dh_reply : List Value → Option Message
build_kex_dh_reply (Value.bytes h ∷ Value.big_int y ∷ Value.bytes s ∷ []) =
    some (kex_dh_reply h y s)
build_kex_dh_reply _ = none

abbrev build_user_auth_request : List Value → Option Message
build_user_auth_request (Value.string u ∷ Value.string s ∷ Value.string m ∷ Value.rest p ∷ []) =
    some (user_auth_request u s m p)
build_user_auth_request _ = none

abbrev build_user_auth_failure : List Value → Option Message
build_user_auth_failure (Value.name_list ms ∷ Value.bool p ∷ []) = some (user_auth_failure ms p)
build_user_auth_failure _ = none

abbrev build_pub_key_ok : List Value → Option Message
build_pub_key_ok (Value.string a ∷ Value.bytes k ∷ []) = some (user_auth_pub_key_ok a k)
build_pub_key_ok _ = none

abbrev build_global_request : List Value → Option Message
build_global_request (Value.string t ∷ Value.bool w ∷ Value.rest d ∷ []) =
    some (global_request t w d)
build_global_request _ = none

abbrev build_channel_open : List Value → Option Message
build_channel_open
      (Value.string t ∷ Value.uint32 i ∷ Value.uint32 w ∷ Value.uint32 m ∷ Value.rest d ∷ []) =
    some (channel_open t i w m d)
build_channel_open _ = none

abbrev build_channel_data : List Value → Option Message
build_channel_data (Value.uint32 i ∷ Value.uint32 n ∷ Value.rest d ∷ []) = some (channel_data i n d)
build_channel_data _ = none

abbrev build_open_confirm : List Value → Option Message
build_open_confirm
      (Value.uint32 i ∷ Value.uint32 j ∷ Value.uint32 w ∷ Value.uint32 m ∷ Value.rest d ∷ []) =
    some (channel_open_confirm i j w m d)
build_open_confirm _ = none

abbrev build_open_failure : List Value → Option Message
build_open_failure (Value.uint32 i ∷ Value.uint32 r ∷ Value.string m ∷ Value.string l ∷ []) =
    some (channel_open_failure i r m l)
build_open_failure _ = none

abbrev build_window_adjust : List Value → Option Message
build_window_adjust (Value.uint32 i ∷ Value.uint32 n ∷ []) = some (window_adjust i n)
build_window_adjust _ = none

abbrev build_channel_request : List Value → Option Message
build_channel_request (Value.uint32 i ∷ Value.string r ∷ Value.bool w ∷ Value.rest d ∷ []) =
    some (channel_request i r w d)
build_channel_request _ = none

-- The case of `decode` for a message number: a message with nothing to fill, or a struct type and
-- the message made of its fields. `none` is the default case.
pub data Case : Type 0 where
  plain : Message → Case
  fill : List Kind → (List Value → Option Message) → Case

unfoldable pub case_of : ℕ → Option Case
case_of b =
    if b == 1
    then some (fill (Kind.uint32 ∷ Kind.string ∷ Kind.string ∷ []) build_disconnect)
    else if b == 5
    then some (fill (Kind.string ∷ []) (build_string service_request))
    else if b == 6
    then some (fill (Kind.string ∷ []) (build_string service_accept))
    else if b == 20
    then some (
        fill
          (Kind.array 16
            ∷ Kind.name_list
            ∷ Kind.name_list
            ∷ Kind.name_list
            ∷ Kind.name_list
            ∷ Kind.name_list
            ∷ Kind.name_list
            ∷ Kind.name_list
            ∷ Kind.name_list
            ∷ Kind.name_list
            ∷ Kind.name_list
            ∷ Kind.bool
            ∷ Kind.uint32
            ∷ [])
          build_kex_init)
    else if b == 30
    then some (fill (Kind.big_int ∷ []) build_kex_dh_init)
    else if b == 31
    then some (fill (Kind.bytes ∷ Kind.big_int ∷ Kind.bytes ∷ []) build_kex_dh_reply)
    else if b == 50
    then some
        (fill (Kind.string ∷ Kind.string ∷ Kind.string ∷ Kind.rest ∷ []) build_user_auth_request)
    else if b == 52
    then some (plain user_auth_success)
    else if b == 51
    then some (fill (Kind.name_list ∷ Kind.bool ∷ []) build_user_auth_failure)
    else if b == 60
    then some (fill (Kind.string ∷ Kind.bytes ∷ []) build_pub_key_ok)
    else if b == 80
    then some (fill (Kind.string ∷ Kind.bool ∷ Kind.rest ∷ []) build_global_request)
    else if b == 81
    then some (fill (Kind.rest ∷ []) (build_bytes global_request_success))
    else if b == 82
    then some (fill (Kind.rest ∷ []) (build_bytes global_request_failure))
    else if b == 90
    then some (
        fill (Kind.string ∷ Kind.uint32 ∷ Kind.uint32 ∷ Kind.uint32 ∷ Kind.rest ∷ [])
          build_channel_open)
    else if b == 94
    then some (fill (Kind.uint32 ∷ Kind.uint32 ∷ Kind.rest ∷ []) build_channel_data)
    else if b == 91
    then some (
        fill (Kind.uint32 ∷ Kind.uint32 ∷ Kind.uint32 ∷ Kind.uint32 ∷ Kind.rest ∷ [])
          build_open_confirm)
    else if b == 92
    then some (fill (Kind.uint32 ∷ Kind.uint32 ∷ Kind.string ∷ Kind.string ∷ []) build_open_failure)
    else if b == 93
    then some (fill (Kind.uint32 ∷ Kind.uint32 ∷ []) build_window_adjust)
    else if b == 96
    then some (fill (Kind.uint32 ∷ []) (build_id channel_eof))
    else if b == 97
    then some (fill (Kind.uint32 ∷ []) (build_id channel_close))
    else if b == 98
    then some (fill (Kind.uint32 ∷ Kind.string ∷ Kind.bool ∷ Kind.rest ∷ []) build_channel_request)
    else if b == 99
    then some (fill (Kind.uint32 ∷ []) (build_id channel_request_success))
    else if b == 100
    then some (fill (Kind.uint32 ∷ []) (build_id channel_request_failure))
    else none

-- `bad_fields` is no result of the code: Unmarshal fills the fields by their kinds.
abbrev pub made : Option Message → Result Error Message
made none = err Error.bad_fields
made (some m) = ok m

-- `packet[0]` of an empty packet panics; the callers hand over none.
unfoldable pub decode : Bytes → Result Error Message
unfolding case_of
decode [] = err Error.index_out_of_range
decode (b ∷ bs) = elim (case_of b) [
  | none ↦ err (Error.unexpected_message 0 b)
  | some (plain m) ↦ ok m
  | some (fill ks build) ↦ do s ← unmarshal (shape b ks) (b ∷ bs); made (build s.values)
]
