-- ===== src/Messages.antt =====
-- The message types of messages.go and their wire structs; `Messages.Decode` has decode.
pub mod Decode
pub mod RoundTrip
use xcryptossh.Prelude.{ℕ, List, [], ◌∷◌, Bytes, Bool}
use xcryptossh.Prelude.Int.{ℤ}
use xcryptossh.Wire.Structs.{Value, Struct, marshal}

pub record KexInit : Type 0 where
  pub cookie : Bytes
  pub kex_algos : List Bytes
  pub server_host_key_algos : List Bytes
  pub ciphers_client_server : List Bytes
  pub ciphers_server_client : List Bytes
  pub macs_client_server : List Bytes
  pub macs_server_client : List Bytes
  pub compression_client_server : List Bytes
  pub compression_server_client : List Bytes
  pub languages_client_server : List Bytes
  pub languages_server_client : List Bytes
  pub first_kex_follows : Bool
  pub reserved : ℕ

-- The messages that `decode` returns, with their fields in order.
pub data Message : Type 0 where
  disconnect : (reason : ℕ) (message language : Bytes) → Message
  service_request : (service : Bytes) → Message
  service_accept : (service : Bytes) → Message
  kex_init : KexInit → Message
  kex_dh_init : (x : ℤ) → Message
  kex_dh_reply : (host_key : Bytes) (y : ℤ) (signature : Bytes) → Message
  user_auth_request : (user service method payload : Bytes) → Message
  user_auth_success : Message
  user_auth_failure : (methods : List Bytes) (partial_success : Bool) → Message
  user_auth_pub_key_ok : (algo pub_key : Bytes) → Message
  global_request : (type' : Bytes) (want_reply : Bool) (data' : Bytes) → Message
  global_request_success : (data' : Bytes) → Message
  global_request_failure : (data' : Bytes) → Message
  channel_open :
      (chan_type : Bytes) (peers_id peers_window max_packet_size : ℕ) (type_specific : Bytes)
      → Message
  channel_data : (peers_id len : ℕ) (rest : Bytes) → Message
  channel_open_confirm :
      (peers_id my_id my_window max_packet_size : ℕ) (type_specific : Bytes) → Message
  channel_open_failure : (peers_id reason : ℕ) (message language : Bytes) → Message
  window_adjust : (peers_id additional_bytes : ℕ) → Message
  channel_eof : (peers_id : ℕ) → Message
  channel_close : (peers_id : ℕ) → Message
  channel_request :
      (peers_id : ℕ) (request : Bytes) (want_reply : Bool) (specific : Bytes) → Message
  channel_request_success : (peers_id : ℕ) → Message
  channel_request_failure : (peers_id : ℕ) → Message

abbrev wire : ℕ → List Value → Struct
wire tag vs = record { tags = tag ∷ []; values = vs }

abbrev kex_init_values : KexInit → List Value
kex_init_values k =
    Value.array k.cookie
    ∷ Value.name_list k.kex_algos
    ∷ Value.name_list k.server_host_key_algos
    ∷ Value.name_list k.ciphers_client_server
    ∷ Value.name_list k.ciphers_server_client
    ∷ Value.name_list k.macs_client_server
    ∷ Value.name_list k.macs_server_client
    ∷ Value.name_list k.compression_client_server
    ∷ Value.name_list k.compression_server_client
    ∷ Value.name_list k.languages_client_server
    ∷ Value.name_list k.languages_server_client
    ∷ Value.bool k.first_kex_follows
    ∷ Value.uint32 k.reserved
    ∷ []

-- The struct that Marshal is given. userAuthSuccessMsg has no fields: the server sends its
-- number alone.
abbrev pub struct_of : Message → Struct
struct_of (disconnect r m l) = wire 1 (Value.uint32 r ∷ Value.string m ∷ Value.string l ∷ [])
struct_of (service_request s) = wire 5 (Value.string s ∷ [])
struct_of (service_accept s) = wire 6 (Value.string s ∷ [])
struct_of (kex_init k) = wire 20 (kex_init_values k)
struct_of (kex_dh_init x) = wire 30 (Value.big_int x ∷ [])
struct_of (kex_dh_reply h y s) = wire 31 (Value.bytes h ∷ Value.big_int y ∷ Value.bytes s ∷ [])
struct_of (user_auth_request u s m p) =
    wire 50 (Value.string u ∷ Value.string s ∷ Value.string m ∷ Value.rest p ∷ [])
struct_of user_auth_success = wire 52 []
struct_of (user_auth_failure ms p) = wire 51 (Value.name_list ms ∷ Value.bool p ∷ [])
struct_of (user_auth_pub_key_ok a k) = wire 60 (Value.string a ∷ Value.bytes k ∷ [])
struct_of (global_request t w d) = wire 80 (Value.string t ∷ Value.bool w ∷ Value.rest d ∷ [])
struct_of (global_request_success d) = wire 81 (Value.rest d ∷ [])
struct_of (global_request_failure d) = wire 82 (Value.rest d ∷ [])
struct_of (channel_open t i w m d) =
    wire 90 (Value.string t ∷ Value.uint32 i ∷ Value.uint32 w ∷ Value.uint32 m ∷ Value.rest d ∷ [])
struct_of (channel_data i n d) = wire 94 (Value.uint32 i ∷ Value.uint32 n ∷ Value.rest d ∷ [])
struct_of (channel_open_confirm i j w m d) =
    wire 91 (Value.uint32 i ∷ Value.uint32 j ∷ Value.uint32 w ∷ Value.uint32 m ∷ Value.rest d ∷ [])
struct_of (channel_open_failure i r m l) =
    wire 92 (Value.uint32 i ∷ Value.uint32 r ∷ Value.string m ∷ Value.string l ∷ [])
struct_of (window_adjust i n) = wire 93 (Value.uint32 i ∷ Value.uint32 n ∷ [])
struct_of (channel_eof i) = wire 96 (Value.uint32 i ∷ [])
struct_of (channel_close i) = wire 97 (Value.uint32 i ∷ [])
struct_of (channel_request i r w d) =
    wire 98 (Value.uint32 i ∷ Value.string r ∷ Value.bool w ∷ Value.rest d ∷ [])
struct_of (channel_request_success i) = wire 99 (Value.uint32 i ∷ [])
struct_of (channel_request_failure i) = wire 100 (Value.uint32 i ∷ [])

unfoldable pub encode : Message → Bytes
encode m = marshal (struct_of m)
