-- ===== src/Server/Signed.antt =====
-- buildDataSignedForAuth of common.go: what a signature over its result is about.
use xcryptossh.Prelude.{
  ◌^◌, ◌%◌, ◌<◌, length-append, ◌≡◌, ◌≢◌, refl, ap, Bytes, [], ok, length, arith,
}
use xcryptossh.Wire.Strings.{append_string}
use xcryptossh.Wire.Numbers.{append_u32, u32_bytes}
use xcryptossh.Wire.Structs.{kind_of, marshal_field, unmarshal, type_of}
use xcryptossh.Wire.Structs.RoundTrip.{unmarshal-marshal}
use xcryptossh.Server.Attempts.{AuthRequest, signed_struct, build_data_signed_for_auth}

-- The parts that the data fixes.
pub record SameSigned (session session' : Bytes) (req req' : AuthRequest) (algo algo' : Bytes)
    (key key' : Bytes) : Type 0 where
  pub same_session : session ≡ session'
  pub same_user : req.user ≡ req'.user
  pub same_service : req.service ≡ req'.service
  pub same_method : req.method ≡ req'.method
  pub same_algo : algo ≡ algo'
  pub same_key : key ≡ key'

append_string-ne-nil : (out s : Bytes) → append_string out s ≢ []
unfolding append_string
append_string-ne-nil out s e = omega (
  arith,
  ap length e,
  length-append (append_u32 out (length s % 2 ^ 32)) s,
  length-append out (u32_bytes (length s % 2 ^ 32)),
)

signed_back :
    (session : Bytes) (req : AuthRequest) (algo key : Bytes)
    → length (build_data_signed_for_auth session req algo key) < 2 ^ 32
    → unmarshal
        (type_of (signed_struct session req algo key))
        (build_data_signed_for_auth session req algo key)
      ≡ ok (signed_struct session req algo key)
unfolding build_data_signed_for_auth
signed_back session req algo key small =
    unmarshal-marshal (signed_struct session req algo key)
      (tt, (tt, (tt, (tt, (tt, (tt, (tt, (tt, tt)))))))) refl small
      (unfold marshal_field in append_string-ne-nil _ key) tt

-- Equal data to sign means the same session, user, service, method, algorithm and key: a signature
-- for one request serves no other. The data is under 4 GiB.
pub build_data_signed_for_auth_injective :
    (session session' : Bytes) (req req' : AuthRequest) (algo algo' key key' : Bytes)
    → length (build_data_signed_for_auth session req algo key) < 2 ^ 32
    → build_data_signed_for_auth session req algo key
      ≡ build_data_signed_for_auth session' req' algo' key'
    → SameSigned session session' req req' algo algo' key key'
unfolding kind_of
build_data_signed_for_auth_injective session session' req req' algo algo' key key' small same =
    let first = signed_back session req algo key small in
    let second = signed_back session' req' algo' key' (omega (arith, ap length same)) in
    let equal : signed_struct session req algo key ≡ signed_struct session' req' algo' key' = cc in
    record {
      same_session = cc;
      same_user = cc;
      same_service = cc;
      same_method = cc;
      same_algo = cc;
      same_key = cc;
    }
