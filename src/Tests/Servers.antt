-- ===== src/Tests/Servers.antt =====
-- The server's user authentication, for a server with a password, a key and a dialogue.
use xcryptossh.Prelude.{
  ℕ, ◌≡◌, ◌≤◌, refl, List, [], ◌∷◌, Option, none, some, Bytes, true, false, if◌then◌else◌, Result,
  ok, err, bytes_eq, codes, arith, replicate, All,
}
use xcryptossh.Prelude.Int.{pos}
use xcryptossh.Errors.{Error}
use xcryptossh.Wire.Numbers.{parse_uint32}
use xcryptossh.Wire.Strings.{append_string, parse_string}
use xcryptossh.Wire.Structs.{marshal, marshal_field, unmarshal_fields, unmarshal_field}
use xcryptossh.Messages.{user_auth_request, encode}
use xcryptossh.Channel.{Conn}
use xcryptossh.Server.{Permissions, Server, Session, tcp, Failure, restrict}
use xcryptossh.Server.Cache.{find_candidate_lem, IsFaithful}
use xcryptossh.Server.Attempts.{AuthRequest, build_data_signed_for_auth, find_candidate}
use xcryptossh.Server.Rounds.{server_authenticate, parse_request, failure_methods, limit_reached}
use xcryptossh.Server.Signed.{SameSigned, build_data_signed_for_auth_injective}
use xcryptossh.Server.Sound.{
  new_session, server_authenticate-IsGranted, server_authenticate_returns,
}
use xcryptossh.Server.Runs.{IsGranted}
use xcryptossh.Server.Limits.{server_authenticate-le-limit}
use xcryptossh.Server.Answers.{server_authenticate-password, server_authenticate-none}

abbrev from_lan : Permissions
from_lan = record {
  critical_options = (codes "source-address", codes "10.0.0.0/8,::1") ∷ [];
  extensions = [];
}

abbrev check_secret : Bytes → Bytes → Result ℕ (Option Permissions)
check_secret user secret = if bytes_eq secret (codes "pw") then ok none else err 1

abbrev check_lan_key : Bytes → Bytes → Result ℕ (Option Permissions)
check_lan_key user key = if bytes_eq key (codes "K") then ok (some from_lan) else err 2

abbrev host : Server Bytes ℕ Bytes Bytes
host = record {
  no_client_auth = false;
  max_auth_tries = pos 2;
  password_callback = some check_secret;
  public_key_callback = some check_lan_key;
  interactive_callback = none;
  session_id = codes "H";
  remote_addr = tcp (codes "10.1.2.3");
  parse_public_key = λ b. ok b;
  verify = λ key d sig. if bytes_eq sig.blob d then none else some 3;
  parse_ip = λ b. if bytes_eq b (codes "::1") then some b else none;
  equal_ip = bytes_eq;
  parse_cidr = λ b. some b;
  contains = λ net ip. true;
}

abbrev open_conn : Conn
open_conn = record { sent = []; broken = none }

abbrev request : Bytes → Bytes → AuthRequest
request method payload = record {
  user = codes "u";
  service = codes "ssh-connection";
  method = method;
  payload = payload;
}

abbrev request_packet : Bytes → Bytes → Bytes
request_packet method payload =
    encode (user_auth_request (codes "u") (codes "ssh-connection") method payload)

-- `none`, then a wrong password, then the signature of a key.
abbrev key_payload : Bytes
key_payload =
    1
    ∷ append_string (append_string (append_string [] (codes "ssh-rsa")) (codes "K")) (
        append_string (append_string [] (codes "ssh-rsa")) (
          build_data_signed_for_auth (codes "H") (request (codes "publickey") []) (codes "ssh-rsa")
            (codes "K")))

abbrev three_requests : List Bytes
three_requests =
    request_packet (codes "none") []
    ∷ request_packet (codes "password") (0 ∷ append_string [] (codes "no"))
    ∷ request_packet (codes "publickey") key_payload
    ∷ []

let_in :
    (s' : Session ℕ) × (server_authenticate 4 host (new_session three_requests Error.eof open_conn)
      ≡ some (ok (some from_lan), s'))
unfolding server_authenticate marshal_field unmarshal_fields unmarshal_field
let_in = (_, refl)

server_authenticate-IsGranted_example : IsGranted host three_requests (some from_lan)
server_authenticate-IsGranted_example =
    server_authenticate-IsGranted host 4 three_requests Error.eof open_conn let_in.0 let_in.1

server_authenticate_returns_example :
    (out : Result (Failure ℕ) (Option Permissions) × Session ℕ) × (server_authenticate 4 host
        (new_session three_requests Error.eof open_conn)
      ≡ some out)
server_authenticate_returns_example =
    server_authenticate_returns host three_requests Error.eof open_conn

guesses : List Bytes
guesses = replicate 3 (request_packet (codes "password") (0 ∷ append_string [] (codes "no")))

shut_out :
    (s' : Session ℕ) × (server_authenticate 4 host (new_session guesses Error.eof open_conn)
      ≡ some (err Failure.too_many_failures, s'))
unfolding server_authenticate marshal_field unmarshal_fields unmarshal_field guesses
shut_out = (_, refl)

server_authenticate-le-limit_example : shut_out.0.auth_failures ≤ 2
server_authenticate-le-limit_example =
    server_authenticate-le-limit host 2 4 guesses Error.eof open_conn shut_out.0 refl (omega arith)
      shut_out.1

abbrev password_session : Session ℕ
password_session =
    new_session (request_packet (codes "password") (0 ∷ append_string [] (codes "pw")) ∷ [])
      Error.eof open_conn

server_authenticate-password_example :
    server_authenticate 1 host password_session
    ≡ some (
      ok none,
      record password_session {
        input = [];
        conn = record { sent = (52 ∷ []) ∷ []; broken = none };
      },
    )
unfolding append_string marshal_field bytes_eq encode marshal limit_reached
server_authenticate-password_example =
    server_authenticate-password host check_secret (codes "u") (codes "pw") none [] password_session
      0 refl refl (omega arith) (omega arith) refl refl refl

abbrev knocks : Session ℕ
knocks = new_session (replicate 5 (request_packet (codes "none") [])) Error.eof open_conn

none_parses : parse_request (request_packet (codes "none") []) ≡ ok (request (codes "none") [])
unfolding parse_request marshal_field unmarshal_fields unmarshal_field parse_string encode marshal
    append_string parse_uint32
none_parses = refl

server_authenticate-none_example :
    (s' : Session ℕ) × (server_authenticate 6 host knocks ≡ server_authenticate 1 host s')
    × (s'.input ≡ [])
    × (s'.auth_failures ≡ 0)
unfolding failure_methods
server_authenticate-none_example =
    server_authenticate-none host 5 1 (request (codes "none") []) (request_packet (codes "none") [])
      [] knocks none_parses refl refl refl (λ e. cc) refl refl refl

abbrev cached : Session ℕ
cached = record (new_session [] Error.eof open_conn) {
  cache = record { user = codes "u"; pub_key_data = codes "K"; result = ok (some from_lan) } ∷ [];
}

find_candidate_lem_example :
    ((find_candidate host check_lan_key (codes "u") (codes "K") (codes "K") cached).0
      ≡ restrict host (check_lan_key (codes "u") (codes "K")))
    × All
        (IsFaithful host check_lan_key)
        (find_candidate host check_lan_key (codes "u") (codes "K") (codes "K") cached).1.cache
unfolding restrict
find_candidate_lem_example =
    find_candidate_lem host check_lan_key (codes "u") (codes "K") (codes "K") cached refl
      (record { key = codes "K"; parses = refl; says = refl }, tt)

build_data_signed_for_auth_injective_example :
    SameSigned
      (codes "H")
      (codes "H")
      (request (codes "publickey") [])
      (request (codes "publickey") (9 ∷ []))
      (codes "ssh-rsa")
      (codes "ssh-rsa")
      (codes "K")
      (codes "K")
unfolding build_data_signed_for_auth marshal_field append_string
build_data_signed_for_auth_injective_example =
    build_data_signed_for_auth_injective (codes "H") (codes "H") (request (codes "publickey") [])
      (request (codes "publickey") (9 ∷ [])) (codes "ssh-rsa") (codes "ssh-rsa") (codes "K")
      (codes "K") (omega arith) refl
