-- ===== src/Server/Rounds.antt =====
-- serverAuthenticate of server.go: one round of userAuthLoop, and the loop.
use xcryptossh.Prelude.{
  ℕ, ◌+◌, zero, suc, List, [], ◌∷◌, ◌++◌, Option, none, some, Bytes, Bool, true, false, leb, ltb,
  if◌then◌else◌, Result, ok, err, bytes_eq, codes, ◌&&◌,
}
use xcryptossh.Prelude.Int.{ℤ, pos, negsuc}
use xcryptossh.Errors.{Error}
use xcryptossh.Wire.Structs.{Kind, Value, StructType, unmarshal}
use xcryptossh.Messages.{disconnect, user_auth_failure, user_auth_pub_key_ok, encode}
use xcryptossh.Server.{
  Permissions, Refusal, Failure, all_refused, bad_service, too_many_failures, no_methods, of_packet,
  Server, Session, service_ssh,
}
use xcryptossh.Server.Attempts.{
  AuthRequest, Attempt, fatal, queried, granted, refused, Method, none', method_of, attempt, reply,
}

-- What a round leads to: the function returns, or the loop goes on.
pub data Step (E : Type 0) : Type 0 where
  return : Result (Failure E) (Option Permissions) → Session E → Step E
  again : Session E → Step E

-- `authFailures >= config.MaxAuthTries && config.MaxAuthTries > 0`
unfoldable pub limit_reached : ℤ → ℕ → Bool
limit_reached (pos m) failures = leb m failures && ltb 0 m
limit_reached (negsuc m) failures = false

abbrev is_eof : Error → Bool
is_eof Error.eof = true
is_eof _ = false

abbrev pub request_type : StructType
request_type = record {
  tags = 50 ∷ [];
  kinds = Kind.string ∷ Kind.string ∷ Kind.string ∷ Kind.rest ∷ [];
}

abbrev pub request_of : List Value → Result Error AuthRequest
request_of (Value.string u ∷ Value.string s ∷ Value.string m ∷ Value.rest p ∷ []) =
    ok (record { user = u; service = s; method = m; payload = p })
request_of _ = err Error.bad_fields

unfoldable pub parse_request : Bytes → Result Error AuthRequest
unfolding unmarshal
parse_request packet = elim (unmarshal request_type packet) [
  | err e ↦ err e
  | ok s ↦ request_of s.values
]

abbrev pub listed : Bool → Bytes → List Bytes → List Bytes
listed true name names = name ∷ names
listed false name names = names

abbrev pub is_some : {A : Type 0} → Option A → Bool
is_some none = false
is_some (some a) = true

-- The count behind a refusal: `none` is free while nothing has been counted.
unfoldable pub count_failure : Method → ℕ → ℕ
count_failure none' zero = 0
count_failure none' (suc n) = suc n + 1
count_failure m n = n + 1

module _ {E : Type 0} where
  -- A read that fails.
  abbrev pub read_failure : Error → List (Refusal E) → Failure E
  read_failure e refusals = if is_eof e then all_refused refusals else of_packet e

  -- A write whose error is returned, else `next`.
  abbrev pub or_return : (Session E → Step E) → Option Error × Session E → Step E
  or_return next (some e, s) = return (err (of_packet e)) s
  or_return next (none, s) = next s

  unfoldable pub too_many : Session E → Step E
  unfolding encode reply
  too_many s =
      or_return (return (err too_many_failures))
        (reply (encode (disconnect 2 (codes "too many authentication failures") [])) s)

module _ {K E IP Net : Type 0} where
  unfoldable pub failure_methods : Server K E IP Net → List Bytes
  failure_methods S = listed (is_some S.password_callback) (codes "password") (
      listed (is_some S.public_key_callback) (codes "publickey")
        (listed (is_some S.interactive_callback) (codes "keyboard-interactive") []))

  -- The end of a round whose attempt was refused.
  unfoldable pub refuse_attempt : Server K E IP Net → Method → Refusal E → Session E → Step E
  unfolding encode reply failure_methods count_failure
  refuse_attempt S m e s =
      let s' : Session E = record s {
        auth_errs = s.auth_errs ++ (e ∷ []);
        auth_failures = count_failure m s.auth_failures;
      } in
      elim (failure_methods S) [
        | [] ↦ return (err no_methods) s'
        | name ∷ names ↦
            or_return again (reply (encode (user_auth_failure (name ∷ names) false)) s')
      ]

  unfoldable pub conclude : Server K E IP Net → Method → Attempt E × Session E → Step E
  unfolding refuse_attempt encode reply
  conclude S m (fatal e, s) = return (err e) s
  conclude S m (queried algo key, s) =
      or_return again (reply (encode (user_auth_pub_key_ok algo key)) s)
  conclude S m (granted perms, s) = or_return (return (ok perms)) (reply (52 ∷ []) s)
  conclude S m (refused e, s) = refuse_attempt S m e s

  -- A request that was read: its service first, then its method.
  unfoldable pub handle_request : Server K E IP Net → AuthRequest → Session E → Step E
  unfolding conclude attempt method_of bytes_eq
  handle_request S req s =
      if bytes_eq req.service service_ssh
      then conclude S (method_of req.method) (attempt S req (method_of req.method) s)
      else return (err (bad_service req.service)) s

  unfoldable pub read_request : Server K E IP Net → List Bytes → Session E → Step E
  unfolding handle_request parse_request
  read_request S [] s = return (err (read_failure s.end s.auth_errs)) s
  read_request S (packet ∷ rest) s = elim (parse_request packet) [
    | err e ↦ return (err (of_packet e)) (record s { input = rest })
    | ok req ↦ handle_request S req (record s { input = rest })
  ]

  unfoldable pub round : Server K E IP Net → Session E → Step E
  unfolding read_request limit_reached too_many
  round S s =
      if limit_reached S.max_auth_tries s.auth_failures
      then too_many s
      else read_request S s.input s

  -- The loop; `none` means that the fuel ran out.
  unfoldable pub server_authenticate :
      ℕ
      → Server K E IP Net
      → Session E
      → Option (Result (Failure E) (Option Permissions) × Session E)
  unfolding round
  server_authenticate zero S s = none
  server_authenticate (suc fuel) S s = elim (round S s) [
    | return r s' ↦ some (r, s')
    | again s' ↦ server_authenticate fuel S s'
  ]
