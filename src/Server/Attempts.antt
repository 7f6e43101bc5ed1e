-- ===== src/Server/Attempts.antt =====
-- The methods of serverAuthenticate in server.go, with Challenge and the data that a client signs.
use xcryptossh.Prelude.{
  ℕ, ◌%◌, ◌^◌, zero, suc, List, [], ◌∷◌, ◌++◌, Option, none, some, Bytes, Bool, true, false, ◌==◌,
  if◌then◌else◌, length, Result, ok, err, bytes_eq, codes,
}
use xcryptossh.Errors.{Error}
use xcryptossh.Wire.Numbers.{parse_uint32}
use xcryptossh.Wire.Strings.{append_string, parse_string}
use xcryptossh.Wire.Structs.{Value, Struct, marshal}
use xcryptossh.Channel.{conn_write}
use xcryptossh.Server.{
  Permissions, Signature, Refusal, not_passed, not_configured, bad_algo, bad_method, of_callback,
  Failure, of_packet, of_key, Dialogue, done, ask, Server, CachedPubKey, Session,
  is_acceptable_algo, cache_get, cache_add, restrict,
}

-- A userAuthRequestMsg.
pub record AuthRequest : Type 0 where
  pub user : Bytes
  pub service : Bytes
  pub method : Bytes
  pub payload : Bytes

-- What the switch over the method leads to: a return, an answer to a query that the loop continues
-- behind, a grant (`authErr == nil`), or an error that counts.
pub data Attempt (E : Type 0) : Type 0 where
  fatal : Failure E → Attempt E
  queried : (algo pub_key_data : Bytes) → Attempt E
  granted : Option Permissions → Attempt E
  refused : Refusal E → Attempt E

-- The struct of buildDataSignedForAuth. It has no message type of its own.
abbrev pub signed_struct : Bytes → AuthRequest → Bytes → Bytes → Struct
signed_struct session req algo key = record {
  tags = [];
  values =
      Value.bytes session
      ∷ Value.uint8 50
      ∷ Value.string req.user
      ∷ Value.string req.service
      ∷ Value.string req.method
      ∷ Value.bool true
      ∷ Value.bytes algo
      ∷ Value.bytes key
      ∷ [];
}

unfoldable pub build_data_signed_for_auth : Bytes → AuthRequest → Bytes → Bytes → Bytes
unfolding marshal
build_data_signed_for_auth session req algo key = marshal (signed_struct session req algo key)

unfoldable pub parse_signature_body : Bytes → Option (Signature × Bytes)
unfolding parse_string
parse_signature_body input = elim (parse_string input) [
  | none ↦ none
  | some (format, input') ↦ elim (parse_string input') [
    | none ↦ none
    | some (blob, rest) ↦ some (record { format = format; blob = blob }, rest)
  ]
]

abbrev pub only : Bytes → Option (Signature × Bytes) → Option (Signature × Bytes)
only rest none = none
only rest (some (sig, [])) = some (sig, rest)
only rest (some (sig, b ∷ bs)) = none

unfoldable pub parse_signature : Bytes → Option (Signature × Bytes)
unfolding parse_signature_body parse_string
parse_signature input = elim (parse_string input) [
  | none ↦ none
  | some (body, rest) ↦ only rest (parse_signature_body body)
]

abbrev bool_byte : Bool → ℕ
bool_byte true = 1
bool_byte false = 0

-- `none` where the lists differ in length.
unfoldable pub prompts : Bytes → List Bytes → List Bool → Option Bytes
unfolding append_string
prompts out [] [] = some out
prompts out (q ∷ qs) (e ∷ es) = prompts (append_string out q ++ (bool_byte e ∷ [])) qs es
prompts out [] (e ∷ es) = none
prompts out (q ∷ qs) [] = none

-- A userAuthInfoRequestMsg.
unfoldable pub info_request : Bytes → ℕ → Bytes → Bytes
unfolding marshal
info_request instruction n prompt_bytes = marshal (record {
  tags = 60 ∷ [];
  values =
      Value.string []
      ∷ Value.string instruction
      ∷ Value.string []
      ∷ Value.uint32 (n % 2 ^ 32)
      ∷ Value.rest prompt_bytes
      ∷ [];
})

module _ {E : Type 0} where
  -- The answers of an info response behind their number.
  unfoldable pub parse_answers : ℕ → Bytes → Result (Failure E) (List Bytes)
  unfolding parse_string
  parse_answers zero [] = ok []
  parse_answers zero (b ∷ bs) = err (of_packet Error.junk_at_end)
  parse_answers (suc n) packet = elim (parse_string packet) [
    | none ↦ err (of_packet (Error.parse_error 61))
    | some (answer, rest) ↦ elim (parse_answers n rest) [
      | ok answers ↦ ok (answer ∷ answers)
      | err e ↦ err e
    ]
  ]

  -- The transport hands over no empty packet.
  unfoldable pub read_answers : ℕ → Bytes → Result (Failure E) (List Bytes)
  unfolding parse_answers parse_uint32
  read_answers n [] = err (of_packet Error.index_out_of_range)
  read_answers n (t ∷ packet) =
      if t == 61
      then elim (parse_uint32 packet) [
        | none ↦ err (of_packet (Error.parse_error 61))
        | some (m, rest) ↦
            if m == n then parse_answers m rest else err (of_packet (Error.parse_error 61))
      ]
      else err (of_packet (Error.unexpected_message 61 t))

  -- `s.transport.writePacket(packet)`
  unfoldable pub reply : Bytes → Session E → Option Error × Session E
  unfolding conn_write
  reply packet s = let (e, conn) = conn_write packet s.conn in (e, record s { conn = conn })

  -- Challenge behind its write: the next packet, read as answers.
  unfoldable pub await_answers :
      ℕ → Option Error × Session E → Result (Failure E) (List Bytes) × Session E
  unfolding read_answers
  await_answers n (some e, s) = (err (of_packet e), s)
  await_answers n (none, s) = elim s.input [
    | [] ↦ (err (of_packet s.end), s)
    | packet ∷ rest ↦ (read_answers n packet, record s { input = rest })
  ]

  unfoldable pub challenge :
      Bytes → List Bytes → List Bool → Session E → Result (Failure E) (List Bytes) × Session E
  unfolding await_answers prompts info_request reply
  challenge instruction questions echos s = elim (prompts [] questions echos) [
    | none ↦ (err (of_packet Error.unequal_prompts), s)
    | some bytes ↦
        await_answers (length questions)
          (reply (info_request instruction (length questions) bytes) s)
  ]

  -- A callback's calls of Challenge, one after the other.
  unfoldable pub converse : Dialogue E → Session E → Result E (Option Permissions) × Session E
  unfolding challenge
  converse (done r) s = (r, s)
  converse (ask instruction questions echos next) s =
      let (r, s') = challenge instruction questions echos s in converse (next r) s'

  abbrev pub outcome : Result E (Option Permissions) → Attempt E
  outcome (ok perms) = granted perms
  outcome (err e) = refused (of_callback e)

  abbrev pub bad_request : Attempt E
  bad_request = fatal (of_packet (Error.parse_error 50))

  -- A password behind the byte 0.
  unfoldable pub check_password : (Bytes → Result E (Option Permissions)) → Bytes → Attempt E
  unfolding parse_string
  check_password f [] = bad_request
  check_password f (zero ∷ payload) = elim (parse_string payload) [
    | none ↦ bad_request
    | some (password, []) ↦ outcome (f password)
    | some (password, b ∷ bs) ↦ bad_request
  ]
  check_password f (suc b ∷ payload) = bad_request

  abbrev pub settled : Result (Refusal E) (Option Permissions) → Attempt E
  settled (ok perms) = granted perms
  settled (err e) = refused e

  -- What a query is told.
  unfoldable pub answer_query :
      Bytes → Bytes → Bytes → Result (Refusal E) (Option Permissions) → Attempt E
  answer_query algo key (b ∷ bs) result = bad_request
  answer_query algo key [] (ok perms) = queried algo key
  answer_query algo key [] (err e) = refused e

-- The methods that a request may name.
pub data Method : Type 0 where
  none' password keyboard_interactive public_key unknown : Method

unfoldable pub method_of : Bytes → Method
unfolding bytes_eq
method_of name =
    if bytes_eq name (codes "none")
    then none'
    else if bytes_eq name (codes "password")
    then password
    else if bytes_eq name (codes "keyboard-interactive")
    then keyboard_interactive
    else if bytes_eq name (codes "publickey")
    then public_key
    else unknown

module _ {K E IP Net : Type 0} where
  -- The candidate: from the cache, or from the callback and kept in the cache.
  unfoldable pub find_candidate :
      Server K E IP Net
      → (Bytes → K → Result E (Option Permissions))
      → Bytes
      → Bytes
      → K
      → Session E
      → Result (Refusal E) (Option Permissions) × Session E
  unfolding cache_get cache_add restrict
  find_candidate S f user key_data key s = elim (cache_get user key_data s.cache) [
    | some candidate ↦ (candidate.result, s)
    | none ↦
        let result : Result (Refusal E) (Option Permissions) = restrict S (f user key) in
        let candidate : CachedPubKey E = record {
          user = user;
          pub_key_data = key_data;
          result = result;
        } in
        (result, record s { cache = cache_add candidate s.cache })
  ]

  unfoldable pub check_signature :
      Server K E IP Net
      → AuthRequest
      → Bytes
      → Bytes
      → K
      → Bytes
      → Result (Refusal E) (Option Permissions)
      → Attempt E
  unfolding parse_signature is_acceptable_algo build_data_signed_for_auth
  check_signature S req algo key_data key payload result = elim (parse_signature payload) [
    | none ↦ bad_request
    | some (sig, b ∷ bs) ↦ bad_request
    | some (sig, []) ↦
        if is_acceptable_algo sig.format
        then elim (S.verify key (build_data_signed_for_auth S.session_id req algo key_data) sig) [
          | none ↦ settled result
          | some e ↦ fatal (of_key e)
        ]
        else refused not_passed
  ]

  -- Behind the candidate: a query, or a signature.
  unfoldable pub use_candidate :
      Server K E IP Net
      → AuthRequest
      → Bool
      → Bytes
      → Bytes
      → K
      → Bytes
      → Result (Refusal E) (Option Permissions) × Session E
      → Attempt E × Session E
  unfolding answer_query check_signature
  use_candidate S req is_query algo key_data key payload (result, s) = (
    if is_query
        then answer_query algo key_data payload result
        else check_signature S req algo key_data key payload result,
    s,
  )

  -- The key behind the algorithm.
  unfoldable pub check_key :
      Server K E IP Net
      → (Bytes → K → Result E (Option Permissions))
      → AuthRequest
      → Bool
      → Bytes
      → Bytes
      → Session E
      → Attempt E × Session E
  unfolding use_candidate find_candidate parse_string
  check_key S f req is_query algo payload s = elim (parse_string payload) [
    | none ↦ (bad_request, s)
    | some (key_data, rest) ↦ elim (S.parse_public_key key_data) [
      | err e ↦ (fatal (of_key e), s)
      | ok key ↦
          use_candidate S req is_query algo key_data key rest
            (find_candidate S f req.user key_data key s)
    ]
  ]

  unfoldable pub check_public_key :
      Server K E IP Net
      → (Bytes → K → Result E (Option Permissions))
      → AuthRequest
      → Bytes
      → Session E
      → Attempt E × Session E
  unfolding check_key parse_string is_acceptable_algo
  check_public_key S f req [] s = (bad_request, s)
  check_public_key S f req (b ∷ payload) s = elim (parse_string payload) [
    | none ↦ (bad_request, s)
    | some (algo, rest) ↦
        if is_acceptable_algo algo
        then check_key S f req (b == 0) algo rest s
        else (refused (bad_algo algo), s)
  ]

  -- The switch.
  unfoldable pub attempt :
      Server K E IP Net → AuthRequest → Method → Session E → Attempt E × Session E
  unfolding check_password converse check_public_key
  attempt S req none' s = (if S.no_client_auth then granted none else refused not_passed, s)
  attempt S req password s = elim S.password_callback [
    | none ↦ (refused not_configured, s)
    | some f ↦ (check_password (f req.user) req.payload, s)
  ]
  attempt S req keyboard_interactive s = elim S.interactive_callback [
    | none ↦ (refused not_configured, s)
    | some f ↦ let (r, s') = converse (f req.user) s in (outcome r, s')
  ]
  attempt S req public_key s = elim S.public_key_callback [
    | none ↦ (refused not_configured, s)
    | some f ↦ check_public_key S f req req.payload s
  ]
  attempt S req unknown s = (refused (bad_method req.method), s)
