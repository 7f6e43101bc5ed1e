-- ===== src/Server/Answers.antt =====
-- What serverAuthenticate of server.go answers to well-formed requests: a right password, and `none`
-- where it is not allowed.
use xcryptossh.Prelude.{
  ℕ, ◌+◌, ◌<◌, ◌^◌, zero, suc, ◌≡◌, ◌≢◌, refl, ap, sym, ◌∙◌, List, [], ◌∷◌, ◌++◌, Option, none,
  some, Bytes, Bool, false, if◌then◌else◌, Result, ok, err, arith, bytes_eq, codes, replicate,
  length, if_true, if_false, bytes_eq_refl, append-nil,
}
use xcryptossh.Prelude.Int.{ℤ, pos, negsuc}
use xcryptossh.Errors.{Error}
use xcryptossh.Wire.Strings.{append_string, parse_string, parse_string-append_string}
use xcryptossh.Wire.Structs.{Value, Struct, kind_of, unmarshal}
use xcryptossh.Wire.Structs.RoundTrip.{unmarshal-marshal, marshal_tagged}
use xcryptossh.Messages.{user_auth_request, user_auth_failure, encode}
use xcryptossh.Channel.{Conn, conn_write}
use xcryptossh.Server.{Permissions, Refusal, not_passed, Failure, Server, Session, service_ssh}
use xcryptossh.Server.Attempts.{
  AuthRequest, Attempt, granted, refused, Method, none', password, method_of, attempt, reply,
  check_password, bad_request, outcome,
}
use xcryptossh.Server.Rounds.{
  Step, return, again, limit_reached, parse_request, request_type, request_of, count_failure,
  failure_methods, refuse_attempt, conclude, handle_request, read_request, round, or_return,
  server_authenticate,
}

abbrev request_packet : AuthRequest → Bytes
request_packet req = encode (user_auth_request req.user req.service req.method req.payload)

parse_request-encode :
    (req : AuthRequest)
    → length (request_packet req) < 2 ^ 32
    → parse_request (request_packet req) ≡ ok req
unfolding parse_request encode kind_of
parse_request-encode req small =
    let fields : Struct = record {
      tags = 50 ∷ [];
      values =
          Value.string req.user
          ∷ Value.string req.service
          ∷ Value.string req.method
          ∷ Value.rest req.payload
          ∷ [];
    } in
    let back : unmarshal request_type (request_packet req) ≡ ok fields =
      unmarshal-marshal fields (tt, (tt, (tt, (tt, tt)))) refl small
        (λ e. cc (marshal_tagged 50 fields.values)) (omega arith, tt) in
    ap
      (λ (r : Result Error Struct). elim r as (λ _. Result Error AuthRequest) [
        | err e ↦ err e
        | ok fields ↦ request_of fields.values
      ])
      back

reply_open :
    {E : Type 0} (packet : Bytes) (s : Session E)
    → s.conn.broken ≡ none
    → reply packet s
      ≡ (none, record s { conn = record s.conn { sent = s.conn.sent ++ (packet ∷ []) } })
unfolding reply conn_write
reply_open {E} packet s e =
    let sent : Conn = record s.conn { sent = s.conn.sent ++ (packet ∷ []) } in
    ap
      (λ (o : Option Error).
        let r : Option Error × Conn = elim o [ some e ↦ (some e, s.conn) | none ↦ (none, sent) ] in
        let out : Option Error × Session E = (r.0, record s { conn = r.1 }) in out)
      e

check_password-encoded :
    {E : Type 0} (f : Bytes → Result E (Option Permissions)) (secret : Bytes)
    {perms : Option Permissions}
    → length secret < 2 ^ 32
    → f secret ≡ ok perms
    → check_password f (0 ∷ append_string [] secret) ≡ granted perms
unfolding check_password
check_password-encoded {E} f secret small right =
    let parsed : parse_string (append_string [] secret) ≡ some (secret, []) =
      ap parse_string (sym (append-nil (append_string [] secret)))
      ∙ parse_string-append_string secret [] (omega arith) in
    ap
      (λ (o : Option (Bytes × Bytes)). elim o as (λ _. Attempt E) [
        | none ↦ bad_request
        | some (word, []) ↦ outcome (f word)
        | some (word, b ∷ bs) ↦ bad_request
      ])
      parsed
    ∙ ap outcome right

limit_reached-zero : (t : ℤ) → limit_reached t 0 ≡ false
unfolding limit_reached
limit_reached-zero (pos zero) = refl
limit_reached-zero (pos (suc m)) = ground arith
limit_reached-zero (negsuc m) = refl

module _ {K E IP Net : Type 0} (S : Server K E IP Net) where
  -- A request for the service goes to its method.
  round-request :
      (req : AuthRequest) (rest : List Bytes) (s : Session E) (packet : Bytes)
      → s.input ≡ packet ∷ rest
      → parse_request packet ≡ ok req
      → limit_reached S.max_auth_tries s.auth_failures ≡ false
      → req.service ≡ service_ssh
      → round S s
        ≡ conclude S
            (method_of req.method)
            (attempt S req (method_of req.method) (record s { input = rest }))
  unfolding round read_request handle_request
  round-request req rest s packet first parses under service =
      let s' : Session E = record s { input = rest } in
      if_false _ _ under
      ∙ ap (λ (l : List Bytes). read_request S l s) first
      ∙ ap
          (λ (r : Result Error AuthRequest). elim r as (λ _. Step E) [
            | err e ↦ return (err (Failure.of_packet e)) s'
            | ok req ↦ handle_request S req s'
          ])
          parses
      ∙ if_true _ _ (ap (λ x. bytes_eq x service_ssh) service ∙ bytes_eq_refl service_ssh)

  -- A client that sends a right password first, in a session under the limit and over a connection
  -- that takes writes, is let in with the callback's permissions and told so.
  pub server_authenticate-password :
      (f : Bytes → Bytes → Result E (Option Permissions)) (user secret : Bytes)
      (perms : Option Permissions) (rest : List Bytes) (s : Session E) (fuel : ℕ)
      → S.password_callback ≡ some f
      → f user secret ≡ ok perms
      → length (
          encode
            (user_auth_request user service_ssh (codes "password") (0 ∷ append_string [] secret)))
        < 2 ^ 32
      → length secret < 2 ^ 32
      → s.input
        ≡ encode
            (user_auth_request user service_ssh (codes "password") (0 ∷ append_string [] secret))
          ∷ rest
      → limit_reached S.max_auth_tries s.auth_failures ≡ false
      → s.conn.broken ≡ none
      → server_authenticate (suc fuel) S s
        ≡ some (
          ok perms,
          record s {
            input = rest;
            conn = record s.conn { sent = s.conn.sent ++ ((52 ∷ []) ∷ []) };
          },
        )
  unfolding server_authenticate method_of bytes_eq attempt conclude
  server_authenticate-password f user secret perms rest s fuel callback right small short first
        under open' =
      let req : AuthRequest = record {
        user = user;
        service = service_ssh;
        method = codes "password";
        payload = 0 ∷ append_string [] secret;
      } in
      let s' : Session E = record s { input = rest } in
      let begins : round S s ≡ conclude S password (attempt S req password s') =
        round-request req rest s (request_packet req) first (parse_request-encode req small) under
          refl in
      let tries : attempt S req password s' ≡ (granted perms, s') =
        ap
          (λ (o : Option (Bytes → Bytes → Result E (Option Permissions))).
            elim o as (λ _. Attempt E × Session E) [
              | none ↦ (refused Refusal.not_configured, s')
              | some f ↦ (check_password (f req.user) req.payload, s')
            ])
          callback
        ∙ ap (λ (a : Attempt E). let out : Attempt E × Session E = (a, s') in out)
            (check_password-encoded (f user) secret short right) in
      let ends : conclude S password (granted perms, s')
          ≡ return (ok perms)
              (record s' { conn = record s.conn { sent = s.conn.sent ++ ((52 ∷ []) ∷ []) } }) =
        ap (or_return (return (ok perms))) (reply_open (52 ∷ []) s' open') in
      ap
        (λ (q : Step E).
          elim q as (λ _. Option (Result (Failure E) (Option Permissions) × Session E)) [
            | return r x ↦ some (r, x)
            | again x ↦ server_authenticate fuel S x
          ])
        (begins ∙ ap (conclude S password) tries ∙ ends)

  -- A refused `none` while nothing is counted: the loop goes on, still with nothing counted.
  round-none :
      (req : AuthRequest) (packet : Bytes) (rest : List Bytes) (s : Session E)
      → parse_request packet ≡ ok req
      → req.service ≡ service_ssh
      → req.method ≡ codes "none"
      → S.no_client_auth ≡ false
      → failure_methods S ≢ []
      → s.input ≡ packet ∷ rest
      → s.auth_failures ≡ 0
      → s.conn.broken ≡ none
      → (s' : Session E) × (round S s ≡ again s')
        × (s'.input ≡ rest)
        × (s'.auth_failures ≡ 0)
        × (s'.conn.broken ≡ none)
  unfolding attempt conclude refuse_attempt
  round-none req packet rest s parses service name closed some_method first zero' open' =
      go (failure_methods S) refl
    where
      s1 : Session E
      s1 = record s { input = rest }

      counted : Session E
      counted = record s1 {
        auth_errs = s.auth_errs ++ (not_passed ∷ []);
        auth_failures = count_failure none' s.auth_failures;
      }

      is_none : method_of req.method ≡ none'
      is_none = ap method_of name ∙ (unfold method_of in unfold bytes_eq in refl)

      tries : attempt S req none' s1 ≡ (refused not_passed, s1)
      tries =
          ap
            (λ (b : Bool).
              let out : Attempt E × Session E =
                ((if b then granted none else refused not_passed), s1) in
              out)
            closed

      begins : round S s ≡ refuse_attempt S none' not_passed s1
      begins =
          round-request req rest s packet first parses
            (ap (limit_reached S.max_auth_tries) zero' ∙ limit_reached-zero S.max_auth_tries)
            service
          ∙ ap (λ (m : Method). conclude S m (attempt S req m s1)) is_none
          ∙ ap (conclude S none') tries

      go :
          (names : List Bytes)
          → failure_methods S ≡ names
          → (s' : Session E) × (round S s ≡ again s')
            × (s'.input ≡ rest)
            × (s'.auth_failures ≡ 0)
            × (s'.conn.broken ≡ none)
      go [] e = absurd (some_method e)
      go (n ∷ names) e =
          let packet' : Bytes = encode (user_auth_failure (n ∷ names) false) in
          (
            record counted { conn = record s.conn { sent = s.conn.sent ++ (packet' ∷ []) } },
            begins
                ∙ ap
                    (λ (l : List Bytes). elim l as (λ _. Step E) [
                      | [] ↦ return (err Failure.no_methods) counted
                      | name ∷ names ↦
                          or_return again
                            (reply (encode (user_auth_failure (name ∷ names) false)) counted)
                    ])
                    e
                ∙ ap (or_return again) (reply_open packet' counted open'),
            refl,
            ap (count_failure none') zero' ∙ (unfold count_failure in refl),
            open',
          )

  -- However many requests with method `none` a client sends first, the limit on the tries is no
  -- nearer behind them: the loop goes on with nothing counted. The requests are for the service, `none` is not allowed, some method is configured, and the
  -- connection takes writes.
  pub server_authenticate-none :
      (n fuel : ℕ) (req : AuthRequest) (packet : Bytes) (rest : List Bytes) (s : Session E)
      → parse_request packet ≡ ok req
      → req.service ≡ service_ssh
      → req.method ≡ codes "none"
      → S.no_client_auth ≡ false
      → failure_methods S ≢ []
      → s.input ≡ replicate n packet ++ rest
      → s.auth_failures ≡ 0
      → s.conn.broken ≡ none
      → (s' : Session E) × (server_authenticate (n + fuel) S s ≡ server_authenticate fuel S s')
        × (s'.input ≡ rest)
        × (s'.auth_failures ≡ 0)
  unfolding server_authenticate
  server_authenticate-none zero fuel req packet rest s parses service name closed some_method first
        zero' open' =
      (s, ap (λ k. server_authenticate k S s) (omega arith), first, zero')
  server_authenticate-none (suc n) fuel req packet rest s parses service name closed some_method
        first zero' open' =
      let (s1, goes, input1, zero1, open1) =
        round-none req packet (replicate n packet ++ rest) s parses service name closed some_method
          first zero' open' in
      let (s2, on, input2, zero2) =
        server_authenticate-none n fuel req packet rest s1 parses service name closed some_method
          input1 zero1 open1 in
      let more : suc n + fuel ≡ suc (n + fuel) = omega arith in
      (
        s2,
        ap (λ k. server_authenticate k S s) more
            ∙ ap
                (λ (q : Step E).
                  elim q as (λ _. Option (Result (Failure E) (Option Permissions) × Session E)) [
                    | return r x ↦ some (r, x)
                    | again x ↦ server_authenticate (n + fuel) S x
                  ])
                goes
            ∙ on,
        input2,
        zero2,
      )
