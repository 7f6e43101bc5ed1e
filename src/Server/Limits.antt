-- ===== src/Server/Limits.antt =====
-- The count of failed attempts in serverAuthenticate of server.go against MaxAuthTries.
use xcryptossh.Prelude.{
  ℕ, ◌+◌, ◌≤◌, ◌<◌, zero, suc, ◌≡◌, refl, ap, sym, subst, ◌∙◌, List, [], ◌∷◌, ◌++◌, Option, none,
  some, Bytes, Bool, true, false, if◌then◌else◌, Result, ok, err, arith, bytes_eq, codes,
}
use xcryptossh.Prelude.Int.{pos}
use xcryptossh.Errors.{Error}
use xcryptossh.Messages.{disconnect, user_auth_failure, user_auth_pub_key_ok, encode}
use xcryptossh.Channel.{Conn}
use xcryptossh.Server.{
  Permissions, Refusal, Failure, of_packet, no_methods, bad_service, too_many_failures, Server,
  Session, service_ssh,
}
use xcryptossh.Server.Cache.{Trusted}
use xcryptossh.Server.Attempts.{
  AuthRequest, Attempt, fatal, queried, granted, refused, Method, method_of, attempt, reply,
}
use xcryptossh.Server.Rounds.{
  Step, return, again, limit_reached, too_many, parse_request, count_failure, failure_methods,
  refuse_attempt, conclude, handle_request, read_request, round, or_return, server_authenticate,
}
use xcryptossh.Server.Moves.{attempt-ReadsOn}
use xcryptossh.Server.Progress.{count_failure-le}
use xcryptossh.Server.Runs.{round-again}
use xcryptossh.Server.Sound.{new_session, new-Trusted}

limit-under : (m n : ℕ) → 0 < m → limit_reached (pos m) n ≡ false → n < m
unfolding limit_reached
limit-under m n h e = ground arith

module _ {E : Type 0} where
  abbrev state_of : Step E → Session E
  state_of (return r s) = s
  state_of (again s) = s

  return-count :
      (r : Result (Failure E) (Option Permissions)) (packet : Bytes) (s : Session E)
      → (state_of (or_return (return r) (reply packet s))).auth_failures ≡ s.auth_failures
  return-count r packet s = go (reply packet s) ∙ (unfold reply in refl)
    where
      go :
          (x : Option Error × Session E)
          → (state_of (or_return (return r) x)).auth_failures ≡ x.1.auth_failures
      go (none, x) = refl
      go (some e, x) = refl

  again-count :
      (packet : Bytes) (s : Session E)
      → (state_of (or_return again (reply packet s))).auth_failures ≡ s.auth_failures
  again-count packet s = go (reply packet s) ∙ (unfold reply in refl)
    where
      go :
          (x : Option Error × Session E)
          → (state_of (or_return again x)).auth_failures ≡ x.1.auth_failures
      go (none, x) = refl
      go (some e, x) = refl

module _ {K E IP Net : Type 0} (S : Server K E IP Net) where
  refuse_attempt-count :
      (m : Method) (e : Refusal E) (s : Session E)
      → (state_of (refuse_attempt S m e s)).auth_failures ≤ s.auth_failures + 1
  unfolding refuse_attempt
  refuse_attempt-count m e s = go (failure_methods S)
    where
      counted : Session E
      counted = record s {
        auth_errs = s.auth_errs ++ (e ∷ []);
        auth_failures = count_failure m s.auth_failures;
      }

      go :
          (names : List Bytes)
          → (state_of (elim names as (λ _. Step E) [
            | [] ↦ return (err no_methods) counted
            | name ∷ names ↦
                or_return again (reply (encode (user_auth_failure (name ∷ names) false)) counted)
          ])).auth_failures
            ≤ s.auth_failures + 1
      go [] = count_failure-le m s.auth_failures
      go (name ∷ names) = omega (
        arith,
        again-count (encode (user_auth_failure (name ∷ names) false)) counted,
        count_failure-le m s.auth_failures,
      )

  conclude-count :
      (m : Method) (a : Attempt E) (s : Session E)
      → (state_of (conclude S m (a, s))).auth_failures ≤ s.auth_failures + 1
  unfolding conclude
  conclude-count m (fatal e) s = omega arith
  conclude-count m (queried algo key) s =
      omega (arith, again-count (encode (user_auth_pub_key_ok algo key)) s)
  conclude-count m (granted perms) s = omega (arith, return-count (ok perms) (52 ∷ []) s)
  conclude-count m (refused e) s = refuse_attempt-count m e s

  handle_request-count :
      (req : AuthRequest) (s : Session E)
      → Trusted S S.public_key_callback s.cache
      → (state_of (handle_request S req s)).auth_failures ≤ s.auth_failures + 1
  unfolding handle_request
  handle_request-count req s t = go (bytes_eq req.service service_ssh)
    where
      go :
          (b : Bool)
          → (state_of (
              if b
              then conclude S (method_of req.method) (attempt S req (method_of req.method) s)
              else return (err (bad_service req.service)) s)).auth_failures
            ≤ s.auth_failures + 1
      go false = omega arith
      go true =
          let a = attempt S req (method_of req.method) s in
          omega (
            arith,
            conclude-count (method_of req.method) a.0 a.1,
            (attempt-ReadsOn S req (method_of req.method) s t).0.uncounted,
          )

  -- A round adds one failure at most, and none at the limit.
  round-count :
      (m : ℕ) (s : Session E)
      → S.max_auth_tries ≡ pos m
      → 0 < m
      → Trusted S S.public_key_callback s.cache
      → s.auth_failures ≤ m
      → (state_of (round S s)).auth_failures ≤ m
  unfolding round read_request too_many
  round-count m s is_max positive t below = go (limit_reached S.max_auth_tries s.auth_failures) refl
    where
      handled : List Bytes → Result Error AuthRequest → Step E
      handled rest r = elim r [
        | err e ↦ return (err (of_packet e)) (record s { input = rest })
        | ok req ↦ handle_request S req (record s { input = rest })
      ]

      parsed :
          (rest : List Bytes) (r : Result Error AuthRequest)
          → s.auth_failures < m
          → (state_of (handled rest r)).auth_failures ≤ m
      parsed rest (err e) under = below
      parsed rest (ok req) under =
          omega (arith, handle_request-count req (record s { input = rest }) t)

      read :
          (input : List Bytes)
          → s.auth_failures < m
          → (state_of (read_request S input s)).auth_failures ≤ m
      read [] under = below
      read (packet ∷ rest) under = parsed rest (parse_request packet) under

      under_limit : limit_reached (pos m) s.auth_failures ≡ false → s.auth_failures < m
      under_limit e = limit-under m s.auth_failures positive e

      go :
          (b : Bool)
          → limit_reached S.max_auth_tries s.auth_failures ≡ b
          → (state_of (if b then too_many s else read_request S s.input s)).auth_failures ≤ m
      go true e = omega (
        arith,
        return-count (err too_many_failures)
            (encode (disconnect 2 (codes "too many authentication failures") [])) s,
      )
      go false e =
          read s.input (under_limit (ap (λ x. limit_reached x s.auth_failures) (sym is_max) ∙ e))

  run-count :
      (m fuel : ℕ) (s s' : Session E) {r : Result (Failure E) (Option Permissions)}
      → S.max_auth_tries ≡ pos m
      → 0 < m
      → Trusted S S.public_key_callback s.cache
      → s.auth_failures ≤ m
      → server_authenticate fuel S s ≡ some (r, s')
      → s'.auth_failures ≤ m
  unfolding server_authenticate
  run-count m zero s s' is_max positive t below h = cc
  run-count m (suc fuel) s s' {r = r} is_max positive t below h =
      go (round S s) refl (λ x. run-count m fuel x s' is_max positive) h
    where
      go :
          (q : Step E)
          → round S s ≡ q
          → ((x : Session E)
              → Trusted S S.public_key_callback x.cache
              → x.auth_failures ≤ m
              → server_authenticate fuel S x ≡ some (r, s')
              → s'.auth_failures ≤ m)
          → elim q as (λ _. Option (Result (Failure E) (Option Permissions) × Session E)) [
            | return r x ↦ some (r, x)
            | again x ↦ server_authenticate fuel S x
          ]
            ≡ some (r, s')
          → s'.auth_failures ≤ m
      go (return r' x) e later g =
          let same : x ≡ s' = cc in
          subst (λ (y : Session E). y.auth_failures ≤ m) same
            (subst (λ (q : Step E). (state_of q).auth_failures ≤ m) e
              (round-count m s is_max positive t below))
      go (again x) e later g =
          later x (round-again S s x t e).trusted
            (subst (λ (q : Step E). (state_of q).auth_failures ≤ m) e
              (round-count m s is_max positive t below))
            g

  -- With a positive limit m on the tries, no more than m failed attempts have been counted when the
  -- loop returns, whatever the client sends.
  pub server_authenticate-le-limit :
      (m fuel : ℕ) (input : List Bytes) (end : Error) (conn : Conn) (s' : Session E)
      {r : Result (Failure E) (Option Permissions)}
      → S.max_auth_tries ≡ pos m
      → 0 < m
      → server_authenticate fuel S (new_session input end conn) ≡ some (r, s')
      → s'.auth_failures ≤ m
  server_authenticate-le-limit m fuel input end conn s' is_max positive h =
      run-count m fuel (new_session input end conn) s' is_max positive
        (new-Trusted S S.public_key_callback) (omega arith) h
