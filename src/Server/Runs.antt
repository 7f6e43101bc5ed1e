-- ===== src/Server/Runs.antt =====
-- The loop of serverAuthenticate in server.go over all its rounds.
use xcryptossh.Prelude.{
  ◌+◌, ◌≤◌, ◌≡◌, refl, ap, subst, ◌∙◌, List, [], ◌∷◌, ◌++◌, Option, none, some, Bytes, Bool, true,
  false, if◌then◌else◌, Result, ok, err, arith, bytes_eq, codes, bytes_eq→eq,
}
use xcryptossh.Errors.{Error}
use xcryptossh.Messages.{disconnect, encode}
use xcryptossh.Server.{
  Permissions, of_packet, bad_service, too_many_failures, Server, Session, service_ssh,
}
use xcryptossh.Server.Cache.{Trusted}
use xcryptossh.Server.Attempts.{AuthRequest, method_of, attempt, reply}
use xcryptossh.Server.Rounds.{
  Step, return, again, limit_reached, too_many, parse_request, conclude, handle_request,
  read_request, round, or_return,
}
use xcryptossh.Server.Moves.{attempt-ReadsOn}
use xcryptossh.Server.Grants.{IsJustified, attempt-granted}
use xcryptossh.Server.Progress.{conclude-again, conclude-granted}

too_many-return : {E : Type 0} (s s' : Session E) → ¬ (too_many s ≡ again s')
unfolding too_many
too_many-return {E} s s' h =
    go (reply (encode (disconnect 2 (codes "too many authentication failures") [])) s) h
  where
    go :
        (r : Option Error × Session E) → ¬ (or_return (return (err too_many_failures)) r ≡ again s')
    go (none, x) g = cc
    go (some e, x) g = cc

too_many-not_granted :
    {E : Type 0} (s s' : Session E) (perms : Option Permissions)
    → ¬ (too_many s ≡ return (ok perms) s')
unfolding too_many
too_many-not_granted {E} s s' perms h =
    go (reply (encode (disconnect 2 (codes "too many authentication failures") [])) s) h
  where
    go :
        (r : Option Error × Session E)
        → ¬ (or_return (return (err too_many_failures)) r ≡ return (ok perms) s')
    go (none, x) g = cc
    go (some e, x) g = cc

module _ {K E IP Net : Type 0} (S : Server K E IP Net) where
  -- A round that goes on was under the limit, has read a packet and more from the front, keeps the
  -- cache faithful and counts one failure at most.
  pub record RoundGoes (s s' : Session E) : Type 0 where
    pub packet : Bytes
    pub front : List Bytes
    pub moved : s.input ≡ packet ∷ (front ++ s'.input)
    pub trusted : Trusted S S.public_key_callback s'.cache
    pub counted : s'.auth_failures ≤ s.auth_failures + 1
    pub under : limit_reached S.max_auth_tries s.auth_failures ≡ false

  -- A request among the packets, with the packets behind it, that is justified.
  pub record IsGranted (input : List Bytes) (perms : Option Permissions) : Type 0 where
    pub before : List Bytes
    pub packet : Bytes
    pub rest : List Bytes
    pub found : input ≡ before ++ (packet ∷ rest)
    pub req : AuthRequest
    pub parsed : parse_request packet ≡ ok req
    pub service : req.service ≡ service_ssh
    pub justified : IsJustified S req rest perms

  handle_request-again :
      (req : AuthRequest) (s s' : Session E)
      → Trusted S S.public_key_callback s.cache
      → handle_request S req s ≡ again s'
      → (front : List Bytes) × (s.input ≡ front ++ s'.input)
        × Trusted S S.public_key_callback s'.cache
        × (s'.auth_failures ≤ s.auth_failures + 1)
  unfolding handle_request
  handle_request-again req s s' t h = go (bytes_eq req.service service_ssh) h
    where
      go :
          (b : Bool)
          → (if b
              then conclude S (method_of req.method) (attempt S req (method_of req.method) s)
              else return (err (bad_service req.service)) s)
            ≡ again s'
          → (front : List Bytes) × (s.input ≡ front ++ s'.input)
            × Trusted S S.public_key_callback s'.cache
            × (s'.auth_failures ≤ s.auth_failures + 1)
      go false g = cc
      go true g =
          let a = attempt S req (method_of req.method) s in
          let goes = conclude-again S (method_of req.method) a.0 a.1 s' g in
          let (on, kept) = attempt-ReadsOn S req (method_of req.method) s t in
          (
            on.front,
            on.moved ∙ ap (λ l. on.front ++ l) goes.same_input,
            subst (Trusted S S.public_key_callback) goes.same_cache kept,
            omega (arith, goes.counted, on.uncounted),
          )

  handle_request-granted :
      (req : AuthRequest) (s s' : Session E) {perms : Option Permissions}
      → Trusted S S.public_key_callback s.cache
      → handle_request S req s ≡ return (ok perms) s'
      → (req.service ≡ service_ssh) × IsJustified S req s.input perms
  unfolding handle_request
  handle_request-granted req s s' {perms} t h = go (bytes_eq req.service service_ssh) refl h
    where
      go :
          (b : Bool)
          → bytes_eq req.service service_ssh ≡ b
          → (if b
              then conclude S (method_of req.method) (attempt S req (method_of req.method) s)
              else return (err (bad_service req.service)) s)
            ≡ return (ok perms) s'
          → (req.service ≡ service_ssh) × IsJustified S req s.input perms
      go false e g = cc
      go true e g =
          let a = attempt S req (method_of req.method) s in
          let grant = conclude-granted S (method_of req.method) a.0 a.1 s' g in
          (bytes_eq→eq _ _ e, attempt-granted S req (method_of req.method) s refl t grant)

  pub round-again :
      (s s' : Session E)
      → Trusted S S.public_key_callback s.cache
      → round S s ≡ again s'
      → RoundGoes s s'
  unfolding round read_request
  round-again s s' t h = go (limit_reached S.max_auth_tries s.auth_failures) refl h
    where
      handled : List Bytes → Result Error AuthRequest → Step E
      handled rest r = elim r [
        | err e ↦ return (err (of_packet e)) (record s { input = rest })
        | ok req ↦ handle_request S req (record s { input = rest })
      ]

      parsed :
          (packet : Bytes) (rest : List Bytes) (r : Result Error AuthRequest)
          → handled rest r ≡ again s'
          → s.input ≡ packet ∷ rest
          → limit_reached S.max_auth_tries s.auth_failures ≡ false
          → RoundGoes s s'
      parsed packet rest (err e) g q u = cc
      parsed packet rest (ok req) g q u =
          let (front, moved, kept, counted) =
            handle_request-again req (record s { input = rest }) s' t g in
          record {
            packet = packet;
            front = front;
            moved = q ∙ ap (λ l. packet ∷ l) moved;
            trusted = kept;
            counted = counted;
            under = u;
          }

      read :
          (input : List Bytes)
          → s.input ≡ input
          → read_request S input s ≡ again s'
          → limit_reached S.max_auth_tries s.auth_failures ≡ false
          → RoundGoes s s'
      read [] q g u = cc
      read (packet ∷ rest) q g u = parsed packet rest (parse_request packet) g q u

      go :
          (b : Bool)
          → limit_reached S.max_auth_tries s.auth_failures ≡ b
          → (if b then too_many s else read_request S s.input s) ≡ again s'
          → RoundGoes s s'
      go true e g = absurd (too_many-return s s' g)
      go false e g = read s.input refl g e

  pub round-IsGranted :
      (s s' : Session E) {perms : Option Permissions}
      → Trusted S S.public_key_callback s.cache
      → round S s ≡ return (ok perms) s'
      → IsGranted s.input perms
  unfolding round read_request
  round-IsGranted s s' {perms} t h = go (limit_reached S.max_auth_tries s.auth_failures) h
    where
      handled : List Bytes → Result Error AuthRequest → Step E
      handled rest r = elim r [
        | err e ↦ return (err (of_packet e)) (record s { input = rest })
        | ok req ↦ handle_request S req (record s { input = rest })
      ]

      parsed :
          (packet : Bytes) (rest : List Bytes) (r : Result Error AuthRequest)
          → parse_request packet ≡ r
          → handled rest r ≡ return (ok perms) s'
          → IsGranted (packet ∷ rest) perms
      parsed packet rest (err e) q g = cc
      parsed packet rest (ok req) q g =
          let (service, why) = handle_request-granted req (record s { input = rest }) s' t g in
          record {
            before = [];
            packet = packet;
            rest = rest;
            found = refl;
            req = req;
            parsed = q;
            service = service;
            justified = why;
          }

      read :
          (input : List Bytes)
          → read_request S input s ≡ return (ok perms) s'
          → IsGranted input perms
      read [] g = cc
      read (packet ∷ rest) g = parsed packet rest (parse_request packet) refl g

      go :
          (b : Bool)
          → (if b then too_many s else read_request S s.input s) ≡ return (ok perms) s'
          → IsGranted s.input perms
      go true g = absurd (too_many-not_granted s s' perms g)
      go false g = read s.input g
