-- ===== src/Server/Sound.antt =====
-- serverAuthenticate of server.go from its start: it returns, and what it grants is justified.
use xcryptossh.Prelude.{
  ℕ, ◌<◌, zero, suc, ◌≡◌, refl, ap, sym, subst, ◌∙◌, List, [], ◌∷◌, ◌++◌, Option, none, some, Bytes,
  Result, ok, arith, length, length-append, append_assoc,
}
use xcryptossh.Errors.{Error}
use xcryptossh.Channel.{Conn}
use xcryptossh.Server.{Permissions, Failure, Server, Session}
use xcryptossh.Server.Cache.{Trusted}
use xcryptossh.Server.Rounds.{Step, return, again, round, server_authenticate}
use xcryptossh.Server.Runs.{IsGranted, round-again, round-IsGranted}

-- The variables at the start of serverAuthenticate.
abbrev pub new_session : {E : Type 0} → List Bytes → Error → Conn → Session E
new_session input end conn = record {
  input = input;
  end = end;
  conn = conn;
  cache = [];
  auth_failures = 0;
  auth_errs = [];
}

module _ {K E IP Net : Type 0} (S : Server K E IP Net) where
  pub new-Trusted : (o : Option (Bytes → K → Result E (Option Permissions))) → Trusted S o []
  new-Trusted none = tt
  new-Trusted (some f) = tt

  later-IsGranted :
      (front input : List Bytes) {perms : Option Permissions}
      → IsGranted S input perms
      → IsGranted S (front ++ input) perms
  later-IsGranted front input g = record {
    before = front ++ g.before;
    packet = g.packet;
    rest = g.rest;
    found = ap (λ l. front ++ l) g.found ∙ sym (append_assoc front g.before (g.packet ∷ g.rest));
    req = g.req;
    parsed = g.parsed;
    service = g.service;
    justified = g.justified;
  }

  run-IsGranted :
      (fuel : ℕ) (s s' : Session E) {perms : Option Permissions}
      → Trusted S S.public_key_callback s.cache
      → server_authenticate fuel S s ≡ some (ok perms, s')
      → IsGranted S s.input perms
  unfolding server_authenticate
  run-IsGranted zero s s' t h = cc
  run-IsGranted (suc fuel) s s' {perms = perms} t h =
      go (round S s) refl (λ x. run-IsGranted fuel x s') h
    where
      go :
          (r : Step E)
          → round S s ≡ r
          → ((x : Session E)
              → Trusted S S.public_key_callback x.cache
              → server_authenticate fuel S x ≡ some (ok perms, s')
              → IsGranted S x.input perms)
          → elim r as (λ _. Option (Result (Failure E) (Option Permissions) × Session E)) [
            | return r x ↦ some (r, x)
            | again x ↦ server_authenticate fuel S x
          ]
            ≡ some (ok perms, s')
          → IsGranted S s.input perms
      go (return r x) e later g =
          let ends : r ≡ ok perms = cc in round-IsGranted S s x t (e ∙ ap (λ q. return q x) ends)
      go (again x) e later g =
          let goes = round-again S s x t e in
          subst (λ (l : List Bytes). IsGranted S l perms) (sym goes.moved)
            (later-IsGranted (goes.packet ∷ goes.front) x.input (later x goes.trusted g))

  -- A client is let in only for a request among its packets that earns it: for service
  -- ssh-connection, and by method `none` where the configuration allows that, by a password that
  -- the callback accepts, by a dialogue with the callback that ends in acceptance over the packets
  -- behind the request, or by a key that the callback accepts for the user, that this client's
  -- address may use, and whose signature over the data for this session and request verifies. The
  -- permissions are the callback's, and none with `none`. The cache of keys starts empty.
  pub server_authenticate-IsGranted :
      (fuel : ℕ) (input : List Bytes) (end : Error) (conn : Conn) (s' : Session E)
      {perms : Option Permissions}
      → server_authenticate fuel S (new_session input end conn) ≡ some (ok perms, s')
      → IsGranted S input perms
  server_authenticate-IsGranted fuel input end conn s' h =
      run-IsGranted fuel (new_session input end conn) s' (new-Trusted S.public_key_callback) h

  run-returns :
      (fuel : ℕ) (s : Session E)
      → Trusted S S.public_key_callback s.cache
      → length s.input < fuel
      → (out : Result (Failure E) (Option Permissions) × Session E) × (server_authenticate fuel S s
          ≡ some out)
  unfolding server_authenticate
  run-returns zero s t h = elim h [ ]
  run-returns (suc fuel) s t h = go (round S s) refl (λ x. run-returns fuel x)
    where
      go :
          (r : Step E)
          → round S s ≡ r
          → ((x : Session E)
              → Trusted S S.public_key_callback x.cache
              → length x.input < fuel
              → (out : Result (Failure E) (Option Permissions) × Session E) × (server_authenticate
                    fuel S x
                  ≡ some out))
          → (out : Result (Failure E) (Option Permissions) × Session E) × (elim r
                as (λ _. Option (Result (Failure E) (Option Permissions) × Session E)) [
                  | return r x ↦ some (r, x)
                  | again x ↦ server_authenticate fuel S x
                ]
              ≡ some out)
      go (return r x) e later = ((r, x), refl)
      go (again x) e later =
          let goes = round-again S s x t e in
          later x goes.trusted
            (omega (arith, ap length goes.moved, length-append goes.front x.input))

  -- The loop returns, whatever the client sends and the callbacks say: every round reads a packet,
  -- so a round more than there are packets is enough.
  pub server_authenticate_returns :
      (input : List Bytes) (end : Error) (conn : Conn)
      → (out : Result (Failure E) (Option Permissions) × Session E) × (server_authenticate
            (suc (length input))
            S
            (new_session input end conn)
          ≡ some out)
  server_authenticate_returns input end conn =
      run-returns (suc (length input)) (new_session input end conn)
        (new-Trusted S.public_key_callback) (omega arith)
