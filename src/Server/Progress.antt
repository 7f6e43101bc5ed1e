-- ===== src/Server/Progress.antt =====
-- One round of userAuthLoop in server.go, read backwards: what a round that goes on has done, and
-- what one that grants has seen.
use xcryptossh.Prelude.{
  ℕ, ◌+◌, ◌≤◌, ◌⊎◌, inl, inr, zero, suc, ◌≡◌, refl, subst, List, [], ◌∷◌, ◌++◌, Option, none, some,
  Bytes, false, Result, ok, err, arith,
}
use xcryptossh.Errors.{Error}
use xcryptossh.Messages.{user_auth_failure, encode}
use xcryptossh.Server.{Permissions, Refusal, Failure, of_packet, no_methods, Server, Session}
use xcryptossh.Server.Attempts.{
  Attempt, fatal, queried, granted, refused, Method, none', password, keyboard_interactive,
  public_key, unknown, reply,
}
use xcryptossh.Server.Rounds.{
  Step, return, again, count_failure, failure_methods, refuse_attempt, conclude, or_return,
}

pub count_failure-le : (m : Method) (n : ℕ) → count_failure m n ≤ n + 1
unfolding count_failure
count_failure-le none' zero = omega arith
count_failure-le none' (suc n) = omega arith
count_failure-le password n = omega arith
count_failure-le keyboard_interactive n = omega arith
count_failure-le public_key n = omega arith
count_failure-le unknown n = omega arith

module _ {E : Type 0} where
  -- From the end of an attempt to the next round: no packet is read, and at most one failure counts.
  pub record Goes (s s' : Session E) : Type 0 where
    pub same_input : s.input ≡ s'.input
    pub same_cache : s.cache ≡ s'.cache
    pub counted : s'.auth_failures ≤ s.auth_failures + 1

  reply-again :
      (packet : Bytes) (s s' : Session E)
      → or_return again (reply packet s) ≡ again s'
      → (reply packet s).1 ≡ s'
  reply-again packet s s' h = go (reply packet s) h
    where
      go : (r : Option Error × Session E) → or_return again r ≡ again s' → r.1 ≡ s'
      go (none, x) g = cc
      go (some e, x) g = cc

  reply-Goes :
      (packet : Bytes) (s s' : Session E) → or_return again (reply packet s) ≡ again s' → Goes s s'
  reply-Goes packet s s' h =
      subst (Goes s) (reply-again packet s s' h)
        (unfold reply in record { same_input = refl; same_cache = refl; counted = omega arith })

  reply-return :
      (packet : Bytes) (s s' : Session E) (r r' : Result (Failure E) (Option Permissions))
      → or_return (return r) (reply packet s) ≡ return r' s'
      → (r ≡ r') ⊎ ((e : Error) × (r' ≡ err (of_packet e)))
  reply-return packet s s' r r' h = go (reply packet s) h
    where
      go :
          (x : Option Error × Session E)
          → or_return (return r) x ≡ return r' s'
          → (r ≡ r') ⊎ ((e : Error) × (r' ≡ err (of_packet e)))
      go (none, x) g = inl cc
      go (some e, x) g = inr (e, cc)

  again-not-return :
      (packet : Bytes) (s s' : Session E) (perms : Option Permissions)
      → ¬ (or_return again (reply packet s) ≡ return (ok perms) s')
  again-not-return packet s s' perms h = go (reply packet s) h
    where
      go : (x : Option Error × Session E) → ¬ (or_return again x ≡ return (ok perms) s')
      go (none, x) g = cc
      go (some e, x) g = cc

module _ {K E IP Net : Type 0} (S : Server K E IP Net) where
  refuse_attempt-again :
      (m : Method) (e : Refusal E) (s s' : Session E)
      → refuse_attempt S m e s ≡ again s'
      → Goes s s'
  unfolding refuse_attempt
  refuse_attempt-again m e s s' h = go (failure_methods S) h
    where
      counted : Session E
      counted = record s {
        auth_errs = s.auth_errs ++ (e ∷ []);
        auth_failures = count_failure m s.auth_failures;
      }

      go :
          (names : List Bytes)
          → elim names as (λ _. Step E) [
            | [] ↦ return (err no_methods) counted
            | name ∷ names ↦
                or_return again (reply (encode (user_auth_failure (name ∷ names) false)) counted)
          ]
            ≡ again s'
          → Goes s s'
      go [] g = cc
      go (name ∷ names) g = subst (Goes s) (reply-again _ counted s' g) (
          unfold reply in
          record {
            same_input = refl;
            same_cache = refl;
            counted = count_failure-le m s.auth_failures;
          })

  refuse_attempt-not-granted :
      (m : Method) (e : Refusal E) (s s' : Session E) (perms : Option Permissions)
      → ¬ (refuse_attempt S m e s ≡ return (ok perms) s')
  unfolding refuse_attempt
  refuse_attempt-not-granted m e s s' perms h = go (failure_methods S) h
    where
      counted : Session E
      counted = record s {
        auth_errs = s.auth_errs ++ (e ∷ []);
        auth_failures = count_failure m s.auth_failures;
      }

      go :
          (names : List Bytes)
          → ¬ (
              elim names as (λ _. Step E) [
                | [] ↦ return (err no_methods) counted
                | name ∷ names ↦
                    or_return again
                      (reply (encode (user_auth_failure (name ∷ names) false)) counted)
              ]
              ≡ return (ok perms) s')
      go [] g = cc
      go (name ∷ names) g = again-not-return _ counted s' perms g

  pub conclude-again :
      (m : Method) (a : Attempt E) (s s' : Session E) → conclude S m (a, s) ≡ again s' → Goes s s'
  unfolding conclude
  conclude-again m (fatal e) s s' h = cc
  conclude-again m (queried algo key) s s' h = reply-Goes _ s s' h
  conclude-again m (granted perms) s s' h = go (reply (52 ∷ []) s) h
    where
      go : (r : Option Error × Session E) → or_return (return (ok perms)) r ≡ again s' → Goes s s'
      go (none, x) g = cc
      go (some e, x) g = cc
  conclude-again m (refused e) s s' h = refuse_attempt-again m e s s' h

  pub conclude-granted :
      (m : Method) (a : Attempt E) (s s' : Session E) {perms : Option Permissions}
      → conclude S m (a, s) ≡ return (ok perms) s'
      → a ≡ granted perms
  unfolding conclude
  conclude-granted m (fatal e) s s' h = cc
  conclude-granted m (queried algo key) s s' {perms} h = absurd (again-not-return _ s s' perms h)
  conclude-granted m (granted p) s s' h = elim (reply-return (52 ∷ []) s s' (ok p) _ h) [
    | inl e ↦ cc
    | inr (e, q) ↦ cc
  ]
  conclude-granted m (refused e) s s' {perms} h =
      absurd (refuse_attempt-not-granted m e s s' perms h)
