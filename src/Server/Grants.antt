-- ===== src/Server/Grants.antt =====
-- serverAuthenticate of server.go: what a run that grants has seen.
use xcryptossh.Prelude.{
  ◌≡◌, refl, subst, List, Option, none, some, Bytes, Bool, true, false, if◌then◌else◌, Result, ok,
  codes, bytes_eq, bytes_eq→eq,
}
use xcryptossh.Server.{Permissions, Refusal, Dialogue, Server, Session}
use xcryptossh.Server.Cache.{Trusted}
use xcryptossh.Server.Attempts.{
  AuthRequest, Attempt, granted, refused, Method, none', password, keyboard_interactive, public_key,
  unknown, method_of, attempt, check_password, converse, outcome, check_public_key,
}
use xcryptossh.Server.Trust.{
  GrantsPassword, GrantsKey, check_password-granted, check_public_key-granted, outcome-granted,
}

abbrev HasName : Bytes → Method → Type 0
HasName name none' = name ≡ codes "none"
HasName name password = name ≡ codes "password"
HasName name keyboard_interactive = name ≡ codes "keyboard-interactive"
HasName name public_key = name ≡ codes "publickey"
HasName name unknown = Unit {0}

method_of-HasName : (name : Bytes) → HasName name (method_of name)
unfolding method_of
method_of-HasName name =
    step (codes "none") none' _ (λ e. e)
      (step (codes "password") password _ (λ e. e)
        (step (codes "keyboard-interactive") keyboard_interactive _ (λ e. e)
          (step (codes "publickey") public_key _ (λ e. e) tt)))
  where
    step :
        (word : Bytes) (m later : Method)
        → (name ≡ word → HasName name m)
        → HasName name later
        → HasName name (if bytes_eq name word then m else later)
    step word m later here next = choose (bytes_eq name word) refl
      where
        choose : (b : Bool) → bytes_eq name word ≡ b → HasName name (if b then m else later)
        choose true e = here (bytes_eq→eq name word e)
        choose false e = next

module _ {K E IP Net : Type 0} (S : Server K E IP Net) where
  -- Why a request behind which the packets `rest` come is granted.
  pub data IsJustified (req : AuthRequest) (rest : List Bytes) (perms : Option Permissions)
      : Type 0 where
    by_none :
        req.method ≡ codes "none"
        → S.no_client_auth ≡ true
        → perms ≡ none
        → IsJustified req rest perms
    by_password :
        (f : Bytes → Bytes → Result E (Option Permissions))
        → req.method ≡ codes "password"
        → S.password_callback ≡ some f
        → GrantsPassword (f req.user) req.payload perms
        → IsJustified req rest perms
    by_interactive :
        (f : Bytes → Dialogue E) (s : Session E)
        → req.method ≡ codes "keyboard-interactive"
        → S.interactive_callback ≡ some f
        → s.input ≡ rest
        → (converse (f req.user) s).0 ≡ ok perms
        → IsJustified req rest perms
    by_public_key :
        (f : Bytes → K → Result E (Option Permissions))
        → req.method ≡ codes "publickey"
        → S.public_key_callback ≡ some f
        → GrantsKey S f req perms
        → IsJustified req rest perms

  pub attempt-granted :
      (req : AuthRequest) (m : Method) (s : Session E) {perms : Option Permissions}
      → method_of req.method ≡ m
      → Trusted S S.public_key_callback s.cache
      → (attempt S req m s).0 ≡ granted perms
      → IsJustified req s.input perms
  unfolding attempt
  attempt-granted req none' s {perms} m trusted h =
      go S.no_client_auth refl h (subst (HasName req.method) m (method_of-HasName req.method))
    where
      go :
          (b : Bool)
          → S.no_client_auth ≡ b
          → (if b then outcome {E = E} (ok none) else refused Refusal.not_passed) ≡ granted perms
          → req.method ≡ codes "none"
          → IsJustified req s.input perms
      go true e g name = by_none name e cc
      go false e g name = cc
  attempt-granted req password s {perms} m trusted h =
      go S.password_callback refl h (subst (HasName req.method) m (method_of-HasName req.method))
    where
      go :
          (o : Option (Bytes → Bytes → Result E (Option Permissions)))
          → S.password_callback ≡ o
          → (elim o as (λ _. Attempt E × Session E) [
            | none ↦ (refused Refusal.not_configured, s)
            | some f ↦ (check_password (f req.user) req.payload, s)
          ]).0
            ≡ granted perms
          → req.method ≡ codes "password"
          → IsJustified req s.input perms
      go none e g name = cc
      go (some f) e g name =
          by_password f name e (check_password-granted (f req.user) req.payload g)
  attempt-granted req keyboard_interactive s {perms} m trusted h =
      go S.interactive_callback refl h (subst (HasName req.method) m (method_of-HasName req.method))
    where
      go :
          (o : Option (Bytes → Dialogue E))
          → S.interactive_callback ≡ o
          → (elim o as (λ _. Attempt E × Session E) [
            | none ↦ (refused Refusal.not_configured, s)
            | some f ↦ (outcome (converse (f req.user) s).0, (converse (f req.user) s).1)
          ]).0
            ≡ granted perms
          → req.method ≡ codes "keyboard-interactive"
          → IsJustified req s.input perms
      go none e g name = cc
      go (some f) e g name =
          by_interactive f s name e refl (outcome-granted (converse (f req.user) s).0 g)
  attempt-granted req public_key s {perms} m trusted h =
      go S.public_key_callback refl trusted h
        (subst (HasName req.method) m (method_of-HasName req.method))
    where
      go :
          (o : Option (Bytes → K → Result E (Option Permissions)))
          → S.public_key_callback ≡ o
          → Trusted S o s.cache
          → (elim o as (λ _. Attempt E × Session E) [
            | none ↦ (refused Refusal.not_configured, s)
            | some f ↦ check_public_key S f req req.payload s
          ]).0
            ≡ granted perms
          → req.method ≡ codes "publickey"
          → IsJustified req s.input perms
      go none e t g name = cc
      go (some f) e t g name =
          by_public_key f name e (check_public_key-granted S f req s req.payload refl t g)
  attempt-granted req unknown s m trusted h = cc
