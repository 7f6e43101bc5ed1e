-- ===== src/Server/Address.antt =====
-- checkSourceAddress of server.go, against a description of the addresses that a list admits.
use xcryptossh.Prelude.{
  ◌≡◌, ◌⊎◌, refl, sym, subst, inl, inr, List, [], ◌∷◌, Option, none, some, Bytes, Bool, true, false,
  if◌then◌else◌, Result, ok, err, Some,
}
use xcryptossh.Wire.Strings.{split}
use xcryptossh.Certs.{source_address_critical_option}
use xcryptossh.Server.{
  Permissions, NetAddr, nowhere, elsewhere, tcp, Refusal, Server, option_value, source_entry,
  source_loop, check_source_address, restrict,
}

module _ {K E IP Net : Type 0} (S : Server K E IP Net) where
  -- An entry is the client's address, or a block with the client's address in it.
  pub data Admits (ip : IP) (source : Bytes) : Type 0 where
    exactly :
        (allowed : IP)
        → S.parse_ip source ≡ some allowed
        → S.equal_ip allowed ip ≡ true
        → Admits ip source
    within :
        (net : Net)
        → S.parse_ip source ≡ none
        → S.parse_cidr source ≡ some net
        → S.contains net ip ≡ true
        → Admits ip source

  -- What a callback's permissions ask of the client's address.
  abbrev pub FromAllowed : Option Permissions → Type 0
  FromAllowed none = Unit {0}
  FromAllowed (some perms) =
      (option_value source_address_critical_option perms.critical_options ≡ [])
      ⊎ ((ip : IP) × (S.remote_addr ≡ tcp ip)
          × Some (Admits ip)
              (split (option_value source_address_critical_option perms.critical_options)))

  source_entry-Admits :
      (ip : IP) (source : Bytes) → source_entry S ip source ≡ some none → Admits ip source
  unfolding source_entry
  source_entry-Admits ip source h = go (S.parse_ip source) refl h
    where
      answer : Bool → Option (Option (Refusal E))
      answer b = if b then some none else none

      blocked : Option Net → Option (Option (Refusal E))
      blocked o = elim o [
        | none ↦ some (some (Refusal.bad_source source))
        | some net ↦ if S.contains net ip then some none else none
      ]

      held :
          (net : Net) (b : Bool)
          → S.contains net ip ≡ b
          → answer b ≡ some none
          → S.parse_ip source ≡ none
          → S.parse_cidr source ≡ some net
          → Admits ip source
      held net true e g p q = within net p q e
      held net false e g p q = cc

      block :
          (o : Option Net)
          → S.parse_cidr source ≡ o
          → blocked o ≡ some none
          → S.parse_ip source ≡ none
          → Admits ip source
      block none e g p = cc
      block (some net) e g p = held net (S.contains net ip) refl g p e

      same :
          (allowed : IP) (b : Bool)
          → S.equal_ip allowed ip ≡ b
          → answer b ≡ some none
          → S.parse_ip source ≡ some allowed
          → Admits ip source
      same allowed true e g p = exactly allowed p e
      same allowed false e g p = cc

      go :
          (o : Option IP)
          → S.parse_ip source ≡ o
          → elim o as (λ _. Option (Option (Refusal E))) [
            | some allowed ↦ if S.equal_ip allowed ip then some none else none
            | none ↦ blocked (S.parse_cidr source)
          ]
            ≡ some none
          → Admits ip source
      go none e g = block (S.parse_cidr source) refl g e
      go (some allowed) e g = same allowed (S.equal_ip allowed ip) refl g e

  source_loop-Admits :
      (ip : IP) (sources : List Bytes) → source_loop S ip sources ≡ none → Some (Admits ip) sources
  unfolding source_loop
  source_loop-Admits ip [] h = cc
  source_loop-Admits ip (source ∷ sources) h =
      go (source_entry S ip source) refl (source_loop-Admits ip sources) h
    where
      go :
          (o : Option (Option (Refusal E)))
          → source_entry S ip source ≡ o
          → (source_loop S ip sources ≡ none → Some (Admits ip) sources)
          → elim o as (λ _. Option (Refusal E)) [
            | some answer ↦ answer
            | none ↦ source_loop S ip sources
          ]
            ≡ none
          → Some (Admits ip) (source ∷ sources)
      go none e later g = inr (later g)
      go (some none) e later g = inl (source_entry-Admits ip source e)
      go (some (some r)) e later g = cc

  -- An address passes the check only as a TCP address that an entry of the list admits.
  pub check_source_address-Admits :
      (addr : NetAddr IP) (sources : Bytes)
      → check_source_address S addr sources ≡ none
      → (ip : IP) × (addr ≡ tcp ip) × Some (Admits ip) (split sources)
  unfolding check_source_address
  check_source_address-Admits nowhere sources h = cc
  check_source_address-Admits elsewhere sources h = cc
  check_source_address-Admits (tcp ip) sources h =
      (ip, refl, source_loop-Admits ip (split sources) h)

  -- Permissions that pass are the callback's own, and the client's address is one that they allow.
  pub restrict-FromAllowed :
      (r : Result E (Option Permissions)) {perms : Option Permissions}
      → restrict S r ≡ ok perms
      → (r ≡ ok perms) × FromAllowed perms
  unfolding restrict
  restrict-FromAllowed (err e) h = cc
  restrict-FromAllowed (ok none) {perms = perms} h =
      let same : none ≡ perms = cc in
      let given : Result E (Option Permissions) = ok none in
      subst (λ (p : Option Permissions). (given ≡ ok p) × FromAllowed p) same (refl, tt)
  restrict-FromAllowed (ok (some p)) {perms = perms} h =
      go (option_value source_address_critical_option p.critical_options) refl h
    where
      given : Result E (Option Permissions)
      given = ok (some p)

      passed : Option (Refusal E) → Result (Refusal E) (Option Permissions)
      passed o = elim o [ none ↦ ok (some p) | some e ↦ err e ]

      held : (o : Option (Refusal E)) → passed o ≡ ok perms → (o ≡ none) × (some p ≡ perms)
      held none g = (refl, cc)
      held (some e) g = cc

      go :
          (bytes : Bytes)
          → option_value source_address_critical_option p.critical_options ≡ bytes
          → elim bytes as (λ _. Result (Refusal E) (Option Permissions)) [
            | [] ↦ ok (some p)
            | b ∷ bs ↦ passed (check_source_address S S.remote_addr (b ∷ bs))
          ]
            ≡ ok perms
          → (given ≡ ok perms) × FromAllowed perms
      go [] e g =
          let same : some p ≡ perms = cc in
          subst (λ (q : Option Permissions). (given ≡ ok q) × FromAllowed q) same (refl, inl e)
      go (b ∷ bs) e g =
          let (passes, same) = held (check_source_address S S.remote_addr (b ∷ bs)) g in
          let (ip, addr, entry) = check_source_address-Admits S.remote_addr (b ∷ bs) passes in
          subst (λ (q : Option Permissions). (given ≡ ok q) × FromAllowed q) same
            (refl, inr (ip, addr, subst (λ (o : Bytes). Some (Admits ip) (split o)) (sym e) entry))
