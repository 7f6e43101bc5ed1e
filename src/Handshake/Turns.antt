-- ===== src/Handshake/Turns.antt =====
-- The packets of the wire as the handshake transport of handshake.go sees them: whose turn it is, and
-- which of them are payloads.
use xcryptossh.Prelude.{
  ℕ, ◌≡◌, inl, inr, refl, List, [], ◌∷◌, ◌++◌, Option, none, some, Bytes, Bool, true, false, ◌==◌,
  leb, ◌&&◌, if◌then◌else◌, append-nil, ap, ap₂, ◌∙◌, Bool-cases, All,
}
use xcryptossh.Messages.{KexInit, kex_init, encode}
use xcryptossh.Wire.Structs.RoundTrip.{marshal_tagged}
use xcryptossh.Transport.{msg_new_keys}

-- What a packet is to the transport, by its message number: 30 to 49 belong to the algorithms.
pub data Kind : Type 0 where
  init new_keys kex payload : Kind

abbrev pub kind_at : ℕ → Kind
kind_at t =
    if t == 20
    then init
    else if t == 21
    then new_keys
    else if leb 30 t && leb t 49
    then kex
    else payload

abbrev pub kind : Bytes → Kind
kind [] = payload
kind (t ∷ body) = kind_at t

-- Whose turn it is: `true` from a kexInit to the newKeys that ends its exchange. `none`: out of turn.
abbrev pub next_turn : Bool → Kind → Option Bool
next_turn false init = some true
next_turn false payload = some false
next_turn true kex = some true
next_turn true new_keys = some false
next_turn _ _ = none

unfoldable pub turns : Bool → List Bytes → Option Bool
turns b [] = some b
turns b (p ∷ ps) = elim (next_turn b (kind p)) [ none ↦ none | some b' ↦ turns b' ps ]

abbrev pub is_payload : Kind → Bool
is_payload payload = true
is_payload _ = false

unfoldable pub payloads : List Bytes → List Bytes
payloads [] = []
payloads (p ∷ ps) = let rest = payloads ps in if is_payload (kind p) then p ∷ rest else rest

pub payloads-append : (xs ys : List Bytes) → payloads (xs ++ ys) ≡ payloads xs ++ payloads ys
unfolding payloads
payloads-append [] ys = refl
payloads-append (x ∷ xs) ys = elim (Bool-cases (is_payload (kind x))) [
  | inl e ↦ rw e (ap (λ l. x ∷ l) (payloads-append xs ys))
  | inr e ↦ rw e (payloads-append xs ys)
]

turns_step :
    (b : Bool) (x : Bytes) (xs : List Bytes) {b' : Bool}
    → turns b (x ∷ xs) ≡ some b'
    → (b1 : Bool) × (next_turn b (kind x) ≡ some b1) × (turns b1 xs ≡ some b')
unfolding turns
turns_step b x xs {b'} h = go (next_turn b (kind x)) h
  where
    go :
        (o : Option Bool)
        → elim o [ none ↦ none | some b1 ↦ turns b1 xs ] ≡ some b'
        → (b1 : Bool) × (o ≡ some b1) × (turns b1 xs ≡ some b')
    go none g = cc
    go (some b1) g = (b1, refl, g)

pub turns_cons :
    (b b1 : Bool) (x : Bytes) (xs : List Bytes)
    → next_turn b (kind x) ≡ some b1
    → turns b (x ∷ xs) ≡ turns b1 xs
unfolding turns
turns_cons b b1 x xs h = ap (λ (o : Option Bool). elim o [ none ↦ none | some c ↦ turns c xs ]) h

pub turns-append :
    (b : Bool) (xs ys : List Bytes) {b' : Bool}
    → turns b xs ≡ some b'
    → turns b (xs ++ ys) ≡ turns b' ys
unfolding turns
turns-append b [] ys h = ap (λ c. turns c ys) cc
turns-append b (x ∷ xs) ys h =
    let (b1, e, rest) = turns_step b x xs h in
    turns_cons b b1 x (xs ++ ys) e ∙ turns-append b1 xs ys rest

-- The exchange's own packets are in turn, and no payload.
pub exchange_turns :
    (ps : List Bytes)
    → All (λ p. kind p ≡ kex) ps
    → turns true (ps ++ ((msg_new_keys ∷ []) ∷ [])) ≡ some false
unfolding turns
exchange_turns [] h = refl
exchange_turns (p ∷ ps) h =
    turns_cons true true p _ (ap (next_turn true) h.0) ∙ exchange_turns ps h.1

pub exchange_payloads :
    (ps : List Bytes)
    → All (λ p. kind p ≡ kex) ps
    → payloads (ps ++ ((msg_new_keys ∷ []) ∷ [])) ≡ []
unfolding payloads
exchange_payloads [] h = refl
exchange_payloads (p ∷ ps) h = rw (h.0, is_payload) (exchange_payloads ps h.1)

pub payload_turns : (ps : List Bytes) → All (λ p. kind p ≡ payload) ps → turns false ps ≡ some false
unfolding turns
payload_turns [] h = refl
payload_turns (p ∷ ps) h =
    turns_cons false false p ps (ap (next_turn false) h.0) ∙ payload_turns ps h.1

pub payloads_id : (ps : List Bytes) → All (λ p. kind p ≡ payload) ps → payloads ps ≡ ps
unfolding payloads
payloads_id [] h = refl
payloads_id (p ∷ ps) h = rw (h.0, is_payload) (ap (λ l. p ∷ l) (payloads_id ps h.1))

pub kind-encode : (k : KexInit) → kind (encode (kex_init k)) ≡ init
unfolding encode
kind-encode k = ap kind (marshal_tagged 20 _)

-- A packet that is no payload adds none.
pub payloads_of_init : (m : KexInit) → payloads (encode (kex_init m) ∷ []) ≡ []
unfolding payloads
payloads_of_init m = rw (kind-encode m, is_payload) refl

-- An exchange's end, and then what waited.
pub closing :
    (sent xs wait : List Bytes)
    → turns false sent ≡ some true
    → All (λ p. kind p ≡ kex) xs
    → All (λ p. kind p ≡ payload) wait
    → (turns false ((sent ++ (xs ++ ((msg_new_keys ∷ []) ∷ []))) ++ wait) ≡ some false)
      × (payloads ((sent ++ (xs ++ ((msg_new_keys ∷ []) ∷ []))) ++ wait) ≡ payloads sent ++ wait)
closing sent xs wait open_turn own waits = (
  turns-append false (sent ++ out) wait
        (turns-append false sent out open_turn ∙ exchange_turns xs own)
      ∙ payload_turns wait waits,
  payloads-append (sent ++ out) wait
      ∙ ap₂ ◌++◌
          (payloads-append sent out
            ∙ ap (λ l. payloads sent ++ l) (exchange_payloads xs own)
            ∙ append-nil _)
          (payloads_id wait waits),
)
  where
    out : List Bytes
    out = xs ++ ((msg_new_keys ∷ []) ∷ [])
