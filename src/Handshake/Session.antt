-- ===== src/Handshake/Session.antt =====
-- The session id of handshake.go: it is the hash of the first exchange, and stays.
use xcryptossh.Prelude.{
  ℕ, ◌≡◌, refl, List, [], ◌∷◌, Option, none, some, Bytes, Bool, true, false, Result, ok, err, ap,
  ◌∙◌, Bool-cases, inl, inr, length,
}
use xcryptossh.Errors.{Error}
use xcryptossh.Messages.{KexInit, kex_init, encode}
use xcryptossh.Messages.Decode.{decode}
use xcryptossh.Negotiate.{Algorithms, offers, supported_kex_algos}
use xcryptossh.Transport.{is_type, msg_new_keys}
use xcryptossh.Handshake.{
  Handshake, SentInit, push_packet, send_kex_init, write_packet, count_write, count_read, own_init,
  keep_init, unless_sent, record_write_error, written, is_some,
}
use xcryptossh.Handshake.Exchange.{
  Run, push_all, other_of, skip_guess, and_then, keep_session, change_keys, run_algorithm,
  with_agreed, with_other, enter_key_exchange, first_hash,
}
use xcryptossh.Handshake.Rounds.{
  push_pending, finish_exchange, kex_round, start_round, enter_and_finish, unless_error, init_sent,
}
use xcryptossh.Handshake.Order.{route}

-- Every ending of an operation, with an error or without, has the session id.
abbrev Has : Bytes → Option Error × Handshake → Type 0
Has id r = r.1.session_id ≡ some id

and_then-Has :
    (id : Bytes) (r : Option Error × Handshake) (next : Handshake → Option Error × Handshake)
    → Has id r
    → ((s : Handshake) → s.session_id ≡ some id → Has id (next s))
    → Has id (and_then r next)
and_then-Has id (some e, s) next h k = h
and_then-Has id (none, s) next h k = k s h

push_packet-session_id : (p : Bytes) (s : Handshake) → (push_packet p s).1.session_id ≡ s.session_id
unfolding push_packet
push_packet-session_id p s = refl

push_all-Has :
    (id : Bytes) (ps : List Bytes) (s : Handshake) → s.session_id ≡ some id → Has id (push_all ps s)
unfolding push_all
push_all-Has id [] s h = h
push_all-Has id (p ∷ ps) s h =
    go (push_packet p s) (push_packet-session_id p s ∙ h) (push_all-Has id ps)
  where
    go :
        (r : Option Error × Handshake)
        → Has id r
        → ((s' : Handshake) → s'.session_id ≡ some id → Has id (push_all ps s'))
        → Has id (elim r.0 [ some x ↦ (some x, r.1) | none ↦ push_all ps r.1 ])
    go (some e, s') g k = g
    go (none, s') g k = k s' g

change_keys-Has :
    (id : Bytes) (x : Run) (r : Result Error Bytes) (s : Handshake)
    → s.session_id ≡ some id
    → Has id (change_keys x r s)
unfolding change_keys
change_keys-Has id x (err e) s h = h
change_keys-Has id x (ok hash) s h =
    and_then-Has id (x.prepared, keep_session hash s) _ (ap (λ o. first_hash o hash) h)
      λ s1 h1. and_then-Has id (push_packet (msg_new_keys ∷ []) s1) _ h1 (λ s2 h2. h2)

run_algorithm-Has :
    (id : Bytes) (x : Run) (a : Algorithms) (wrong : Bool) (s : Handshake)
    → s.session_id ≡ some id
    → Has id (run_algorithm x a wrong s)
unfolding run_algorithm
run_algorithm-Has id x a wrong s h =
    and_then-Has id (skip_guess wrong x.guessed, s) _ h
      λ s1 h1. elim (Bool-cases (offers supported_kex_algos a.kex)) [
        | inl known ↦ rw known (
            and_then-Has id (push_all x.sends s1) (change_keys x x.result)
              (push_all-Has id x.sends s1 h1) (change_keys-Has id x x.result))
        | inr unknown ↦ rw unknown h1
      ]

with_agreed-Has :
    (id : Bytes) (x : Run) (wrong : Bool) (r : Result Error Algorithms) (s : Handshake)
    → s.session_id ≡ some id
    → Has id (with_agreed x wrong r s)
with_agreed-Has id x wrong (err e) s h = h
with_agreed-Has id x wrong (ok a) s h =
    run_algorithm-Has id x a wrong (record s { algorithms = some a }) h

with_other-Has :
    (id : Bytes) (x : Run) (mine : KexInit) (r : Result Error KexInit) (s : Handshake)
    → s.session_id ≡ some id
    → Has id (with_other x mine r s)
with_other-Has id x mine (err e) s h = h
with_other-Has id x mine (ok other) s h = with_agreed-Has id x _ _ s h

enter_key_exchange-Has :
    (id : Bytes) (x : Run) (mine : KexInit) (s : Handshake)
    → s.session_id ≡ some id
    → Has id (enter_key_exchange x mine s)
unfolding enter_key_exchange
enter_key_exchange-Has id x mine s h = with_other-Has id x mine (other_of (decode x.other_init)) s h

push_pending-session_id :
    (ps : List Bytes) (s : Handshake) → (push_pending ps s).session_id ≡ s.session_id
unfolding push_pending
push_pending-session_id [] s = refl
push_pending-session_id (p ∷ ps) s =
    go (push_packet p s) (push_packet-session_id p s) (push_pending-session_id ps)
  where
    go :
        (r : Option Error × Handshake)
        → r.1.session_id ≡ s.session_id
        → ((s' : Handshake) → (push_pending ps s').session_id ≡ s'.session_id)
        → (elim r.0 as (λ _. Handshake) [
          | some x ↦ record r.1 { write_error = some x }
          | none ↦ push_pending ps (record r.1 { write_error = none })
        ]).session_id
          ≡ s.session_id
    go (some e, s') g k = g
    go (none, s') g k = k (record s' { write_error = none }) ∙ g

send_kex_init-Has :
    (id : Bytes) (cookie : Bytes) (s : Handshake)
    → s.session_id ≡ some id
    → Has id (send_kex_init cookie s)
unfolding send_kex_init
send_kex_init-Has id cookie s h =
    let p = encode (kex_init (own_init cookie s.settings)) in
    go s.sent_init (push_packet p s) (push_packet-session_id p s ∙ h)
  where
    go :
        (o : Option SentInit) (r : Option Error × Handshake)
        → Has id r
        → Has id (unless_sent o (keep_init (own_init cookie s.settings) r) s)
    go none (none, s') g = g
    go none (some e, s') g = g
    go (some i) r g = h

finish_exchange-Has :
    (id : Bytes) (r : Option Error × Handshake) → Has id r → Has id (r.0, finish_exchange r.0 r.1)
unfolding finish_exchange
finish_exchange-Has id (e, s) h = push_pending-session_id s.pending _ ∙ h

record_write_error-session_id :
    (e : Error) (s : Handshake) → (record_write_error e s).session_id ≡ s.session_id
record_write_error-session_id e s = go s.write_error
  where
    go :
        (o : Option Error)
        → (elim o as (λ _. Handshake) [
          | none ↦ record s { write_error = some e }
          | some x ↦ s
        ]).session_id
          ≡ s.session_id
    go none = refl
    go (some x) = refl

kex_round-Has :
    (id : Bytes) (cookie : Bytes) (x : Run) (s : Handshake)
    → s.session_id ≡ some id
    → Has id (kex_round cookie x s)
unfolding kex_round
kex_round-Has id cookie x s h = after (send_kex_init cookie s) (send_kex_init-Has id cookie s h)
  where
    enters :
        (o : Option SentInit) (s' : Handshake)
        → s'.session_id ≡ some id
        → Has id (enter_and_finish x o s')
    enters none s' g = g
    enters (some i) s' g =
        finish_exchange-Has id (enter_key_exchange x i.msg s')
          (enter_key_exchange-Has id x i.msg s' g)

    goes_on :
        (o : Option Error) (s' : Handshake) → s'.session_id ≡ some id → Has id (unless_error o x s')
    goes_on (some e) s' g = g
    goes_on none s' g = enters s'.sent_init s' g

    after : (r : Option Error × Handshake) → Has id r → Has id (init_sent x r)
    after (some e, s') g = record_write_error-session_id e s' ∙ g
    after (none, s') g = goes_on s'.write_error s' g

start_round-session_id :
    (id : Bytes) (cookie : Bytes) (s : Handshake)
    → s.session_id ≡ some id
    → (start_round cookie s).session_id ≡ some id
unfolding start_round
start_round-session_id id cookie s h =
    after (send_kex_init cookie s) (send_kex_init-Has id cookie s h)
  where
    after :
        (r : Option Error × Handshake)
        → Has id r
        → (elim r.0 as (λ _. Handshake) [
          | some x ↦ record_write_error x r.1
          | none ↦ r.1
        ]).session_id
          ≡ some id
    after (some e, s') g = record_write_error-session_id e s' ∙ g
    after (none, s') g = g

write_packet-Has :
    (id : Bytes) (p : Bytes) (s : Handshake) → s.session_id ≡ some id → Has id (write_packet p s)
unfolding write_packet
write_packet-Has id p s h =
    routed (is_type 20 p) (is_type msg_new_keys p) s.write_error (is_some s.sent_init)
      (push_packet p (count_write (length p) s))
      (push_packet-session_id p (count_write (length p) s) ∙ h)
  where
    out : (r : Option Error × Handshake) → Has id r → (written r).session_id ≡ some id
    out (none, s') g = g
    out (some e, s') g = g

    routed :
        (a b : Bool) (e : Option Error) (busy : Bool) (r : Option Error × Handshake)
        → Has id r
        → Has id (route a b e busy r p s)
    routed true b e busy r g = h
    routed false true e busy r g = h
    routed false false (some x) busy r g = h
    routed false false none true r g = h
    routed false false none false r g = out r g

-- What can happen to the transport: a write, the start of an exchange, a round with the peer's
-- kexInit, whatever it comes to, and a packet that is received.
pub data Event : Type 0 where
  write : Bytes → Event
  ask : Bytes → Event
  exchange : Bytes → Run → Event
  receive : ℕ → Event

pub meet : Event → Handshake → Handshake
unfolding write_packet start_round kex_round count_read
meet (write p) s = (write_packet p s).1
meet (ask cookie) s = start_round cookie s
meet (exchange cookie x) s = (kex_round cookie x s).1
meet (receive n) s = count_read n s

pub meet_all : List Event → Handshake → Handshake
meet_all [] s = s
meet_all (e ∷ es) s = meet_all es (meet e s)

meet-session_id :
    (e : Event) (s : Handshake) (id : Bytes)
    → s.session_id ≡ some id
    → (meet e s).session_id ≡ some id
unfolding meet
meet-session_id (write p) s id h = write_packet-Has id p s h
meet-session_id (ask cookie) s id h = start_round-session_id id cookie s h
meet-session_id (exchange cookie x) s id h = kex_round-Has id cookie x s h
meet-session_id (receive n) s id h = h

-- Once there is a session id, it stays through all later writes, started exchanges, exchanges with
-- the peer, the failed ones included, and received packets.
pub session_id-meet_all :
    (es : List Event) (s : Handshake) (id : Bytes)
    → s.session_id ≡ some id
    → (meet_all es s).session_id ≡ some id
unfolding meet_all
session_id-meet_all [] s id h = h
session_id-meet_all (e ∷ es) s id h =
    session_id-meet_all es (meet e s) id (meet-session_id e s id h)
