-- ===== src/Handshake/Steps.antt =====
-- What each operation of the handshake transport puts on a connection that works.
use xcryptossh.Prelude.{
  ◌≡◌, refl, List, [], ◌∷◌, ◌++◌, Option, none, some, Bytes, Bool, Result, ok, err, arith,
  append_assoc, append-nil, ap, ◌∙◌, sym, Bool-cases, inl, inr,
}
use xcryptossh.Errors.{Error}
use xcryptossh.Messages.{KexInit}
use xcryptossh.Messages.Decode.{decode}
use xcryptossh.Negotiate.{Algorithms, offers, supported_kex_algos}
use xcryptossh.Channel.{Conn, conn_write}
use xcryptossh.Transport.{msg_new_keys}
use xcryptossh.Handshake.{Handshake, push_packet}
use xcryptossh.Handshake.Exchange.{
  Run, push_all, other_of, skip_guess, and_then, keep_session, finished_by, change_keys,
  run_algorithm, with_agreed, with_other, enter_key_exchange,
}
use xcryptossh.Handshake.Rounds.{push_pending}

-- What an operation that returns no error has done: `out` went out, and nothing else that matters
-- to writers has changed.
abbrev pub Sends : Handshake → List Bytes → Option Error × Handshake → Type 0
Sends s out (some e, s') = Unit
Sends s out (none, s') =
    (s'.conn.sent ≡ s.conn.sent ++ out)
    × (s'.conn.broken ≡ none)
    × (s'.pending ≡ s.pending)
    × (s'.write_error ≡ s.write_error)
    × (s'.sent_init ≡ s.sent_init)

conn_write_works :
    (p : Bytes) (c : Conn)
    → c.broken ≡ none
    → conn_write p c ≡ (none, record c { sent = c.sent ++ (p ∷ []) })
unfolding conn_write
conn_write_works p c h = ground arith

abbrev pub pushed : Bytes → Handshake → Handshake
pushed p s = record s { conn = record s.conn { sent = s.conn.sent ++ (p ∷ []) } }

pub push_packet_works :
    (p : Bytes) (s : Handshake) → s.conn.broken ≡ none → push_packet p s ≡ (none, pushed p s)
unfolding push_packet
push_packet_works p s h = ap (λ r. (r.0, record s { conn = r.1 })) (conn_write_works p s.conn h)

push_packet-Sends :
    (p : Bytes) (s : Handshake) → s.conn.broken ≡ none → Sends s (p ∷ []) (push_packet p s)
unfolding push_packet conn_write
push_packet-Sends p s h = rw h (refl, refl, refl, refl, refl)

-- One operation after the other.
and_then-Sends :
    (s : Handshake) (out more : List Bytes) (r : Option Error × Handshake)
    (next : Handshake → Option Error × Handshake)
    → Sends s out r
    → ((s' : Handshake) → s'.conn.broken ≡ none → Sends s' more (next s'))
    → Sends s (out ++ more) (and_then r next)
and_then-Sends s out more (some e, s') next h k = tt
and_then-Sends s out more (none, s') next h k = chain (next s') (k s' h.1)
  where
    chain : (r : Option Error × Handshake) → Sends s' more r → Sends s (out ++ more) r
    chain (some e, s'') g = tt
    chain (none, s'') g = (
      g.0 ∙ ap (λ l. l ++ more) h.0 ∙ append_assoc s.conn.sent out more,
      g.1,
      g.2 ∙ h.2,
      g.3 ∙ h.3,
      g.4 ∙ h.4,
    )

push_all-Sends :
    (ps : List Bytes) (s : Handshake) → s.conn.broken ≡ none → Sends s ps (push_all ps s)
unfolding push_all
push_all-Sends [] s h = (sym (append-nil s.conn.sent), h, refl, refl, refl)
push_all-Sends (p ∷ ps) s h = go (push_packet p s) (push_packet-Sends p s h) (push_all-Sends ps)
  where
    go :
        (r : Option Error × Handshake)
        → Sends s (p ∷ []) r
        → ((s' : Handshake) → s'.conn.broken ≡ none → Sends s' ps (push_all ps s'))
        → Sends s (p ∷ ps) (elim r.0 [ some x ↦ (some x, r.1) | none ↦ push_all ps r.1 ])
    go (some e, s') g k = tt
    go (none, s') g k = and_then-Sends s (p ∷ []) ps (none, s') (push_all ps) g k

keep_session-Sends :
    (e : Option Error) (h : Bytes) (s : Handshake)
    → s.conn.broken ≡ none
    → Sends s [] (e, keep_session h s)
keep_session-Sends (some e) h s works = tt
keep_session-Sends none h s works = (sym (append-nil s.conn.sent), works, refl, refl, refl)

finished_by-Sends : (e : Option Error) (s : Handshake) → s.conn.broken ≡ none → Sends s [] (e, s)
finished_by-Sends (some e) s works = tt
finished_by-Sends none s works = (sym (append-nil s.conn.sent), works, refl, refl, refl)

abbrev new_keys_packet : List Bytes
new_keys_packet = (msg_new_keys ∷ []) ∷ []

change_keys-Sends :
    (x : Run) (r : Result Error Bytes) (s : Handshake)
    → s.conn.broken ≡ none
    → Sends s new_keys_packet (change_keys x r s)
unfolding change_keys
change_keys-Sends x (err e) s works = tt
change_keys-Sends x (ok h) s works =
    and_then-Sends s [] new_keys_packet (x.prepared, keep_session h s) _
      (keep_session-Sends x.prepared h s works)
      (λ s1 works1.
        and_then-Sends s1 new_keys_packet [] (push_packet (msg_new_keys ∷ []) s1) _
          (push_packet-Sends (msg_new_keys ∷ []) s1 works1)
          (λ s2 works2. finished_by-Sends (finished_by x.last) s2 works2))

run_algorithm-Sends :
    (x : Run) (a : Algorithms) (wrong : Bool) (s : Handshake)
    → s.conn.broken ≡ none
    → Sends s (x.sends ++ new_keys_packet) (run_algorithm x a wrong s)
unfolding run_algorithm
run_algorithm-Sends x a wrong s works =
    and_then-Sends s [] (x.sends ++ new_keys_packet) (skip_guess wrong x.guessed, s) _
      (finished_by-Sends (skip_guess wrong x.guessed) s works)
      (λ s1 works1. elim (Bool-cases (offers supported_kex_algos a.kex)) [
        | inl known ↦ rw known (
            and_then-Sends s1 x.sends new_keys_packet (push_all x.sends s1) (change_keys x x.result)
              (push_all-Sends x.sends s1 works1) (change_keys-Sends x x.result))
        | inr unknown ↦ rw unknown tt
      ])

with_agreed-Sends :
    (x : Run) (wrong : Bool) (r : Result Error Algorithms) (s : Handshake)
    → s.conn.broken ≡ none
    → Sends s (x.sends ++ new_keys_packet) (with_agreed x wrong r s)
with_agreed-Sends x wrong (err e) s works = tt
with_agreed-Sends x wrong (ok a) s works =
    regard (run_algorithm x a wrong s') (run_algorithm-Sends x a wrong s' works)
  where
    s' : Handshake
    s' = record s { algorithms = some a }

    regard :
        (r : Option Error × Handshake)
        → Sends s' (x.sends ++ new_keys_packet) r
        → Sends s (x.sends ++ new_keys_packet) r
    regard (some e, t) g = tt
    regard (none, t) g = g

with_other-Sends :
    (x : Run) (mine : KexInit) (r : Result Error KexInit) (s : Handshake)
    → s.conn.broken ≡ none
    → Sends s (x.sends ++ new_keys_packet) (with_other x mine r s)
with_other-Sends x mine (err e) s works = tt
with_other-Sends x mine (ok other) s works = with_agreed-Sends x _ _ s works

pub enter_key_exchange-Sends :
    (x : Run) (mine : KexInit) (s : Handshake)
    → s.conn.broken ≡ none
    → Sends s (x.sends ++ ((msg_new_keys ∷ []) ∷ [])) (enter_key_exchange x mine s)
unfolding enter_key_exchange
enter_key_exchange-Sends x mine s works =
    with_other-Sends x mine (other_of (decode x.other_init)) s works

push_pending_works :
    (p : Bytes) (ps : List Bytes) (s : Handshake)
    → s.conn.broken ≡ none
    → push_pending (p ∷ ps) s ≡ push_pending ps (record (pushed p s) { write_error = none })
unfolding push_pending
push_pending_works p ps s works = ap next (push_packet_works p s works)
  where
    next : Option Error × Handshake → Handshake
    next (e, t) = elim e [
      | some x ↦ record t { write_error = some x }
      | none ↦ push_pending ps (record t { write_error = none })
    ]

-- The packets that waited all go out.
pub push_pending_lem :
    (ps : List Bytes) (s : Handshake)
    → s.conn.broken ≡ none
    → s.write_error ≡ none
    → ((push_pending ps s).conn.sent ≡ s.conn.sent ++ ps)
      × ((push_pending ps s).conn.broken ≡ none)
      × ((push_pending ps s).write_error ≡ none)
      × ((push_pending ps s).sent_init ≡ s.sent_init)
unfolding push_pending
push_pending_lem [] s works fine = (sym (append-nil s.conn.sent), works, fine, refl)
push_pending_lem (p ∷ ps) s works fine =
    let (sent, whole, kept, same) =
      push_pending_lem ps (record (pushed p s) { write_error = none }) works refl in
    let e = push_pending_works p ps s works in
    (
      ap (λ t. t.conn.sent) e ∙ sent ∙ append_assoc s.conn.sent (p ∷ []) ps,
      ap (λ t. t.conn.broken) e ∙ whole,
      ap (λ t. t.write_error) e ∙ kept,
      ap (λ t. t.sent_init) e ∙ same,
    )
