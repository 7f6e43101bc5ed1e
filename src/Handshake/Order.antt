-- ===== src/Handshake/Order.antt =====
-- Order on the wire: what writers hand over goes out in order, and not during a key exchange.
use xcryptossh.Prelude.{
  ℕ, ◌≡◌, ◌⊎◌, inl, inr, refl, List, [], ◌∷◌, ◌++◌, Option, none, some, Bytes, Bool, true, false,
  ◌==◌, if◌then◌else◌, arith, append_assoc, append-nil, ap, ap₂, subst, ◌∙◌, sym, Bool-cases,
  Option-cases, All, length,
}
use xcryptossh.Errors.{Error}
use xcryptossh.Messages.{KexInit, kex_init, encode}
use xcryptossh.Transport.{msg_new_keys}
use xcryptossh.Handshake.{
  Handshake, SentInit, unless_failed, written, unless_sent, keep_init, push_packet, send_kex_init,
  write_packet, count_write, count_read, is_some, own_init, reset_write_thresholds,
  record_write_error,
}
use xcryptossh.Handshake.Exchange.{Run, enter_key_exchange}
use xcryptossh.Handshake.Rounds.{
  finish_exchange, kex_round, start_round, enter_and_finish, init_sent, unless_error,
}
use xcryptossh.Handshake.Steps.{
  pushed, push_packet_works, Sends, enter_key_exchange-Sends, push_pending_lem,
}
use xcryptossh.Handshake.Turns.{
  kex, payload, kind_at, kind, next_turn, turns, payloads, turns_cons, turns-append, payload_turns,
  payloads_id, payloads-append, kind-encode, payloads_of_init, closing,
}

-- `ps` was handed over so far: it has gone out, or waits in order. While no exchange runs, none waits.
pub record IsOrdered (ps : List Bytes) (t : Handshake) : Type 0 where
  pub delivered : payloads t.conn.sent ++ t.pending ≡ ps
  pub in_turn : turns false t.conn.sent ≡ some (is_some t.sent_init)
  pub works : t.conn.broken ≡ none
  pub fine : t.write_error ≡ none
  pub waits : All (λ p. kind p ≡ payload) t.pending
  pub idle : (is_some t.sent_init ≡ true) ⊎ (t.pending ≡ [])

payload_number : (k : ℕ) → kind_at k ≡ payload → ((k == 20) ≡ false) × ((k == 21) ≡ false)
payload_number k h = ground arith

-- `write_packet` over the values of its tests and of the write.
abbrev pub route :
    Bool
    → Bool
    → Option Error
    → Bool
    → Option Error × Handshake
    → Bytes
    → Handshake
    → Option Error × Handshake
route kex_init_type new_keys_type e busy out p s =
    if kex_init_type
    then (some Error.only_transport_sends, s)
    else if new_keys_type
    then (some Error.only_transport_sends, s)
    else unless_failed e
        (if busy then (none, record s { pending = s.pending ++ (p ∷ []) }) else (none, written out))
        s

module _ (k : ℕ) (body : Bytes) (s : Handshake) (number : kind_at k ≡ payload)
    (fine : s.write_error ≡ none) where
  write_busy :
      is_some s.sent_init ≡ true
      → write_packet (k ∷ body) s ≡ (none, record s { pending = s.pending ++ ((k ∷ body) ∷ []) })
  unfolding write_packet
  write_busy busy i =
      route ((payload_number k number).0 i) ((payload_number k number).1 i) (fine i) (busy i)
        (push_packet (k ∷ body) (count_write (length (k ∷ body)) s)) (k ∷ body) s

  write_idle :
      is_some s.sent_init ≡ false
      → s.conn.broken ≡ none
      → write_packet (k ∷ body) s ≡ (none, pushed (k ∷ body) (count_write (length (k ∷ body)) s))
  unfolding write_packet
  write_idle idle works i =
      route ((payload_number k number).0 i) ((payload_number k number).1 i) (fine i) (idle i)
        (push_packet_works (k ∷ body) (count_write (length (k ∷ body)) s) works i) (k ∷ body) s

All-snoc :
    (P : Bytes → Type 0) (xs : List Bytes) (x : Bytes) → All P xs → P x → All P (xs ++ (x ∷ []))
All-snoc P [] x h p = (p, tt)
All-snoc P (y ∷ ys) x h p = (h.0, All-snoc P ys x h.1 p)

-- While no exchange runs, all that was handed over has gone out.
no_pending :
    (t : Handshake)
    → (is_some t.sent_init ≡ true) ⊎ (t.pending ≡ [])
    → is_some t.sent_init ≡ false
    → t.pending ≡ []
no_pending t (inl busy) idle = cc
no_pending t (inr none_waits) idle = none_waits

settled :
    (ps : List Bytes) (t : Handshake) → IsOrdered ps t → t.pending ≡ [] → payloads t.conn.sent ≡ ps
settled ps t o none_waits =
    sym (append-nil _) ∙ ap (λ l. payloads t.conn.sent ++ l) (sym none_waits) ∙ o.delivered

pub write_packet-IsOrdered :
    (ps : List Bytes) (t : Handshake) (k : ℕ) (body : Bytes)
    → kind_at k ≡ payload
    → IsOrdered ps t
    → IsOrdered (ps ++ ((k ∷ body) ∷ [])) (write_packet (k ∷ body) t).1
unfolding payloads turns count_write
write_packet-IsOrdered ps t k body number o = elim (Bool-cases (is_some t.sent_init)) [
  | inl busy ↦
      subst (λ (r : Option Error × Handshake). IsOrdered (ps ++ (p ∷ [])) r.1)
        (sym (write_busy k body t number o.fine busy))
        (record {
          delivered =
              sym (append_assoc (payloads t.conn.sent) t.pending (p ∷ []))
              ∙ ap (λ l. l ++ (p ∷ [])) o.delivered;
          in_turn = o.in_turn;
          works = o.works;
          fine = o.fine;
          waits = All-snoc _ t.pending p o.waits number;
          idle = inl busy;
        })
  | inr idle ↦
      let none_waits = no_pending t o.idle idle in
      subst (λ (r : Option Error × Handshake). IsOrdered (ps ++ (p ∷ [])) r.1)
        (sym (write_idle k body t number o.fine idle o.works))
        (record {
          delivered =
              ap (λ l. payloads (t.conn.sent ++ (p ∷ [])) ++ l) none_waits
              ∙ append-nil _
              ∙ payloads-append t.conn.sent (p ∷ [])
              ∙ ap₂ ◌++◌ (settled ps t o none_waits) (payloads_id (p ∷ []) (number, tt));
          in_turn =
              turns-append false t.conn.sent (p ∷ []) o.in_turn
              ∙ ap (λ b. turns b (p ∷ [])) idle
              ∙ payload_turns (p ∷ []) (number, tt)
              ∙ ap some (sym idle);
          works = o.works;
          fine = o.fine;
          waits = o.waits;
          idle = o.idle;
        })
]
  where
    p : Bytes
    p = k ∷ body

send_kex_init-IsOrdered :
    (ps : List Bytes) (t : Handshake) (cookie : Bytes)
    → IsOrdered ps t
    → (t1 : Handshake) × (i : SentInit) × (send_kex_init cookie t ≡ (none, t1))
      × (t1.sent_init ≡ some i)
      × IsOrdered ps t1
unfolding send_kex_init turns
send_kex_init-IsOrdered ps t cookie o = elim (Option-cases t.sent_init) [
  | inl idle ↦ (
    record (pushed p t) { sent_init = some (record { msg = m; packet = p }) },
    record { msg = m; packet = p },
    (λ j. unless_sent (idle j) (keep_init m (push_packet_works p t o.works j)) t),
    refl,
    record {
      delivered =
          ap (λ l. l ++ t.pending)
            (payloads-append t.conn.sent (p ∷ [])
              ∙ ap (λ l. payloads t.conn.sent ++ l) (payloads_of_init m)
              ∙ append-nil _)
          ∙ o.delivered;
      in_turn =
          turns-append false t.conn.sent (p ∷ []) o.in_turn
          ∙ ap (λ i. turns (is_some i) (p ∷ [])) idle
          ∙ starts;
      works = o.works;
      fine = o.fine;
      waits = o.waits;
      idle = inl refl;
    },
  )
  | inr (i, busy) ↦ (t, i, (λ j. unless_sent (busy j) (keep_init m (push_packet p t)) t), busy, o)
]
  where
    m : KexInit
    m = own_init cookie t.settings

    p : Bytes
    p = encode (kex_init m)

    starts : turns false (p ∷ []) ≡ some true
    starts = turns_cons false true p [] (ap (next_turn false) (kind-encode m))

finish_exchange-IsOrdered :
    (ps : List Bytes) (xs : List Bytes) (t1 : Handshake) (r : Option Error × Handshake)
    (i : SentInit)
    → IsOrdered ps t1
    → t1.sent_init ≡ some i
    → All (λ p. kind p ≡ kex) xs
    → Sends t1 (xs ++ ((msg_new_keys ∷ []) ∷ [])) r
    → r.0 ≡ none
    → IsOrdered ps (finish_exchange r.0 r.1)
unfolding finish_exchange
finish_exchange-IsOrdered ps xs t1 (some e, s') i o busy own g done = cc
finish_exchange-IsOrdered ps xs t1 (none, s') i o busy own g done =
    let (sent, whole, kept, same) =
      push_pending_lem s'.pending
        (reset_write_thresholds
          (record s' { write_error = none; sent_init = none; requested = false }))
        g.1 refl in
    let all_sent = sent ∙ ap₂ ◌++◌ g.0 g.2 in
    let ends =
      closing t1.conn.sent xs t1.pending (o.in_turn ∙ ap (λ i. some (is_some i)) busy) own
        o.waits in
    record {
      delivered = append-nil _ ∙ ap payloads all_sent ∙ ends.1 ∙ o.delivered;
      in_turn = ap (turns false) all_sent ∙ ends.0 ∙ ap (λ i. some (is_some i)) (sym same);
      works = whole;
      fine = kept;
      waits = tt;
      idle = inr refl;
    }

pub kex_round-IsOrdered :
    (ps : List Bytes) (t : Handshake) (cookie : Bytes) (x : Run)
    → IsOrdered ps t
    → All (λ p. kind p ≡ kex) x.sends
    → (kex_round cookie x t).0 ≡ none
    → IsOrdered ps (kex_round cookie x t).1
unfolding kex_round
kex_round-IsOrdered ps t cookie x o own done =
    let (t1, i, sent, busy, o1) = send_kex_init-IsOrdered ps t cookie o in
    let steps : kex_round cookie x t ≡ enter_and_finish x (some i) t1 =
      ap (init_sent x) sent
      ∙ (λ j. unless_error (o1.fine j) x t1)
      ∙ ap (λ k. enter_and_finish x k t1) busy in
    subst (λ (r : Option Error × Handshake). IsOrdered ps r.1) (sym steps)
      (finish_exchange-IsOrdered ps x.sends t1 (enter_key_exchange x i.msg t1) i o1 busy own
        (enter_key_exchange-Sends x i.msg t1 o1.works)
        (sym (ap (λ (r : Option Error × Handshake). r.0) steps) ∙ done))

pub start_round-IsOrdered :
    (ps : List Bytes) (t : Handshake) (cookie : Bytes)
    → IsOrdered ps t
    → IsOrdered ps (start_round cookie t)
unfolding start_round
start_round-IsOrdered ps t cookie o =
    let (t1, i, sent, busy, o1) = send_kex_init-IsOrdered ps t cookie o in
    subst (IsOrdered ps) (sym (ap asked sent)) o1
  where
    asked : Option Error × Handshake → Handshake
    asked (e, s') = elim e [ some x ↦ record_write_error x s' | none ↦ s' ]

pub count_read-IsOrdered :
    (ps : List Bytes) (t : Handshake) (n : ℕ) → IsOrdered ps t → IsOrdered ps (count_read n t)
unfolding count_read
count_read-IsOrdered ps t n o = record {
  delivered = o.delivered;
  in_turn = o.in_turn;
  works = o.works;
  fine = o.fine;
  waits = o.waits;
  idle = o.idle;
}
