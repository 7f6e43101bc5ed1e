-- ===== src/Channel/WriteLaws.antt =====
-- What WriteExtended puts on the connection.
use mathlib.Core.List.{flatten}
use xcryptossh.Prelude.{
  ℕ, zero, suc, ◌+◌, ◌^◌, ◌≤◌, ◌<◌, ◌≡◌, ◌≢◌, refl, List, [], ◌∷◌, ◌++◌, Option, none, some, Bytes,
  length, take, drop, All, arith, map, append-nil, append_assoc, length-append, take-append-drop,
  length-take, length-drop, ◌∙◌, sym, inl, inr, Option-cases, Bool-cases, if_true, if_false, subst,
}
use xcryptossh.Errors.{Error}
use xcryptossh.Window.{Window}
use xcryptossh.Window.Schedule.{Answers, reserve-Answers}
use xcryptossh.Channel.{
  Side, write_packet, data_packet, min_u32, Turn, Written, finished, blocked, with_win,
  packet_written, write_chunk, write_loop, write_extended,
}

abbrev pub count : Written → ℕ
count (finished n e) = n
count (blocked n) = n

-- A call that returns with no error has left nothing.
abbrev pub Complete : Written → Bytes → Type 0
Complete (finished n none) unsent = unsent ≡ []
Complete (finished n (some e)) unsent = Unit
Complete (blocked n) unsent = Unit

-- The chunks of `input` that went out between two states, one packet each.
pub record Sent (code : ℕ) (input : Bytes) (n : ℕ) (s : Side) (r : Written × Side) : Type 0 where
  pub chunks : List Bytes
  pub unsent : Bytes
  pub in_order : input ≡ flatten chunks ++ unsent
  pub packets : r.1.conn.sent ≡ s.conn.sent ++ map (data_packet s.ch.remote_id code) chunks
  pub counted : count r.0 ≡ n + length (flatten chunks)
  pub small : All (λ c. (length c ≤ s.ch.max_remote_payload) × (c ≢ [])) chunks
  pub complete : Complete r.0 unsent

-- Nothing has gone out.
Sent-none :
    (code : ℕ) (input : Bytes) (n : ℕ) (s s' : Side) (o : Written)
    → s'.conn.sent ≡ s.conn.sent
    → count o ≡ n
    → Complete o input
    → Sent code input n s (o, s')
unfolding flatten
Sent-none code input n s s' o same c f = record {
  chunks = [];
  unsent = input;
  in_order = refl;
  packets = same ∙ sym (append-nil s.conn.sent);
  counted = omega arith;
  small = tt;
  complete = f;
}

-- One chunk, then others.
Sent-cons :
    (code : ℕ) (chunk rest : Bytes) (n : ℕ) (s s' : Side) (r : Written × Side)
    → (length chunk ≤ s.ch.max_remote_payload) × (chunk ≢ [])
    → s'.ch.remote_id ≡ s.ch.remote_id
    → s'.ch.max_remote_payload ≡ s.ch.max_remote_payload
    → s'.conn.sent ≡ s.conn.sent ++ (data_packet s.ch.remote_id code chunk ∷ [])
    → Sent code rest (n + length chunk) s' r
    → Sent code (chunk ++ rest) n s r
unfolding flatten
Sent-cons code chunk rest n s s' r fits same_id same_max one t = record {
  chunks = chunk ∷ t.chunks;
  unsent = t.unsent;
  in_order = rw t.in_order (sym (append_assoc chunk (flatten t.chunks) t.unsent));
  packets =
      rw (t.packets, one, same_id)
        (append_assoc s.conn.sent (data_packet s.ch.remote_id code chunk ∷ [])
          (map (data_packet s.ch.remote_id code) t.chunks));
  counted = omega (arith, t.counted, length-append chunk (flatten t.chunks));
  small = (fits, rw same_max at t.small);
  complete = t.complete;
}

-- A write fails and sends nothing, or sends its packet; the ids and limits stay.
data WritesPacket (p : Bytes) (s : Side) (r : Option Error × Side) : Type 0 where
  fails : (e : Error) → r.0 ≡ some e → r.1.conn.sent ≡ s.conn.sent → WritesPacket p s r
  sends :
      r.0 ≡ none
      → r.1.conn.sent ≡ s.conn.sent ++ (p ∷ [])
      → r.1.ch.remote_id ≡ s.ch.remote_id
      → r.1.ch.max_remote_payload ≡ s.ch.max_remote_payload
      → WritesPacket p s r

write_packet-cases : (p : Bytes) (s : Side) → WritesPacket p s (write_packet p s)
unfolding write_packet
write_packet-cases p s = elim (Bool-cases s.ch.sent_close) [
  | inl c ↦ fails Error.eof (ground arith) (ground arith)
  | inr o ↦ elim (Option-cases s.conn.broken) [
    | inl fine ↦ sends (ground arith) (ground arith) (ground arith) (ground arith)
    | inr (e, broken) ↦ fails e (ground arith) (ground arith)
  ]
]

take-ne-nil : (num : ℕ) (input : Bytes) → num ≢ 0 → input ≢ [] → take num input ≢ []
take-ne-nil zero input p q = absurd (p refl)
take-ne-nil (suc num) [] p q = absurd (q refl)
take-ne-nil (suc num) (x ∷ input) p q = λ e. cc

abbrev Loop : Type 0
Loop = Bytes → ℕ → Side → Written × Side

abbrev Continues : Loop → ℕ → Type 0
Continues next code =
    (rest : Bytes) (m : ℕ) (s : Side)
    → 0 < s.ch.max_remote_payload
    → length rest < 2 ^ 32
    → Sent code rest m s (next rest m s)

packet_written-Sent :
    (next : Loop) (code num : ℕ) (input : Bytes) (n : ℕ) (s : Side) (r : Option Error × Side)
    → Continues next code
    → 0 < s.ch.max_remote_payload
    → length input < 2 ^ 32
    → input ≢ []
    → (length (take num input) ≤ s.ch.max_remote_payload) × (take num input ≢ [])
    → WritesPacket (data_packet s.ch.remote_id code (take num input)) s r
    → Sent code input n s (packet_written (next (drop num input)) n (length (take num input)) r)
packet_written-Sent next code num input n s (some x, s') ih pos small ne fits (fails e p q) =
    Sent-none code input n s s' _ q refl tt
packet_written-Sent next code num input n s (none, s') ih pos small ne fits (fails e p q) = cc
packet_written-Sent next code num input n s (some x, s') ih pos small ne fits (sends p q i m) = cc
packet_written-Sent next code num input n s (none, s') ih pos small ne fits (sends p q i m) =
    subst (λ l. Sent code l n s (next (drop num input) (n + length (take num input)) s'))
      (take-append-drop num input)
      (Sent-cons code (take num input) (drop num input) n s s' _ fits i m q (
        ih (drop num input) (n + length (take num input)) s' (omega arith)
          (omega (arith, length-drop num input))))

write_chunk-Sent :
    (next : Loop) (code : ℕ) (input : Bytes) (n : ℕ) (s : Side) (r : Option (ℕ × Option Error))
    (space : ℕ)
    → Continues next code
    → 0 < s.ch.max_remote_payload
    → length input < 2 ^ 32
    → input ≢ []
    → space ≢ 0
    → space ≤ s.ch.max_remote_payload
    → Answers space r
    → Sent code input n s (write_chunk next code input n s r)
write_chunk-Sent next code input n s none space ih pos small ne sp fits a =
    Sent-none code input n s s _ refl refl tt
write_chunk-Sent next code input n s (some (num, some e)) space ih pos small ne sp fits a =
    Sent-none code input n s s _ refl refl tt
write_chunk-Sent next code input n s (some (num, none)) space ih pos small ne sp fits a =
    packet_written-Sent next code num input n s _ ih pos small ne
      (
        omega (arith, length-take num input),
        take-ne-nil num input (elim a.1 [ inl z ↦ absurd (sp z) | inr p ↦ p ]) ne,
      )
      (write_packet-cases _ s)

min_u32_bounds :
    (max : ℕ) (input : Bytes)
    → 0 < max
    → input ≢ []
    → length input < 2 ^ 32
    → (min_u32 max (length input) ≢ 0) × (min_u32 max (length input) ≤ max)
min_u32_bounds max [] pos ne small = absurd (ne refl)
min_u32_bounds max (b ∷ bs) pos ne small = (ground arith, ground arith)

-- `with_win` leaves the connection and the channel's ids and limits.
Sent-with_win :
    (code : ℕ) (input : Bytes) (n : ℕ) (s : Side) (w : Window) (r : Written × Side)
    → Sent code input n (with_win s w) r
    → Sent code input n s r
Sent-with_win code input n s w r t = record {
  chunks = t.chunks;
  unsent = t.unsent;
  in_order = t.in_order;
  packets = t.packets;
  counted = t.counted;
  small = t.small;
  complete = t.complete;
}

write_loop-Sent :
    (ts : List Turn) (code : ℕ) (input : Bytes) (n : ℕ) (s : Side)
    → 0 < s.ch.max_remote_payload
    → length input < 2 ^ 32
    → Sent code input n s (write_loop ts code input n s)
unfolding write_loop
write_loop-Sent ts code [] n s pos small = Sent-none code [] n s s _ refl refl refl
write_loop-Sent [] code (b ∷ bs) n s pos small = Sent-none code _ n s s _ refl refl tt
write_loop-Sent (t ∷ ts) code (b ∷ bs) n s pos small =
    let bounds = min_u32_bounds s.ch.max_remote_payload (b ∷ bs) pos (λ e. cc) small in
    Sent-with_win code (b ∷ bs) n s _ _ (
      write_chunk-Sent (write_loop ts code) code (b ∷ bs) n (with_win s _) _ _
        (write_loop-Sent ts code) pos small (λ e. cc) bounds.0 bounds.1
        (reserve-Answers t.signal _ t.events s.ch.remote_win))

-- What WriteExtended reports and what it sends agree, on every path: the packets on the
-- connection carry an initial part of the input, in order, cut in chunks that are not empty and
-- no larger than the peer's limit; the count is that part's length; and it is all of the input
-- where the call returns with no error. The peer's limit is above 0, and the input is under 4
-- GiB.
pub write_extended-Sent :
    (ts : List Turn) (code : ℕ) (input : Bytes) (s : Side)
    → 0 < s.ch.max_remote_payload
    → length input < 2 ^ 32
    → Sent code input 0 s (write_extended ts code input s)
unfolding write_extended
write_extended-Sent ts code input s pos small = elim (Bool-cases s.ch.sent_eof) [
  | inl e ↦
      subst (Sent code input 0 s) (sym (if_true _ _ e)) (Sent-none code input 0 s s _ refl refl tt)
  | inr e ↦
      subst (Sent code input 0 s) (sym (if_false _ _ e))
        (write_loop-Sent ts code input 0 s pos small)
]
