-- ===== src/Handshake/History.antt =====
-- Histories of the handshake transport of handshake.go, and the order on the wire after them.
use xcryptossh.Prelude.{
  ℕ, ◌≡◌, inr, List, [], ◌∷◌, ◌++◌, none, some, Bytes, false, ap, ap₂, subst, ◌∙◌, sym, All,
}
use xcryptossh.Handshake.{Handshake, write_packet, count_read, is_some}
use xcryptossh.Handshake.Exchange.{Run}
use xcryptossh.Handshake.Rounds.{kex_round, start_round}
use xcryptossh.Handshake.Turns.{kex, payload, kind_at, kind, turns, payloads}
use xcryptossh.Handshake.Order.{
  IsOrdered, write_packet-IsOrdered, start_round-IsOrdered, kex_round-IsOrdered,
  count_read-IsOrdered,
}

-- A packet of the user, a threshold that is passed, a whole exchange that succeeds, and a packet
-- that is received; `ps` is what writers have handed over.
pub data History (s : Handshake) : List Bytes → Handshake → Type 0 where
  start : History s [] s
  write :
      {ps : List Bytes} {t : Handshake} (k : ℕ) (body : Bytes)
      → History s ps t
      → kind_at k ≡ payload
      → History s (ps ++ ((k ∷ body) ∷ [])) (write_packet (k ∷ body) t).1
  ask :
      {ps : List Bytes} {t : Handshake} (cookie : Bytes)
      → History s ps t
      → History s ps (start_round cookie t)
  exchange :
      {ps : List Bytes} {t : Handshake} (cookie : Bytes) (x : Run)
      → History s ps t
      → All (λ p. kind p ≡ kex) x.sends
      → (kex_round cookie x t).0 ≡ none
      → History s ps (kex_round cookie x t).1
  receive :
      {ps : List Bytes} {t : Handshake} (n : ℕ) → History s ps t → History s ps (count_read n t)

-- A transport that has not begun.
abbrev pub IsFresh : Handshake → Type 0
IsFresh s =
    (s.conn.sent ≡ [])
    × (s.conn.broken ≡ none)
    × (s.write_error ≡ none)
    × (s.sent_init ≡ none)
    × (s.pending ≡ [])

History-IsOrdered :
    {s t : Handshake} {ps : List Bytes} → IsFresh s → History s ps t → IsOrdered ps t
unfolding payloads turns
History-IsOrdered {s} fresh start = record {
  delivered = ap₂ (λ a b. payloads a ++ b) fresh.0 fresh.4;
  in_turn = ap (turns false) fresh.0 ∙ ap (λ i. some (is_some i)) (sym fresh.3);
  works = fresh.1;
  fine = fresh.2;
  waits = subst (All (λ p. kind p ≡ payload)) (sym fresh.4) tt;
  idle = inr fresh.4;
}
History-IsOrdered fresh (write k body h number) =
    write_packet-IsOrdered _ _ k body number (History-IsOrdered fresh h)
History-IsOrdered fresh (ask cookie h) =
    start_round-IsOrdered _ _ cookie (History-IsOrdered fresh h)
History-IsOrdered fresh (exchange cookie x h own done) =
    kex_round-IsOrdered _ _ cookie x (History-IsOrdered fresh h) own done
History-IsOrdered fresh (receive n h) = count_read-IsOrdered _ _ n (History-IsOrdered fresh h)

-- From a transport that has not begun, on a connection that works, after any history of writes of
-- payload packets, own starts of an exchange, received packets, and whole exchanges that succeed
-- and whose algorithm sends only packets of its own numbers: the payload packets that went out,
-- followed by those that wait, are the packets that the writers handed over, in order; and no packet
-- went out of turn: after a kexInit come only packets of the algorithm, up to the newKeys, and outside
-- of an exchange only payload packets. An exchange is open exactly while a sent kexInit is kept.
pub History-in_turn :
    (s t : Handshake) (ps : List Bytes)
    → IsFresh s
    → History s ps t
    → (payloads t.conn.sent ++ t.pending ≡ ps)
      × (turns false t.conn.sent ≡ some (is_some t.sent_init))
History-in_turn s t ps fresh h = let o = History-IsOrdered fresh h in (o.delivered, o.in_turn)
