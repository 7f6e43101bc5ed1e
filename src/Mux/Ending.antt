-- ===== src/Mux/Ending.antt =====
-- The end of the loop of mux.go, and what it closes.
use xcryptossh.Prelude.{
  ℕ, ◌^◌, ◌≡◌, ◌⊎◌, inl, inr, refl, List, [], ◌∷◌, ◌++◌, Option, none, some, Bool, true, false,
  if◌then◌else◌, length, map, All, ◌∙◌, Some, ap, subst, sym, zero, suc, get_elem?, ltb, ◌%◌,
}
use xcryptossh.Errors.{Error}
use xcryptossh.ChanList.{ChanList, get_chan, present, flat, slot_of}
use xcryptossh.ChanList
use xcryptossh.ChanList.Laws.{get_chan-drop_all}
use xcryptossh.Buffer
use xcryptossh.Window
use xcryptossh.Channel.{Channel}
use xcryptossh.Channel.Receive.{close}
use xcryptossh.Mux.Steps.{receive_end}
use xcryptossh.Mux.{Mux, loop_end, is_timeout, Incoming, receive, loop_round, loop}

-- A channel as `close` leaves it: readers and writers find its end, and nothing more goes out.
abbrev pub IsClosed : Channel → Type 0
IsClosed c =
    (c.pending.closed ≡ true)
    × (c.ext_pending.closed ≡ true)
    × (c.remote_win.closed ≡ true)
    × (c.sent_close ≡ true)
    × (c.queues_closed ≡ true)
    × (c.stopped ≡ true)

all-IsClosed : (cs : List Channel) → All IsClosed (map close cs)
all-IsClosed [] = tt
all-IsClosed (c ∷ cs) = (one c, all-IsClosed cs)
  where
    one : (c : Channel) → IsClosed (close c)
    one c = unfold close Buffer.eof Window.close in (refl, refl, refl, refl, refl, refl)

-- Where an id finds a channel, this channel is among the closed ones.
abbrev pub IsAmong : List Channel → Option Channel → Type 0
IsAmong cs none = Unit
IsAmong cs (some ch) = Some (λ c. c ≡ close ch) cs

present-IsAmong :
    (slots : List (Option Channel)) (i : ℕ)
    → IsAmong (map close (present slots)) (flat (get_elem? slots i))
unfolding present
present-IsAmong [] i = tt
present-IsAmong (none ∷ slots) zero = tt
present-IsAmong (none ∷ slots) (suc i) = present-IsAmong slots i
present-IsAmong (some ch ∷ slots) zero = inl refl
present-IsAmong (some ch ∷ slots) (suc i) =
    later (flat (get_elem? slots i)) (present-IsAmong slots i)
  where
    later :
        (o : Option Channel)
        → IsAmong (map close (present slots)) o
        → IsAmong (close ch ∷ map close (present slots)) o
    later none h = tt
    later (some c) h = inr h

drop_all-IsAmong :
    (id : ℕ) (c : ChanList Channel) → IsAmong (map close (ChanList.drop_all c).0) (get_chan id c)
unfolding ChanList.drop_all get_chan
drop_all-IsAmong id c =
    choose (ltb (slot_of id c) (length c.chans % 2 ^ 32)) _ (present-IsAmong c.chans (slot_of id c))
  where
    choose :
        (t : Bool) (o : Option Channel)
        → IsAmong (map close (present c.chans)) o
        → IsAmong (map close (present c.chans)) (if t then o else none)
    choose true o h = h
    choose false o h = tt

-- A round after which the loop goes on: it had no error, or a timeout.
abbrev pub GoesOn : Option Error → Type 0
GoesOn none = Unit
GoesOn (some e) = is_timeout e ≡ true

-- The mux `y` that the rounds over `is` leave of `x`, none of which ends the loop.
pub data Reaches : List Incoming → Mux → Mux → Type 0 where
  start : {x : Mux} → Reaches [] x x
  round :
      {i : Incoming} {is : List Incoming} {x y : Mux}
      → GoesOn (receive i x).0
      → Reaches is (receive i x).1 y
      → Reaches (i ∷ is) x y

-- The loop over `is` is over: at `last`, whose round has left the mux `final` with an error.
pub record HasEnded (is : List Incoming) (x : Mux) (r : List Channel × Mux) : Type 0 where
  pub front : List Incoming
  pub last : Incoming
  pub rest : List Incoming
  pub in_order : is ≡ front ++ (last ∷ rest)
  pub before : Mux
  pub reached : Reaches front x before
  pub reason : Error
  pub final : Mux
  pub ends : receive last before ≡ (some reason, final)
  pub not_timeout : is_timeout reason ≡ false
  pub told : r.1.error ≡ some reason
  pub just_these : r.0 ≡ map close (present final.chan_list.chans)
  pub all_closed : (id : ℕ) → IsAmong r.0 (get_chan id final.chan_list)
  pub closed : All IsClosed r.0
  pub forgotten : (id : ℕ) → get_chan id r.1.chan_list ≡ none
  pub queues : r.1.queues_closed ≡ true
  pub conn : r.1.conn_closed ≡ true

-- The loop over `is` has not ended.
pub record IsRunning (is : List Incoming) (x : Mux) (r : List Channel × Mux) : Type 0 where
  pub reached : Reaches is x r.1
  pub none_closed : r.0 ≡ []
  pub no_error : r.1.error ≡ none
  pub conn_open : r.1.conn_closed ≡ false

abbrev Ending : List Incoming → Mux → List Channel × Mux → Type 0
Ending is x r = IsRunning is x r ⊎ HasEnded is x r

Ending-start : (x : Mux) → x.error ≡ none → x.conn_closed ≡ false → Ending [] x ([], x)
Ending-start x a b =
    inl (record { reached = start; none_closed = refl; no_error = a; conn_open = b })

-- One more round in front.
Ending-round :
    (i : Incoming) (is : List Incoming) (x : Mux) (r : List Channel × Mux)
    → GoesOn (receive i x).0
    → Ending is (receive i x).1 r
    → Ending (i ∷ is) x r
Ending-round i is x r g (inl h) = inl (record {
  reached = round g h.reached;
  none_closed = h.none_closed;
  no_error = h.no_error;
  conn_open = h.conn_open;
})
Ending-round i is x r g (inr h) = inr (record {
  front = i ∷ h.front;
  last = h.last;
  rest = h.rest;
  in_order = ap (λ l. i ∷ l) h.in_order;
  before = h.before;
  reached = round g h.reached;
  reason = h.reason;
  final = h.final;
  ends = h.ends;
  not_timeout = h.not_timeout;
  told = h.told;
  just_these = h.just_these;
  all_closed = h.all_closed;
  closed = h.closed;
  forgotten = h.forgotten;
  queues = h.queues;
  conn = h.conn;
})

loop_end-HasEnded :
    (i : Incoming) (is : List Incoming) (x y : Mux) (e : Error)
    → receive i x ≡ (some e, y)
    → is_timeout e ≡ false
    → HasEnded (i ∷ is) x (loop_end e y)
unfolding loop_end ChanList.drop_all
loop_end-HasEnded i is x y e p h = record {
  front = [];
  last = i;
  rest = is;
  in_order = refl;
  before = x;
  reached = start;
  reason = e;
  final = y;
  ends = p;
  not_timeout = h;
  told = refl;
  just_these = refl;
  all_closed = λ id. drop_all-IsAmong id y.chan_list;
  closed = all-IsClosed _;
  forgotten = λ id. get_chan-drop_all id y.chan_list;
  queues = refl;
  conn = refl;
}

loop_round_lem :
    (i : Incoming) (is : List Incoming) (x : Mux) (r : Option Error × Mux)
    → receive i x ≡ r
    → Ending is r.1 (loop is r.1)
    → Ending (i ∷ is) x (loop_round (loop is) r)
loop_round_lem i is x (none, y) p ih =
    Ending-round i is x (loop is y) (subst (λ q. GoesOn q.0) (sym p) tt)
      (subst (λ q. Ending is q.1 (loop is y)) (sym p) ih)
loop_round_lem i is x (some e, y) p ih = go (is_timeout e) refl
  where
    go : (t : Bool) → is_timeout e ≡ t → Ending (i ∷ is) x (if t then loop is y else loop_end e y)
    go true h =
        Ending-round i is x (loop is y) (subst (λ q. GoesOn q.0) (sym p) h)
          (subst (λ q. Ending is q.1 (loop is y)) (sym p) ih)
    go false h = inr (loop_end-HasEnded i is x y e p h)

-- From a mux with no error and an open connection, the loop either still runs: it has gone through
-- all that arrived, in order, with no channel closed by it, no error and the connection open. Or
-- some round has ended it on an error that is no timeout, the first such one. Then every channel
-- that this round left under any id is closed, the closed ones are those of the list and no others,
-- readers and writers of each find its end, no id has a channel any more, the queues and the
-- connection are closed, and the error is kept.
pub loop_lem :
    (is : List Incoming) (x : Mux)
    → x.error ≡ none
    → x.conn_closed ≡ false
    → IsRunning is x (loop is x) ⊎ HasEnded is x (loop is x)
unfolding loop
loop_lem [] x a b = Ending-start x a b
loop_lem (i ∷ is) x a b =
    let same = receive_end i x in
    loop_round_lem i is x (receive i x) refl (loop_lem is (receive i x).1 (same.0 ∙ a) (same.2 ∙ b))
