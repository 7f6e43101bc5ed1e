-- ===== src/Terminal/History.antt =====
-- stRingBuffer of terminal/terminal.go, and what it remembers.
use xcryptossh.Prelude.{
  ℕ, ◌+◌, ◌-◌, ◌%◌, ◌<◌, min, zero, suc, ◌≡◌, ◌≢◌, refl, ap, sym, ◌∙◌, subst, List, [], ◌∷◌, Option,
  none, ltb, leb, if◌then◌else◌, length, get_elem?, set, replicate, arith, length-set,
  get_elem?-set_self, get_elem?-set_ne, get_elem?-none, if_true, if_false, dec_lt,
}

-- A Go string of the terminal as the list of its runes.
abbrev pub Text : Type 0
Text = List ℕ

-- No entries: `s.entries == nil`.
pub record Ring : Type 0 where
  pub entries : List Text
  pub max : ℕ
  pub head : ℕ
  pub size : ℕ

abbrev pub new_ring : Ring
new_ring = record { entries = []; max = 0; head = 0; size = 0 }

abbrev pub default_num_entries : ℕ
default_num_entries = 100

abbrev allocated : Ring → List Text → Ring
allocated s [] = record s { entries = replicate default_num_entries []; max = default_num_entries }
allocated s (e ∷ es) = s

abbrev put : Text → Ring → Ring
put a s = record s {
  entries = set s.entries ((s.head + 1) % s.max) a;
  head = (s.head + 1) % s.max;
  size = if ltb s.size s.max then s.size + 1 else s.size;
}

-- `Add`
unfoldable pub add : Text → Ring → Ring
add a s = put a (allocated s s.entries)

abbrev index : Ring → ℕ → ℕ
index s n = if ltb s.head n then s.head + s.max - n else s.head - n

-- `NthPreviousEntry`; `none` is `ok == false`. An index past the array panics.
unfoldable pub nth_previous_entry : ℕ → Ring → Option Text
nth_previous_entry n s = if leb s.size n then none else get_elem? s.entries (index s n)

-- A ring with these texts added, the last one first.
unfoldable pub ring_of : List Text → Ring
unfolding add
ring_of [] = new_ring
ring_of (a ∷ older) = add a (ring_of older)

record Remembers (recent : List Text) (s : Ring) : Type 0 where
  full : length s.entries ≡ 100
  max : s.max ≡ 100
  head : s.head < 100
  size : s.size ≡ min 100 (length recent)
  holds : (n : ℕ) → n < s.size → get_elem? s.entries (index s n) ≡ get_elem? recent n

length-replicate : {A : Type 0} (n : ℕ) (a : A) → length (replicate n a) ≡ n
length-replicate zero a = refl
length-replicate (suc n) a = ap suc (length-replicate n a)

abbrev cell : ℕ → ℕ → ℕ → ℕ
cell head max n = if ltb head n then head + max - n else head - n

-- The entry n before the old head is the one n + 1 before the new head, and not the new head's.
cell-next :
    (head n : ℕ)
    → head < 100
    → suc n < 100
    → (cell ((head + 1) % 100) 100 (suc n) ≡ cell head 100 n)
      × (cell ((head + 1) % 100) 100 (suc n) ≢ (head + 1) % 100)
cell-next head n below small = (ground arith, λ e. ground arith)

cell-first : (head : ℕ) → cell head 100 0 ≡ head
cell-first head = ground arith

put-Remembers :
    (a : Text) (older : List Text) (entries : List Text) (head size : ℕ)
    → Remembers older (record { entries = entries; max = 100; head = head; size = size })
    → Remembers
        (a ∷ older)
        (put a (record { entries = entries; max = 100; head = head; size = size }))
put-Remembers a older entries head size r = record {
  full = length-set entries ((head + 1) % 100) a ∙ r.full;
  max = refl;
  head = omega arith;
  size = ground (arith, r.size);
  holds = holds;
}
  where
    holds :
        (n : ℕ)
        → n < (if ltb size 100 then size + 1 else size)
        → get_elem? (set entries ((head + 1) % 100) a) (cell ((head + 1) % 100) 100 n)
          ≡ get_elem? (a ∷ older) n
    holds zero h =
        ap (get_elem? (set entries ((head + 1) % 100) a)) (cell-first ((head + 1) % 100))
        ∙ get_elem?-set_self entries ((head + 1) % 100) a (omega (arith, r.full))
    holds (suc n) h =
        let (same, other) = cell-next head n r.head (ground (arith, r.size)) in
        get_elem?-set_ne entries ((head + 1) % 100) (cell ((head + 1) % 100) 100 (suc n)) a
          (λ e. other (sym e))
        ∙ ap (get_elem? entries) same
        ∙ r.holds n (ground (arith, r.size))

-- The first text is put into a fresh array.
first-Remembers : (a : Text) → Remembers (a ∷ []) (add a new_ring)
unfolding add
first-Remembers a = record {
  full = refl;
  max = refl;
  head = omega arith;
  size = refl;
  holds = holds;
}
  where
    holds :
        (n : ℕ)
        → n < 1
        → get_elem? (add a new_ring).entries (index (add a new_ring) n) ≡ get_elem? (a ∷ []) n
    holds zero h = refl
    holds (suc n) h = absurd (omega arith)

later-Remembers :
    (a : Text) (older : List Text) (s : Ring) → Remembers older s → Remembers (a ∷ older) (add a s)
unfolding add
later-Remembers a older s r = go s.entries s.max s.head s.size r
  where
    go :
        (entries : List Text) (max head size : ℕ)
        → Remembers older (record { entries = entries; max = max; head = head; size = size })
        → Remembers (a ∷ older) (
            put a (
              allocated
                (record { entries = entries; max = max; head = head; size = size })
                entries))
    go [] max head size r = absurd (omega (arith, r.full))
    go (e ∷ es) max head size r =
        subst
          (λ (m : ℕ).
            Remembers (a ∷ older)
              (put a (record { entries = e ∷ es; max = m; head = head; size = size })))
          (sym r.max)
          (put-Remembers a older (e ∷ es) head size (
            subst
              (λ (m : ℕ).
                Remembers older (record { entries = e ∷ es; max = m; head = head; size = size }))
              r.max r))

ring_of-Remembers : (a : Text) (older : List Text) → Remembers (a ∷ older) (ring_of (a ∷ older))
unfolding ring_of
ring_of-Remembers a [] = first-Remembers a
ring_of-Remembers a (b ∷ older) =
    later-Remembers a (b ∷ older) (ring_of (b ∷ older)) (ring_of-Remembers b older)

-- The history answers with the texts added, from the last one back, and remembers 100 of them.
pub nth_previous_entry-ring_of :
    (n : ℕ) (recent : List Text)
    → nth_previous_entry n (ring_of recent) ≡ (if ltb n 100 then get_elem? recent n else none)
unfolding nth_previous_entry
nth_previous_entry-ring_of n [] = unfold ring_of in ground arith
nth_previous_entry-ring_of n (a ∷ older) =
    let s : Ring = ring_of (a ∷ older) in
    let r : Remembers (a ∷ older) s = ring_of-Remembers a older in
    elim (dec_lt n s.size) [
      | yes inside ↦
          if_false {b = leb s.size n} _ _ (ground arith)
          ∙ r.holds n inside
          ∙ sym (if_true {b = ltb n 100} _ _ (ground (arith, r.size)))
      | no outside ↦ if_true {b = leb s.size n} _ _ (ground arith) ∙ elim (dec_lt n 100) [
        | yes small ↦ sym (
            if_true {b = ltb n 100} _ _ (ground arith)
            ∙ get_elem?-none (a ∷ older) n (omega (arith, r.size)))
        | no large ↦ sym (if_false {b = ltb n 100} _ _ (ground arith))
      ]
    ]
