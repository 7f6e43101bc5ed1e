-- ===== src/Buffer/Loop.antt =====
-- The loop of Read where there is something to read, or no room: each round copies from the first
-- element or goes on to the next one.
use mathlib.Core.List.{flatten}
use xcryptossh.Prelude.{
  ℕ, zero, suc, ◌+◌, ◌-◌, ◌*◌, ◌≤◌, ◌<◌, ◌≡◌, ◌≢◌, ◌⊎◌, inl, inr, refl, List, [], ◌∷◌, ◌++◌, none,
  Bytes, Bool, true, false, ◌==◌, ltb, if◌then◌else◌, length, take, drop, min, arith, append-nil,
  append_assoc, length-drop, Bool-cases, ap, ◌∙◌, sym,
}
use xcryptossh.Signals.{Signal}
use xcryptossh.Buffer.{Buffer, Outcome, read, read_empty, read_loop, contents}

-- The rounds from a state on.
abbrev pub needed : ℕ → Buffer → ℕ
needed room b =
    if room == 0 then 1 else 2 * length b.behind + (if ltb 0 (length b.head) then 1 else 0) + 1

-- `room` bytes of an append, where `r` of them are copied from the first part.
chop :
    (r room : ℕ) (h t : Bytes)
    → r ≡ min room (length h)
    → (take room (h ++ t) ≡ take r h ++ take (room - r) (drop r h ++ t))
      × (drop room (h ++ t) ≡ drop (room - r) (drop r h ++ t))
chop zero zero h t e = (refl, refl)
chop zero (suc room) [] t e =
    let whole : suc room - 0 ≡ suc room = omega arith in rw whole (refl, refl)
chop zero (suc room) (x ∷ h) t e = absurd (omega arith)
chop (suc r) zero h t e = absurd (omega arith)
chop (suc r) (suc room) [] t e = absurd (omega arith)
chop (suc r) (suc room) (x ∷ h) t e =
    let less : suc room - suc r ≡ room - r = omega arith in
    let rest = chop r room h t (omega arith) in rw less (ap (λ l. x ∷ l) rest.0, rest.1)

-- What a call finds where there is something to read.
abbrev pub Reads : Bytes → ℕ → Bytes → Bool → Outcome × Buffer → Type 0
Reads out room bytes closed (o, b') =
    (o ≡ read (out ++ take room bytes) none)
    × (contents b' ≡ drop room bytes)
    × (b'.closed ≡ closed)

unfoldable pub HasBytes : ℕ → Bytes → Buffer → Type 0
HasBytes room out b = (room ≡ 0) ⊎ ((out ≢ []) ⊎ (contents b ≢ []))

nothing_left :
    (out : Bytes)
    → out ≢ []
    → (signal : Signal) (b : Buffer) → read_empty signal out b ≡ read out none
unfolding read_empty
nothing_left [] h signal b = absurd (h refl)
nothing_left (c ∷ cs) h signal b = refl

append-take_ne-nil : (out h : Bytes) (r : ℕ) → 0 < r → 0 < length h → out ++ take r h ≢ []
append-take_ne-nil [] [] r p q = λ e. ground arith
append-take_ne-nil [] (x ∷ h) zero p q = λ e. ground arith
append-take_ne-nil [] (x ∷ h) (suc r) p q = λ e. cc
append-take_ne-nil (o ∷ out) h r p q = λ e. cc

-- After a copy of `r` bytes the rest of the loop finishes the same read.
Reads-copied :
    (r room : ℕ) (out h t : Bytes) (closed : Bool) (x : Outcome × Buffer)
    → r ≡ min room (length h)
    → Reads (out ++ take r h) (room - r) (drop r h ++ t) closed x
    → Reads out room (h ++ t) closed x
Reads-copied r room out h t closed (o, b') e (p, q, c) = (
  p
      ∙ ap (λ l. read l none)
          (append_assoc out (take r h) _ ∙ ap (λ l. out ++ l) (sym (chop r room h t e).0)),
  q ∙ sym (chop r room h t e).1,
  c,
)

abbrev pub buffer_of : Bytes → List Bytes → Bool → Buffer
buffer_of h es c = record { head = h; behind = es; closed = c }

length-eq-zero : (h : Bytes) → ltb 0 (length h) ≡ false → h ≡ []
length-eq-zero [] e = refl
length-eq-zero (x ∷ h) e = ground arith

flatten-cons : (e : Bytes) (es : List Bytes) → flatten (e ∷ es) ≡ e ++ flatten es
unfolding flatten
flatten-cons e es = refl

flatten-nil : flatten {A = ℕ} [] ≡ []
unfolding flatten
flatten-nil = refl

no_bytes :
    (room : ℕ) (out h : Bytes) (c : Bool)
    → h ≡ []
    → (room == 0) ≡ false
    → HasBytes room out (buffer_of h [] c)
    → out ≢ []
unfolding HasBytes
no_bytes room out h c e more (inl z) = ground arith
no_bytes room out h c e more (inr (inl n)) = n
no_bytes room out h c e more (inr (inr n)) = absurd (n (rw (e, flatten-nil) refl))

-- The case of an empty first element: there is nothing more, or the next one becomes the first.
Reads-last :
    (signal : Signal) (room : ℕ) (out h : Bytes) (c : Bool)
    → h ≡ []
    → out ≢ []
    → Reads out room
        (h ++ flatten [])
        c
        (read_empty signal out (buffer_of h [] c), buffer_of h [] c)
unfolding flatten
Reads-last signal room out (x ∷ h) c e n = cc
Reads-last signal room out [] c e n =
    rw (take-nil room, drop-nil room)
      (nothing_left out n signal _ ∙ ap (λ l. read l none) (sym (append-nil out)), refl, refl)
  where
    take-nil : (k : ℕ) → take {A = ℕ} k [] ≡ []
    take-nil zero = refl
    take-nil (suc k) = refl

    drop-nil : (k : ℕ) → drop {A = ℕ} k [] ≡ []
    drop-nil zero = refl
    drop-nil (suc k) = refl

Reads-full :
    (room : ℕ) (out h : Bytes) (es : List Bytes) (c : Bool)
    → (room == 0) ≡ true
    → Reads out room (h ++ flatten es) c (read out none, buffer_of h es c)
Reads-full room out h es c full =
    let e : room ≡ 0 = ground arith in
    rw e (ap (λ l. read l none) (sym (append-nil out)), refl, refl)

-- What is left to do after a copy fits in the rounds that are left, and finds bytes.
copied_enough :
    (fuel room : ℕ) (h : Bytes) (es : List Bytes) (c : Bool)
    → (room == 0) ≡ false
    → ltb 0 (length h) ≡ true
    → needed room (buffer_of h es c) ≤ suc fuel
    → needed (room - min room (length h)) (buffer_of (drop (min room (length h)) h) es c) ≤ fuel
copied_enough fuel room h es c more some_head enough =
    ground (arith, length-drop (min room (length h)) h)

copied_HasBytes :
    (room : ℕ) (out h : Bytes) (b : Buffer)
    → (room == 0) ≡ false
    → ltb 0 (length h) ≡ true
    → HasBytes (room - min room (length h)) (out ++ take (min room (length h)) h) b
unfolding HasBytes
copied_HasBytes room out h b more some_head =
    inr (inl (append-take_ne-nil out h (min room (length h)) (ground arith) (ground arith)))

next_HasBytes :
    (room : ℕ) (out h e : Bytes) (es : List Bytes) (c : Bool)
    → h ≡ []
    → HasBytes room out (buffer_of h (e ∷ es) c)
    → HasBytes room out (buffer_of e es c)
unfolding HasBytes
next_HasBytes room out h e es c p (inl z) = inl z
next_HasBytes room out h e es c p (inr (inl n)) = inr (inl n)
next_HasBytes room out h e es c p (inr (inr n)) = inr (inr (λ q. n (rw (p, flatten-cons e es) q)))

pub read_loop_lem :
    (fuel : ℕ) (signal : Signal) (room : ℕ) (out h : Bytes) (es : List Bytes) (c : Bool)
    → needed room (buffer_of h es c) ≤ fuel
    → HasBytes room out (buffer_of h es c)
    → Reads out room (h ++ flatten es) c (read_loop fuel signal room out (buffer_of h es c))
unfolding read_loop
read_loop_lem zero signal room out h es c enough k = absurd (ground arith)
read_loop_lem (suc fuel) signal room out h [] c enough k = elim (Bool-cases (room == 0)) [
  | inl full ↦ rw full (Reads-full room out h [] c full)
  | inr more ↦ rw more (elim (Bool-cases (ltb 0 (length h))) [
    | inl some_head ↦ rw some_head (
        Reads-copied (min room (length h)) room out h (flatten []) c _ refl (
          read_loop_lem fuel signal (room - min room (length h))
            (out ++ take (min room (length h)) h) (drop (min room (length h)) h) [] c
            (copied_enough fuel room h [] c more some_head enough)
            (copied_HasBytes room out h _ more some_head)))
    | inr no_head ↦ rw no_head (
        Reads-last signal room out h c (length-eq-zero h no_head)
          (no_bytes room out h c (length-eq-zero h no_head) more k))
  ])
]
read_loop_lem (suc fuel) signal room out h (e ∷ es) c enough k = elim (Bool-cases (room == 0)) [
  | inl full ↦ rw full (Reads-full room out h (e ∷ es) c full)
  | inr more ↦ rw more (elim (Bool-cases (ltb 0 (length h))) [
    | inl some_head ↦ rw some_head (
        Reads-copied (min room (length h)) room out h (flatten (e ∷ es)) c _ refl (
          read_loop_lem fuel signal (room - min room (length h))
            (out ++ take (min room (length h)) h) (drop (min room (length h)) h) (e ∷ es) c
            (copied_enough fuel room h (e ∷ es) c more some_head enough)
            (copied_HasBytes room out h _ more some_head)))
    | inr no_head ↦ rw no_head (
        let p : h ≡ [] = length-eq-zero h no_head in
        let same : h ++ flatten (e ∷ es) ≡ e ++ flatten es = rw p (flatten-cons e es) in
        rw same (
          read_loop_lem fuel signal room out e es c (ground arith)
            (next_HasBytes room out h e es c p k)))
  ])
]
