-- ===== src/Terminal/Presses.antt =====
-- The keys that handleKey of terminal/terminal.go tells apart, one by one.
use xcryptossh.Prelude.{
  ℕ, ◌+◌, ◌-◌, ◌≤◌, ◌<◌, ◌⊎◌, inl, inr, zero, suc, ◌≡◌, ◌≢◌, refl, sym, ◌∙◌, subst, List, [], ◌∷◌,
  Option, none, some, Bool, true, false, ltb, ◌==◌, ◌&&◌, not, if◌then◌else◌, length, take, drop,
  min, arith, length-take, length-drop,
}
use xcryptossh.Terminal.{
  Terminal, queue, visual_length, advance_cursor, set_line, erase_n_previous_chars, erase_chars,
  count_to_right_word, count_to_left_word, skip_word_right, skip_spaces_right, add_key_to_line,
  space, text_of, key_escape,
}
use xcryptossh.Terminal.History.{Text, nth_previous_entry}
use xcryptossh.Terminal.Cursor.{Draws, Draws-refl, Draws-trans, queue-Draws, advance_cursor-Draws}
use xcryptossh.Terminal.Keys.{
  Complete, Action, backspace, alt_left, alt_right, left, right, home, end, up, down, enter,
  delete_word, delete_line, delete_here, delete_start, clear_screen, other, action_of, press,
  handle_key, go_up, go_down, go_back, blank_out, completed, press_other, press_enter,
  press_clear_screen, press_delete_line, press_delete_here, key_enter, entered,
}
use xcryptossh.Terminal.Valid.{
  Placed, Fresh, StaysInLine, finish-Placed, move_to-Placed, set_line-Placed, erase_chars-Placed,
  erase-Placed, add_key-Placed, type_key-Placed,
}

skip_spaces_right-le : (rs : List ℕ) → skip_spaces_right rs ≤ length rs
unfolding skip_spaces_right
skip_spaces_right-le [] = omega arith
skip_spaces_right-le (r ∷ rs) = ground (arith, skip_spaces_right-le rs)

skip_word_right-le : (rs : List ℕ) → skip_word_right rs ≤ length rs
unfolding skip_word_right
skip_word_right-le [] = omega arith
skip_word_right-le (r ∷ rs) = go (skip_word_right-le rs) (r == space)
  where
    go :
        skip_word_right rs ≤ length rs
        → (b : Bool)
        → (if b then skip_spaces_right (r ∷ rs) else skip_word_right rs + 1) ≤ suc (length rs)
    go ih true = skip_spaces_right-le (r ∷ rs)
    go ih false = omega (arith, ih)

pub blank_out-Draws : (n : ℕ) (t : Terminal) → Draws t (blank_out n t)
unfolding blank_out
blank_out-Draws zero t = Draws-refl t
blank_out-Draws (suc n) t =
    let queued : Terminal = queue (space ∷ []) t in
    let advanced : Terminal = advance_cursor 1 queued in
    Draws-trans t queued _ (queue-Draws (space ∷ []) t)
      (Draws-trans queued advanced _ (advance_cursor-Draws 1 queued) (blank_out-Draws n advanced))

up-Placed : (t : Terminal) (o : Option Text) → Placed t → Placed (go_up t o)
up-Placed t none v = v
up-Placed t (some entry) v = go t.history_index
  where
    chosen : Option ℕ → ℕ × Text
    chosen o = elim o [ none ↦ (0, text_of t.line) | some i ↦ (i + 1, t.history_pending) ]

    go :
        (o : Option ℕ)
        → Placed (
            set_line entry
              (length entry)
              (record t { history_index = some (chosen o).0; history_pending = (chosen o).1 }))
    go o = set_line-Placed entry (length entry) _ v.echoes v.in_row (omega arith)

back-Placed : (i : ℕ) (t : Terminal) (o : Option Text) → Placed t → Placed (go_back i t o)
back-Placed i t none v = v
back-Placed i t (some entry) v =
    set_line-Placed entry (length entry) (record t { history_index = some i }) v.echoes v.in_row
      (omega arith)

down-Placed : (o : Option ℕ) (t : Terminal) → Placed t → Placed (go_down o t)
down-Placed none t v = v
down-Placed (some zero) t v =
    let set : Placed (set_line t.history_pending (length t.history_pending) t) =
      set_line-Placed t.history_pending (length t.history_pending) t v.echoes v.in_row
        (omega arith) in
    record { echoes = set.echoes; in_line = set.in_line; in_row = set.in_row; at_pos = set.at_pos }
down-Placed (some (suc i)) t v = back-Placed i t (nth_previous_entry i t.history) v

other-Placed :
    (f : Complete) (key : ℕ) (t : Terminal)
    → StaysInLine f
    → Placed t
    → Placed (press_other f key t)
other-Placed none key t stays v = type_key-Placed key t v
other-Placed (some f) key t stays v = go (f (text_of t.line) t.pos key) refl
  where
    go : (o : Option (Text × ℕ)) → f (text_of t.line) t.pos key ≡ o → Placed (completed key t o)
    go none e = type_key-Placed key t v
    go (some (line, p)) e =
        set_line-Placed line p t v.echoes v.in_row (stays (text_of t.line) t.pos key line p e)

clear_screen-Placed : (t : Terminal) → Placed t → Placed (press_clear_screen t)
clear_screen-Placed t v =
    let cleared : Terminal =
      queue (key_escape ∷ b'[' ∷ b'2' ∷ b'J' ∷ key_escape ∷ b'[' ∷ b'H' ∷ []) t in
    let prompted : Terminal = queue t.prompt cleared in
    let homed : Terminal = record prompted { cursor_x = 0; cursor_y = 0 } in
    let d0 : Draws t prompted =
      Draws-trans t cleared prompted (queue-Draws _ t) (queue-Draws t.prompt cleared) in
    let d1 : Draws homed (advance_cursor (visual_length t.prompt) homed) =
      advance_cursor-Draws (visual_length t.prompt) homed in
    set_line-Placed t.line t.pos (advance_cursor (visual_length t.prompt) homed)
      (d1.same_echo ∙ d0.same_echo ∙ v.echoes) (d1.in_row (omega (arith, v.in_row, d0.same_width)))
      v.in_line

delete_line-Placed : (t : Terminal) → Placed t → Placed (press_delete_line t)
delete_line-Placed t v =
    let n : ℕ = length t.line - t.pos in
    let d : Draws t (blank_out n t) = blank_out-Draws n t in
    finish-Placed t.pos (record (blank_out n t) { line = take t.pos t.line })
      (d.same_echo ∙ v.echoes) d.same_pos (omega (arith, v.in_line, length-take t.pos t.line))
      (d.in_row v.in_row)

delete_here-Placed : (t : Terminal) → Placed t → Placed (press_delete_here t)
delete_here-Placed t v = go (ltb t.pos (length t.line)) refl
  where
    go :
        (b : Bool)
        → ltb t.pos (length t.line) ≡ b
        → Placed (if b then erase_n_previous_chars 1 (record t { pos = t.pos + 1 }) else t)
    go false e = v
    go true e =
        let inside : t.pos < length t.line = ground arith in
        unfold erase_n_previous_chars in
        subst (λ n. Placed (erase_chars n (record t { pos = t.pos + 1 }))) (omega arith)
          (erase_chars-Placed 1 (record t { pos = t.pos + 1 }) v.echoes (omega arith) v.in_row
            (omega arith))

-- A key that does nothing where the test holds.
unless-Placed :
    (b : Bool) (t t' : Terminal) → Placed t → (b ≡ false → Placed t') → Placed (if b then t else t')
unless-Placed true t t' v acts = v
unless-Placed false t t' v acts = acts refl

not_equal : (a b : ℕ) → (a == b) ≡ false → a ≢ b
not_equal a b h = ground arith

press-Placed :
    (f : Complete) (key : ℕ) (a : Action) (t : Terminal)
    → a ≢ enter
    → StaysInLine f
    → Placed t
    → Placed (press f key a t)
unfolding press
press-Placed f key backspace t not_enter stays v = unless-Placed (t.pos == 0) t _ v (λ e.
    unfold erase_n_previous_chars in
    erase_chars-Placed (min t.pos 1) t v.echoes v.in_line v.in_row (omega arith))
press-Placed f key alt_left t not_enter stays v = move_to-Placed _ t v (omega (arith, v.in_line))
press-Placed f key alt_right t not_enter stays v =
    move_to-Placed (t.pos + count_to_right_word t) t v (
      unfold count_to_right_word in
      omega (arith, v.in_line, skip_word_right-le (drop t.pos t.line), length-drop t.pos t.line))
press-Placed f key left t not_enter stays v =
    unless-Placed (t.pos == 0) t _ v
      (λ e. move_to-Placed (t.pos - 1) t v (omega (arith, v.in_line)))
press-Placed f key right t not_enter stays v = unless-Placed (t.pos == length t.line) t _ v (λ e.
    move_to-Placed (t.pos + 1) t v (omega (arith, v.in_line, not_equal t.pos (length t.line) e)))
press-Placed f key home t not_enter stays v =
    unless-Placed (t.pos == 0) t _ v (λ e. move_to-Placed 0 t v (omega arith))
press-Placed f key end t not_enter stays v =
    unless-Placed (t.pos == length t.line) t _ v
      (λ e. move_to-Placed (length t.line) t v (omega arith))
press-Placed f key up t not_enter stays v = up-Placed t _ v
press-Placed f key down t not_enter stays v = down-Placed t.history_index t v
press-Placed f key enter t not_enter stays v = absurd (not_enter refl)
press-Placed f key delete_word t not_enter stays v = erase-Placed (count_to_left_word t) t v
press-Placed f key delete_line t not_enter stays v = delete_line-Placed t v
press-Placed f key delete_here t not_enter stays v = delete_here-Placed t v
press-Placed f key delete_start t not_enter stays v = erase-Placed t.pos t v
press-Placed f key clear_screen t not_enter stays v = clear_screen-Placed t v
press-Placed f key other t not_enter stays v = other-Placed f key t stays v

enter-Fresh : (t : Terminal) → Fresh (press_enter t)
enter-Fresh t = record { no_line = refl; at_start = refl; at_left = refl; at_top = refl }

is_enter : (a : Action) → (a ≡ enter) ⊎ (a ≢ enter)
is_enter enter = inl refl
is_enter a = inr (λ e. cc)

-- With echo on, from a position inside the line and a cursor in its row and at the place of the
-- position, handling any key leads to such a state again or, as Enter does, to an empty line at the
-- start of a row. A callback for completion answers with a place in its line.
pub handle_key-Placed :
    (f : Complete) (key : ℕ) (t : Terminal)
    → StaysInLine f
    → Placed t
    → Placed (handle_key f key t).1 ⊎ Fresh (handle_key f key t).1
unfolding handle_key
handle_key-Placed f key t stays v = go (t.paste_active && not (key == key_enter))
  where
    pressed : Placed (press f key (action_of key) t) ⊎ Fresh (press f key (action_of key) t)
    pressed = elim (is_enter (action_of key)) [
      | inl e ↦ inr (subst (λ a. Fresh (press f key a t)) (sym e) (unfold press in enter-Fresh t))
      | inr ne ↦ inl (press-Placed f key (action_of key) t ne stays v)
    ]

    go :
        (b : Bool)
        → let out : Option Text × Terminal =
            (if b
              then (none, add_key_to_line key t)
              else (entered (action_of key) t, press f key (action_of key) t)) in
          Placed out.1 ⊎ Fresh out.1
    go true = inl (add_key-Placed key t v)
    go false = pressed
