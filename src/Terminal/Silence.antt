-- ===== src/Terminal/Silence.antt =====
-- handleKey of terminal/terminal.go with echo off, as ReadPassword sets it.
use xcryptossh.Prelude.{
  ℕ, ◌+◌, ◌-◌, ◌/◌, ◌%◌, zero, suc, ◌≡◌, refl, sym, ◌∙◌, ap, List, [], ◌∷◌, ◌++◌, Option, none,
  some, Bytes, Bool, true, false, ltb, ◌==◌, ◌&&◌, not, if◌then◌else◌, length, take, drop, min,
  if_false,
}
use xcryptossh.Terminal.{
  Terminal, queue, visual_length, move_cursor_to_pos, advance_cursor, set_line,
  erase_n_previous_chars, erase_chars, redraw_erased, add_key_to_line, space, text_of, key_escape,
  count_to_left_word, count_to_right_word, write_line,
}
use xcryptossh.Terminal.Cursor.{advance_cursor-Draws, queue-Draws}
use xcryptossh.Terminal.Presses.{blank_out-Draws}
use xcryptossh.Terminal.History.{Text, nth_previous_entry}
use xcryptossh.Terminal.Keys.{
  Complete, Action, backspace, alt_left, alt_right, left, right, home, end, up, down, enter,
  delete_word, delete_line, delete_here, delete_start, clear_screen, other, action_of, press,
  handle_key, move_to, go_up, go_down, go_back, blank_out, type_key, completed, press_other,
  press_delete_here, key_enter, is_printable, max_line_length, entered,
}

move_cursor_to_pos-silent : (p : ℕ) (t : Terminal) → t.echo ≡ false → move_cursor_to_pos p t ≡ t
unfolding move_cursor_to_pos
move_cursor_to_pos-silent p t e = if_false _ _ e

set_line-silent :
    (line : List ℕ) (p : ℕ) (t : Terminal)
    → t.echo ≡ false
    → (set_line line p t).out_buf ≡ t.out_buf
unfolding set_line
set_line-silent line p t e = ap (λ (x : Terminal). x.out_buf) (if_false _ _ e)

erase_chars-silent : (n : ℕ) (t : Terminal) → t.echo ≡ false → (erase_chars n t).out_buf ≡ t.out_buf
erase_chars-silent n t e =
    let p : ℕ = t.pos - n in
    let line : List ℕ = take p t.line ++ drop (n + p) t.line in
    let still : move_cursor_to_pos p (record t { pos = p }) ≡ record t { pos = p } =
      move_cursor_to_pos-silent p (record t { pos = p }) e in
    ap (λ (m : Terminal). (redraw_erased n (record m { line = line })).out_buf) still
    ∙ ap (λ (x : Terminal). x.out_buf) (if_false {b = t.echo} _ _ e)

erase-silent :
    (n : ℕ) (t : Terminal) → t.echo ≡ false → (erase_n_previous_chars n t).out_buf ≡ t.out_buf
unfolding erase_n_previous_chars
erase-silent n t e = go (n == 0)
  where
    go : (b : Bool) → (if b then t else erase_chars (min t.pos n) t).out_buf ≡ t.out_buf
    go true = refl
    go false = erase_chars-silent (min t.pos n) t e

add_key-silent :
    (key : ℕ) (t : Terminal) → t.echo ≡ false → (add_key_to_line key t).out_buf ≡ t.out_buf
unfolding add_key_to_line
add_key-silent key t e =
    let grown : Terminal = record t { line = take t.pos t.line ++ (key ∷ drop t.pos t.line) } in
    let lined : Terminal = write_line (drop t.pos grown.line) grown in
    ap
      (λ b.
        let drawn : Terminal = if b then lined else grown in
        (move_cursor_to_pos (t.pos + 1) (record drawn { pos = t.pos + 1 })).out_buf)
      e
    ∙ ap (λ (x : Terminal). x.out_buf)
        (move_cursor_to_pos-silent (t.pos + 1) (record grown { pos = t.pos + 1 }) e)

-- What a key makes the terminal write with echo off, where `n` runes stand behind the cursor.
abbrev Heard : Action → ℕ → Terminal → Bytes
Heard enter n t = (queue (13 ∷ 10 ∷ []) t).out_buf
Heard delete_line n t = (blank_out n t).out_buf
Heard clear_screen n t =
    (advance_cursor (visual_length t.prompt)
      (record (queue t.prompt
        (queue (key_escape ∷ b'[' ∷ b'2' ∷ b'J' ∷ key_escape ∷ b'[' ∷ b'H' ∷ []) t)) {
          cursor_x = 0;
          cursor_y = 0;
        })).out_buf
Heard _ n t = t.out_buf

move_to-silent : (p : ℕ) (t : Terminal) → t.echo ≡ false → (move_to p t).out_buf ≡ t.out_buf
move_to-silent p t e =
    ap (λ (x : Terminal). x.out_buf) (move_cursor_to_pos-silent p (record t { pos = p }) e)

type_key-silent : (key : ℕ) (t : Terminal) → t.echo ≡ false → (type_key key t).out_buf ≡ t.out_buf
type_key-silent key t e = go (is_printable key && not (length t.line == max_line_length))
  where
    go : (b : Bool) → (if b then add_key_to_line key t else t).out_buf ≡ t.out_buf
    go true = add_key-silent key t e
    go false = refl

up-silent : (t : Terminal) (o : Option Text) → t.echo ≡ false → (go_up t o).out_buf ≡ t.out_buf
up-silent t none e = refl
up-silent t (some entry) e = set_line-silent entry (length entry) _ e

back-silent :
    (i : ℕ) (t : Terminal) (o : Option Text) → t.echo ≡ false → (go_back i t o).out_buf ≡ t.out_buf
back-silent i t none e = refl
back-silent i t (some entry) e = set_line-silent entry (length entry) _ e

down-silent : (o : Option ℕ) (t : Terminal) → t.echo ≡ false → (go_down o t).out_buf ≡ t.out_buf
down-silent none t e = refl
down-silent (some zero) t e = set_line-silent t.history_pending (length t.history_pending) t e
down-silent (some (suc i)) t e = back-silent i t (nth_previous_entry i t.history) e

other-silent :
    (f : Complete) (key : ℕ) (t : Terminal)
    → t.echo ≡ false
    → (press_other f key t).out_buf ≡ t.out_buf
other-silent none key t e = type_key-silent key t e
other-silent (some f) key t e = go (f (text_of t.line) t.pos key)
  where
    go : (o : Option (Text × ℕ)) → (completed key t o).out_buf ≡ t.out_buf
    go none = type_key-silent key t e
    go (some (line, p)) = set_line-silent line p t e

-- A key that does nothing where the test holds.
unless-silent :
    (b : Bool) (t t' : Terminal)
    → t'.out_buf ≡ t.out_buf
    → (if b then t else t').out_buf ≡ t.out_buf
unless-silent true t t' h = refl
unless-silent false t t' h = h

here-silent : (t : Terminal) → t.echo ≡ false → (press_delete_here t).out_buf ≡ t.out_buf
here-silent t e = go (ltb t.pos (length t.line))
  where
    go :
        (b : Bool)
        → (if b then erase_n_previous_chars 1 (record t { pos = t.pos + 1 }) else t).out_buf
          ≡ t.out_buf
    go true = erase-silent 1 (record t { pos = t.pos + 1 }) e
    go false = refl

press-Heard :
    (f : Complete) (key : ℕ) (a : Action) (t : Terminal)
    → t.echo ≡ false
    → (press f key a t).out_buf ≡ Heard a (length t.line - t.pos) t
unfolding press
press-Heard f key backspace t e = unless-silent (t.pos == 0) t _ (erase-silent 1 t e)
press-Heard f key alt_left t e = move_to-silent (t.pos - count_to_left_word t) t e
press-Heard f key alt_right t e = move_to-silent (t.pos + count_to_right_word t) t e
press-Heard f key left t e = unless-silent (t.pos == 0) t _ (move_to-silent (t.pos - 1) t e)
press-Heard f key right t e =
    unless-silent (t.pos == length t.line) t _ (move_to-silent (t.pos + 1) t e)
press-Heard f key home t e = unless-silent (t.pos == 0) t _ (move_to-silent 0 t e)
press-Heard f key end t e =
    unless-silent (t.pos == length t.line) t _ (move_to-silent (length t.line) t e)
press-Heard f key up t e = up-silent t _ e
press-Heard f key down t e = down-silent t.history_index t e
press-Heard f key enter t e =
    ap (λ (x : Terminal). (queue (13 ∷ 10 ∷ []) x).out_buf)
      (move_cursor_to_pos-silent (length t.line) t e)
press-Heard f key delete_word t e = erase-silent (count_to_left_word t) t e
press-Heard f key delete_line t e =
    let n : ℕ = length t.line - t.pos in
    ap (λ (x : Terminal). x.out_buf)
      (move_cursor_to_pos-silent t.pos (record (blank_out n t) { line = take t.pos t.line })
        ((blank_out-Draws n t).same_echo ∙ e))
press-Heard f key delete_here t e = here-silent t e
press-Heard f key delete_start t e = erase-silent t.pos t e
press-Heard f key clear_screen t e =
    let cleared : Terminal =
      queue (key_escape ∷ b'[' ∷ b'2' ∷ b'J' ∷ key_escape ∷ b'[' ∷ b'H' ∷ []) t in
    let prompted : Terminal = queue t.prompt cleared in
    let homed : Terminal = record prompted { cursor_x = 0; cursor_y = 0 } in
    set_line-silent t.line t.pos (advance_cursor (visual_length t.prompt) homed) (
      (advance_cursor-Draws (visual_length t.prompt) homed).same_echo
      ∙ (queue-Draws t.prompt cleared).same_echo
      ∙ (queue-Draws (key_escape ∷ b'[' ∷ b'2' ∷ b'J' ∷ key_escape ∷ b'[' ∷ b'H' ∷ []) t).same_echo
      ∙ e)
press-Heard f key other t e = other-silent f key t e

advance_cursor-line :
    (n : ℕ) (t : Terminal) (line : List ℕ)
    → advance_cursor n (record t { line = line }) ≡ record (advance_cursor n t) { line = line }
unfolding advance_cursor
advance_cursor-line n t line = go (ltb 0 n && ((t.cursor_x + n) % t.term_width == 0))
  where
    y : ℕ
    y = t.cursor_y + (t.cursor_x + n) / t.term_width

    moved : Terminal
    moved = record t {
      cursor_x = (t.cursor_x + n) % t.term_width;
      cursor_y = y;
      max_line = if ltb t.max_line y then y else t.max_line;
    }

    go :
        (b : Bool)
        → (let wrapped : Terminal = record moved { out_buf = t.out_buf ++ (13 ∷ 10 ∷ []) } in
            let new : Terminal = record moved { line = line } in
            let here : Terminal = if b then record wrapped { line = line } else new in
            let there : Terminal = if b then wrapped else moved in
            here ≡ record there { line = line })
    go true = refl
    go false = refl

blank_out-line :
    (n : ℕ) (t : Terminal) (line : List ℕ)
    → blank_out n (record t { line = line }) ≡ record (blank_out n t) { line = line }
unfolding blank_out
blank_out-line zero t line = refl
blank_out-line (suc n) t line =
    let queued : Terminal = queue (space ∷ []) t in
    ap (blank_out n) ((unfold queue in advance_cursor-line 1 queued line))
    ∙ blank_out-line n (advance_cursor 1 queued) line

Heard-line :
    (a : Action) (n : ℕ) (t : Terminal) (line : List ℕ)
    → Heard a n (record t { line = line }) ≡ Heard a n t
Heard-line enter n t line = unfold queue in refl
Heard-line delete_line n t line = ap (λ (x : Terminal). x.out_buf) (blank_out-line n t line)
Heard-line clear_screen k t line =
    let cleared : Terminal =
      queue (key_escape ∷ b'[' ∷ b'2' ∷ b'J' ∷ key_escape ∷ b'[' ∷ b'H' ∷ []) t in
    let homed : Terminal = record (queue t.prompt cleared) { cursor_x = 0; cursor_y = 0 } in
    let n : ℕ = visual_length t.prompt in
    let same : (advance_cursor n (record homed { line = line })).out_buf
        ≡ (record (advance_cursor n homed) { line = line }).out_buf =
      ap (λ (x : Terminal). x.out_buf) (advance_cursor-line n homed line) in
    unfold queue in same
Heard-line a n t line = refl

-- With echo off, as ReadPassword has it, what a key makes the terminal write does not depend on
-- the line that was typed, but for its length: another line of that length in its place leaves
-- the same output.
pub handle_key-silent :
    (f : Complete) (key : ℕ) (t : Terminal) (line : Text)
    → t.echo ≡ false
    → length line ≡ length t.line
    → (handle_key f key (record t { line = line })).1.out_buf ≡ (handle_key f key t).1.out_buf
unfolding handle_key
handle_key-silent f key t line e same = go (t.paste_active && not (key == key_enter))
  where
    t' : Terminal
    t' = record t { line = line }

    pressed : (press f key (action_of key) t').out_buf ≡ (press f key (action_of key) t).out_buf
    pressed =
        press-Heard f key (action_of key) t' e
        ∙ Heard-line (action_of key) (length line - t.pos) t line
        ∙ ap (λ n. Heard (action_of key) (n - t.pos) t) same
        ∙ sym (press-Heard f key (action_of key) t e)

    go :
        (b : Bool)
        → (let out : Option Text × Terminal =
              (if b
                then (none, add_key_to_line key t')
                else (entered (action_of key) t', press f key (action_of key) t')) in
            let before : Option Text × Terminal =
              (if b
                then (none, add_key_to_line key t)
                else (entered (action_of key) t, press f key (action_of key) t)) in
            out.1.out_buf ≡ before.1.out_buf)
    go true = add_key-silent key t' e ∙ sym (add_key-silent key t e)
    go false = pressed
