-- ===== src/Terminal/Valid.antt =====
-- handleKey of terminal/terminal.go: the place in the line and the place of the cursor.
use xcryptossh.Prelude.{
  ℕ, ◌+◌, ◌-◌, ◌≤◌, ◌<◌, ◌≡◌, refl, sym, ◌∙◌, ap, ap₂, subst, List, [], ◌∷◌, ◌++◌, none, some, Bool,
  true, false, ◌==◌, ◌&&◌, not, if◌then◌else◌, length, take, drop, min, arith, length-append,
  length-take, length-drop, replicate,
}
use xcryptossh.Terminal.{
  Terminal, queue, visual_length, move_cursor_to_pos, advance_cursor, write_line, write_spaces,
  set_line, erase_n_previous_chars, erase_chars, add_key_to_line, space,
}
use xcryptossh.Terminal.History.{Text}
use xcryptossh.Terminal.Cursor.{
  Draws, Draws-trans, queue-Draws, advance_cursor-Draws, write_line-Draws, write_spaces-Draws,
  move_cursor_to_pos-Draws, move_cursor_to_pos-cell, AtPos,
}
use xcryptossh.Terminal.Keys.{Complete, move_to, type_key, is_printable, max_line_length}

-- With echo on: the position lies in the line, the cursor in its row, and the cursor stands where
-- the position is.
pub record Placed (t : Terminal) : Type 0 where
  pub echoes : t.echo ≡ true
  pub in_line : t.pos ≤ length t.line
  pub in_row : t.cursor_x < t.term_width
  pub at_pos : AtPos t

-- Behind Enter: an empty line, at the start of a row.
pub record Fresh (t : Terminal) : Type 0 where
  pub no_line : t.line ≡ []
  pub at_start : t.pos ≡ 0
  pub at_left : t.cursor_x ≡ 0
  pub at_top : t.cursor_y ≡ 0

-- A callback that answers with a place in its line.
abbrev pub StaysInLine : Complete → Type 0
StaysInLine none = Unit {0}
StaysInLine (some f) =
    (line : Text) (pos key : ℕ) (out : Text) (new_pos : ℕ)
    → f line pos key ≡ some (out, new_pos)
    → new_pos ≤ length out

pub finish-Placed :
    (p : ℕ) (x : Terminal)
    → x.echo ≡ true
    → x.pos ≡ p
    → p ≤ length x.line
    → x.cursor_x < x.term_width
    → Placed (move_cursor_to_pos p x)
finish-Placed p x e at fits row =
    let d : Draws x (move_cursor_to_pos p x) = move_cursor_to_pos-Draws p x in
    record {
      echoes = d.same_echo ∙ e;
      in_line = omega (arith, d.same_pos, ap length d.same_line);
      in_row = d.in_row row;
      at_pos =
          move_cursor_to_pos-cell p x e
          ∙ ap₂ (λ prompt q. visual_length prompt + q) (sym d.same_prompt) (sym (d.same_pos ∙ at));
    }

pub move_to-Placed : (p : ℕ) (t : Terminal) → Placed t → p ≤ length t.line → Placed (move_to p t)
move_to-Placed p t v fits = finish-Placed p (record t { pos = p }) v.echoes refl fits v.in_row

pub set_line-Placed :
    (line : List ℕ) (p : ℕ) (t : Terminal)
    → t.echo ≡ true
    → t.cursor_x < t.term_width
    → p ≤ length line
    → Placed (set_line line p t)
unfolding set_line
set_line-Placed line p t e row fits =
    let home' = move_cursor_to_pos 0 t in
    let lined = write_line line home' in
    let spaced = write_spaces (length t.line - length line) lined in
    let d : Draws t spaced = Draws-trans t home' spaced (move_cursor_to_pos-Draws 0 t) (
      Draws-trans home' lined spaced (write_line-Draws line home')
        (write_spaces-Draws (length t.line - length line) lined)) in
    let last : Draws spaced (move_cursor_to_pos p spaced) = move_cursor_to_pos-Draws p spaced in
    let echo' : spaced.echo ≡ true = d.same_echo ∙ e in
    subst
      (λ b.
        let out : Terminal = if b then move_cursor_to_pos p spaced else t in
        Placed (record out { line = line; pos = p }))
      (sym e)
      (record {
        echoes = last.same_echo ∙ echo';
        in_line = fits;
        in_row = last.in_row (d.in_row row);
        at_pos =
            move_cursor_to_pos-cell p spaced echo'
            ∙ ap (λ prompt. visual_length prompt + p) (sym last.same_prompt);
      })

pub erase_chars-Placed :
    (n : ℕ) (t : Terminal)
    → t.echo ≡ true
    → t.pos ≤ length t.line
    → t.cursor_x < t.term_width
    → n ≤ t.pos
    → Placed (erase_chars n t)
erase_chars-Placed n t e fits row few =
    let p : ℕ = t.pos - n in
    let placed : Terminal = record t { pos = p } in
    let m : Terminal = move_cursor_to_pos p placed in
    let dm : Draws placed m = move_cursor_to_pos-Draws p placed in
    let line' : List ℕ = take p t.line ++ drop (n + p) t.line in
    let cut : Terminal = record m { line = line' } in
    let lined : Terminal = write_line (drop cut.pos cut.line) cut in
    let queued : Terminal = queue (replicate n space) lined in
    let advanced : Terminal = advance_cursor n queued in
    let d : Draws cut advanced =
      Draws-trans cut lined advanced (write_line-Draws (drop cut.pos cut.line) cut) (
        Draws-trans lined queued advanced (queue-Draws (replicate n space) lined)
          (advance_cursor-Draws n queued)) in
    subst (λ b. Placed (if b then move_cursor_to_pos cut.pos advanced else cut))
      (sym (dm.same_echo ∙ e))
      (finish-Placed cut.pos advanced (d.same_echo ∙ dm.same_echo ∙ e) d.same_pos
        (omega (
          arith,
          ap length d.same_line,
          dm.same_pos,
          length-append (take p t.line) (drop (n + p) t.line),
          length-take p t.line,
          length-drop (n + p) t.line,
        ))
        (d.in_row (dm.in_row row)))

pub erase-Placed : (n : ℕ) (t : Terminal) → Placed t → Placed (erase_n_previous_chars n t)
unfolding erase_n_previous_chars
erase-Placed n t v = go (n == 0)
  where
    go : (b : Bool) → Placed (if b then t else erase_chars (min t.pos n) t)
    go true = v
    go false = erase_chars-Placed (min t.pos n) t v.echoes v.in_line v.in_row (omega arith)

pub add_key-Placed : (key : ℕ) (t : Terminal) → Placed t → Placed (add_key_to_line key t)
unfolding add_key_to_line
add_key-Placed key t v =
    let grown : Terminal = record t { line = take t.pos t.line ++ (key ∷ drop t.pos t.line) } in
    let lined : Terminal = write_line (drop t.pos grown.line) grown in
    let d : Draws grown lined = write_line-Draws (drop t.pos grown.line) grown in
    subst
      (λ b.
        let drawn : Terminal = if b then lined else grown in
        Placed (move_cursor_to_pos (t.pos + 1) (record drawn { pos = t.pos + 1 })))
      (sym v.echoes)
      (finish-Placed (t.pos + 1) (record lined { pos = t.pos + 1 }) (d.same_echo ∙ v.echoes) refl
        (omega (
          arith,
          v.in_line,
          ap length d.same_line,
          length-append (take t.pos t.line) (key ∷ drop t.pos t.line),
          length-take t.pos t.line,
          length-drop t.pos t.line,
        ))
        (d.in_row v.in_row))

pub type_key-Placed : (key : ℕ) (t : Terminal) → Placed t → Placed (type_key key t)
type_key-Placed key t v = go (is_printable key && not (length t.line == max_line_length))
  where
    go : (b : Bool) → Placed (if b then add_key_to_line key t else t)
    go true = add_key-Placed key t v
    go false = v
