-- ===== src/Terminal/Cursor.antt =====
-- What the drawing functions of terminal/terminal.go leave alone, and where they leave the cursor.
use xcryptossh.Prelude.{
  ℕ, ◌+◌, ◌-◌, ◌*◌, ◌/◌, ◌%◌, ◌<◌, zero, suc, ◌≡◌, refl, sym, ◌∙◌, subst, List, [], ◌∷◌, ◌++◌, Bool,
  true, false, ltb, ◌==◌, ◌&&◌, if◌then◌else◌, length, take, drop, min, arith,
}
use xcryptossh.Terminal.{
  Terminal, queue, visual_length, move, move_cursor_to_pos, advance_cursor, write_loop, write_line,
  write_spaces, space,
}

-- A function that draws keeps the text and the width, and the cursor inside its row.
pub record Draws (t t' : Terminal) : Type 0 where
  pub same_prompt : t'.prompt ≡ t.prompt
  pub same_line : t'.line ≡ t.line
  pub same_pos : t'.pos ≡ t.pos
  pub same_echo : t'.echo ≡ t.echo
  pub same_width : t'.term_width ≡ t.term_width
  pub in_row : t.cursor_x < t.term_width → t'.cursor_x < t'.term_width

pub Draws-refl : (t : Terminal) → Draws t t
Draws-refl t = record {
  same_prompt = refl;
  same_line = refl;
  same_pos = refl;
  same_echo = refl;
  same_width = refl;
  in_row = λ h. h;
}

pub Draws-trans : (a b c : Terminal) → Draws a b → Draws b c → Draws a c
Draws-trans a b c p q = record {
  same_prompt = q.same_prompt ∙ p.same_prompt;
  same_line = q.same_line ∙ p.same_line;
  same_pos = q.same_pos ∙ p.same_pos;
  same_echo = q.same_echo ∙ p.same_echo;
  same_width = q.same_width ∙ p.same_width;
  in_row = λ h. q.in_row (p.in_row h);
}

mod-in_row : (n w : ℕ) → 0 < w → n % w < w
mod-in_row n w h = grind arith

pub queue-Draws : (runes : List ℕ) (t : Terminal) → Draws t (queue runes t)
unfolding queue
queue-Draws runes t = record {
  same_prompt = refl;
  same_line = refl;
  same_pos = refl;
  same_echo = refl;
  same_width = refl;
  in_row = λ h. h;
}

pub advance_cursor-Draws : (n : ℕ) (t : Terminal) → Draws t (advance_cursor n t)
unfolding advance_cursor
advance_cursor-Draws n t = go (ltb 0 n && ((t.cursor_x + n) % t.term_width == 0))
  where
    y : ℕ
    y = t.cursor_y + (t.cursor_x + n) / t.term_width

    moved : Terminal
    moved = record t {
      cursor_x = (t.cursor_x + n) % t.term_width;
      cursor_y = y;
      max_line = if ltb t.max_line y then y else t.max_line;
    }

    go :
        (b : Bool)
        → Draws t (if b then record moved { out_buf = t.out_buf ++ (13 ∷ 10 ∷ []) } else moved)
    go true = record {
      same_prompt = refl;
      same_line = refl;
      same_pos = refl;
      same_echo = refl;
      same_width = refl;
      in_row = λ h. mod-in_row (t.cursor_x + n) t.term_width (omega arith);
    }
    go false = record {
      same_prompt = refl;
      same_line = refl;
      same_pos = refl;
      same_echo = refl;
      same_width = refl;
      in_row = λ h. mod-in_row (t.cursor_x + n) t.term_width (omega arith);
    }

write_loop-Draws : (fuel : ℕ) (line : List ℕ) (t : Terminal) → Draws t (write_loop fuel line t)
unfolding write_loop
write_loop-Draws zero line t = Draws-refl t
write_loop-Draws (suc fuel) [] t = Draws-refl t
write_loop-Draws (suc fuel) (r ∷ rs) t =
    let todo = min (length (r ∷ rs)) (t.term_width - t.cursor_x) in
    let chunk = take todo (r ∷ rs) in
    let queued = queue chunk t in
    let advanced = advance_cursor (visual_length chunk) queued in
    Draws-trans t queued _ (queue-Draws chunk t) (
      Draws-trans queued advanced _ (advance_cursor-Draws (visual_length chunk) queued)
        (write_loop-Draws fuel (drop todo (r ∷ rs)) advanced))

pub write_line-Draws : (line : List ℕ) (t : Terminal) → Draws t (write_line line t)
unfolding write_line
write_line-Draws line t = write_loop-Draws (length line) line t

pub write_spaces-Draws : (n : ℕ) (t : Terminal) → Draws t (write_spaces n t)
unfolding write_spaces
write_spaces-Draws zero t = Draws-refl t
write_spaces-Draws (suc n) t =
    Draws-trans t (write_line (space ∷ []) t) _ (write_line-Draws (space ∷ []) t)
      (write_spaces-Draws n (write_line (space ∷ []) t))

abbrev moved : ℕ → Terminal → Terminal
moved p t =
    let whole = visual_length t.prompt + p in
    move (t.cursor_y - whole / t.term_width) (whole / t.term_width - t.cursor_y)
      (t.cursor_x - whole % t.term_width) (whole % t.term_width - t.cursor_x)
      (record t { cursor_x = whole % t.term_width; cursor_y = whole / t.term_width })

pub move_cursor_to_pos-Draws : (p : ℕ) (t : Terminal) → Draws t (move_cursor_to_pos p t)
unfolding move_cursor_to_pos
move_cursor_to_pos-Draws p t = go t.echo
  where
    go : (b : Bool) → Draws t (if b then moved p t else t)
    go false = Draws-refl t
    go true = record {
      same_prompt = refl;
      same_line = refl;
      same_pos = refl;
      same_echo = refl;
      same_width = refl;
      in_row = λ h. mod-in_row (visual_length t.prompt + p) t.term_width (omega arith);
    }

-- The place behind the prompt and the first `pos` runes of the line.
abbrev pub AtPos : Terminal → Type 0
AtPos t = t.cursor_y * t.term_width + t.cursor_x ≡ visual_length t.prompt + t.pos

div_mod : (n w : ℕ) → n / w * w + n % w ≡ n
div_mod n w = grind arith

pub move_cursor_to_pos-cell :
    (p : ℕ) (t : Terminal)
    → t.echo ≡ true
    → (move_cursor_to_pos p t).cursor_y * (move_cursor_to_pos p t).term_width
        + (move_cursor_to_pos p t).cursor_x
      ≡ visual_length t.prompt + p
unfolding move_cursor_to_pos
move_cursor_to_pos-cell p t e =
    subst
      (λ b.
        let out : Terminal = if b then moved p t else t in
        out.cursor_y * out.term_width + out.cursor_x ≡ visual_length t.prompt + p)
      (sym e) (div_mod (visual_length t.prompt + p) t.term_width)
