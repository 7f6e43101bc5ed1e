-- ===== src/Terminal.antt =====
-- The line editor of terminal/terminal.go: its state, and the functions that draw the line and
-- move the cursor. `Terminal.Keys` reads and handles keys, `Terminal.Lines` has Write, ReadLine and
-- SetSize, and `Terminal.History` the history.
pub mod History
pub mod Keys
pub mod Lines
pub mod Cursor
pub mod Valid
pub mod Presses
pub mod Silence
use xcryptossh.Prelude.{
  ℕ, ◌+◌, ◌-◌, ◌*◌, ◌/◌, ◌%◌, zero, suc, List, [], ◌∷◌, ◌++◌, Option, none, some, Bytes, Bool, true,
  false, ◌==◌, ltb, leb, if◌then◌else◌, length, take, drop, replicate, get_elem?, ◌&&◌, ◌||◌, min,
  not,
}
use xcryptossh.Errors.{Error}
use xcryptossh.Terminal.History.{Text, Ring, new_ring}

-- `history_index` is `none` for -1. Of the writer `c`: what was written, and the error that a write
-- runs into, if any.
pub record Terminal : Type 0 where
  pub shown : Bytes
  pub broken : Option Error
  pub prompt : Text
  pub line : Text
  pub pos : ℕ
  pub echo : Bool
  pub paste_active : Bool
  pub cursor_x : ℕ
  pub cursor_y : ℕ
  pub max_line : ℕ
  pub term_width : ℕ
  pub term_height : ℕ
  pub out_buf : Bytes
  pub remainder : Bytes
  pub history : Ring
  pub history_index : Option ℕ
  pub history_pending : Text

unfoldable pub new_terminal : Text → Terminal
new_terminal prompt = record {
  shown = [];
  broken = none;
  prompt = prompt;
  line = [];
  pos = 0;
  echo = true;
  paste_active = false;
  cursor_x = 0;
  cursor_y = 0;
  max_line = 0;
  term_width = 80;
  term_height = 24;
  out_buf = [];
  remainder = [];
  history = new_ring;
  history_index = none;
  history_pending = [];
}

abbrev pub rune_error : ℕ
rune_error = 0xfffd

-- What `string` makes of a rune: surrogates and runes past the last become the replacement rune.
abbrev pub valid_rune : ℕ → ℕ
valid_rune r = if (leb 0xd800 r && leb r 0xdfff) || ltb 0x10ffff r then rune_error else r

unfoldable pub text_of : List ℕ → Text
text_of [] = []
text_of (r ∷ rs) = valid_rune r ∷ text_of rs

-- The UTF-8 form of a valid rune.
abbrev pub encode_rune : ℕ → Bytes
encode_rune r =
    if ltb r 0x80
    then r ∷ []
    else if ltb r 0x800
    then (0xc0 + r / 64) ∷ (0x80 + r % 64) ∷ []
    else if ltb r 0x10000
    then (0xe0 + r / 4096) ∷ (0x80 + r / 64 % 64) ∷ (0x80 + r % 64) ∷ []
    else (0xf0 + r / 262144) ∷ (0x80 + r / 4096 % 64) ∷ (0x80 + r / 64 % 64) ∷ (0x80 + r % 64) ∷ []

unfoldable pub utf8 : Text → Bytes
utf8 [] = []
utf8 (r ∷ rs) = encode_rune r ++ utf8 rs

unfoldable pub queue : List ℕ → Terminal → Terminal
unfolding utf8 text_of
queue runes t = record t { out_buf = t.out_buf ++ utf8 (text_of runes) }

abbrev pub key_escape : ℕ
key_escape = 27

abbrev pub space : ℕ
space = b' '

abbrev is_letter : ℕ → Bool
is_letter r = (leb b'a' r && leb r b'z') || (leb b'A' r && leb r b'Z')

-- The loop of visualLength; the flag is `inEscapeSeq`.
unfoldable pub visible : Bool → List ℕ → ℕ
visible in_escape [] = 0
visible true (r ∷ rs) = visible (not (is_letter r)) rs
visible false (r ∷ rs) =
    let glyph = visible false rs in
    let escape = visible true rs in if r == key_escape then escape else glyph + 1

unfoldable pub visual_length : List ℕ → ℕ
unfolding visible
visual_length runes = visible false runes

-- `n` times the sequence for one step.
abbrev pub steps : ℕ → ℕ → List ℕ
steps zero letter = []
steps (suc n) letter = key_escape ∷ b'[' ∷ letter ∷ steps n letter

unfoldable pub move : ℕ → ℕ → ℕ → ℕ → Terminal → Terminal
unfolding queue
move up down left right t =
    queue (steps up b'A' ++ (steps down b'B' ++ (steps left b'D' ++ steps right b'C'))) t

-- A division by a width of 0 panics; SetSize and NewTerminal leave none.
unfoldable pub move_cursor_to_pos : ℕ → Terminal → Terminal
unfolding move visual_length
move_cursor_to_pos pos t =
    let whole = visual_length t.prompt + pos in
    let y = whole / t.term_width in
    let x = whole % t.term_width in
    if t.echo
    then move (t.cursor_y - y) (y - t.cursor_y) (t.cursor_x - x) (x - t.cursor_x)
        (record t { cursor_x = x; cursor_y = y })
    else t

unfoldable pub clear_line_to_right : Terminal → Terminal
unfolding queue
clear_line_to_right t = queue (key_escape ∷ b'[' ∷ b'K' ∷ []) t

-- The `\r\n` where the cursor stops at the end of a row.
abbrev pub wrap : ℕ → Terminal → Terminal
wrap places t =
    if ltb 0 places && (t.cursor_x == 0)
    then record t { out_buf = t.out_buf ++ (13 ∷ 10 ∷ []) }
    else t

abbrev pub max_of : ℕ → ℕ → ℕ
max_of a b = if ltb a b then b else a

unfoldable pub advance_cursor : ℕ → Terminal → Terminal
advance_cursor places t =
    let y = t.cursor_y + (t.cursor_x + places) / t.term_width in
    wrap places (record t {
      cursor_x = (t.cursor_x + places) % t.term_width;
      cursor_y = y;
      max_line = max_of t.max_line y;
    })

-- The loop of writeLine, on fuel: a round takes a rune at least while the cursor is in its row.
unfoldable pub write_loop : ℕ → List ℕ → Terminal → Terminal
unfolding queue advance_cursor visual_length
write_loop zero line t = t
write_loop (suc fuel) [] t = t
write_loop (suc fuel) (r ∷ rs) t =
    let todo = min (length (r ∷ rs)) (t.term_width - t.cursor_x) in
    let chunk = take todo (r ∷ rs) in
    write_loop fuel (drop todo (r ∷ rs)) (advance_cursor (visual_length chunk) (queue chunk t))

unfoldable pub write_line : List ℕ → Terminal → Terminal
unfolding write_loop
write_line line t = write_loop (length line) line t

-- `n` spaces, each written as a line.
unfoldable pub write_spaces : ℕ → Terminal → Terminal
unfolding write_line
write_spaces zero t = t
write_spaces (suc n) t = write_spaces n (write_line (space ∷ []) t)

unfoldable pub set_line : List ℕ → ℕ → Terminal → Terminal
unfolding move_cursor_to_pos write_line write_spaces
set_line new_line new_pos t =
    let drawn = move_cursor_to_pos new_pos (
      write_spaces (length t.line - length new_line)
        (write_line new_line (move_cursor_to_pos 0 t))) in
    let out = if t.echo then drawn else t in record out { line = new_line; pos = new_pos }

-- What is drawn behind the runes that eraseNPreviousChars has taken out.
abbrev pub redraw_erased : ℕ → Terminal → Terminal
redraw_erased n t =
    if t.echo
    then move_cursor_to_pos t.pos
        (advance_cursor n (queue (replicate n space) (write_line (drop t.pos t.line) t)))
    else t

abbrev pub erase_chars : ℕ → Terminal → Terminal
erase_chars n t =
    let pos = t.pos - n in
    let moved = move_cursor_to_pos pos (record t { pos = pos }) in
    redraw_erased n (record moved { line = take pos t.line ++ drop (n + pos) t.line })

unfoldable pub erase_n_previous_chars : ℕ → Terminal → Terminal
unfolding move_cursor_to_pos write_line queue advance_cursor
erase_n_previous_chars n t = if n == 0 then t else erase_chars (min t.pos n) t

abbrev pub is_gap : Option ℕ → Bool
is_gap none = false
is_gap (some r) = r == space

-- The two loops of countToLeftWord, down from a position.
unfoldable pub skip_spaces_left : List ℕ → ℕ → ℕ
skip_spaces_left line zero = zero
skip_spaces_left line (suc pos) =
    let more = skip_spaces_left line pos in
    if is_gap (get_elem? line (suc pos)) then more else suc pos

unfoldable pub skip_word_left : List ℕ → ℕ → ℕ
skip_word_left line zero = zero
skip_word_left line (suc pos) =
    let more = skip_word_left line pos in
    if is_gap (get_elem? line (suc pos)) then suc pos + 1 else more

unfoldable pub count_to_left_word : Terminal → ℕ
unfolding skip_spaces_left skip_word_left
count_to_left_word t =
    if t.pos == 0 then 0 else t.pos - skip_word_left t.line (skip_spaces_left t.line (t.pos - 1))

-- The two loops of countToRightWord, over the runes from the cursor on: how far they go.
unfoldable pub skip_spaces_right : List ℕ → ℕ
skip_spaces_right [] = 0
skip_spaces_right (r ∷ rs) = let more = skip_spaces_right rs in if r == space then more + 1 else 0

unfoldable pub skip_word_right : List ℕ → ℕ
unfolding skip_spaces_right
skip_word_right [] = 0
skip_word_right (r ∷ rs) =
    let more = skip_word_right rs in if r == space then skip_spaces_right (r ∷ rs) else more + 1

unfoldable pub count_to_right_word : Terminal → ℕ
unfolding skip_word_right
count_to_right_word t = skip_word_right (drop t.pos t.line)

-- `addKeyToLine`
unfoldable pub add_key_to_line : ℕ → Terminal → Terminal
unfolding write_line move_cursor_to_pos
add_key_to_line key t =
    let grown = record t { line = take t.pos t.line ++ (key ∷ drop t.pos t.line) } in
    let drawn = if t.echo then write_line (drop t.pos grown.line) grown else grown in
    move_cursor_to_pos (t.pos + 1) (record drawn { pos = t.pos + 1 })
