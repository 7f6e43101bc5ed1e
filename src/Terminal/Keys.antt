-- ===== src/Terminal/Keys.antt =====
-- bytesToKey and handleKey of terminal/terminal.go.
use xcryptossh.Prelude.{
  ℕ, ◌+◌, ◌-◌, zero, suc, [], ◌∷◌, Option, none, some, Bytes, Bool, ◌==◌, ltb, leb, if◌then◌else◌,
  length, take, drop, not, ◌&&◌, ◌||◌, bytes_eq,
}
use xcryptossh.Terminal.{
  Terminal, rune_error, text_of, key_escape, space, queue, visual_length, move_cursor_to_pos,
  advance_cursor, set_line, erase_n_previous_chars, count_to_left_word, count_to_right_word,
  add_key_to_line, is_letter,
}
use xcryptossh.Terminal.History.{Text, nth_previous_entry}

abbrev pub key_unknown : ℕ
key_unknown = 0xd805

abbrev pub key_up : ℕ
key_up = 0xd806

abbrev pub key_down : ℕ
key_down = 0xd807

abbrev pub key_left : ℕ
key_left = 0xd808

abbrev pub key_right : ℕ
key_right = 0xd809

abbrev pub key_alt_left : ℕ
key_alt_left = 0xd80a

abbrev pub key_alt_right : ℕ
key_alt_right = 0xd80b

abbrev pub key_home : ℕ
key_home = 0xd80c

abbrev pub key_end : ℕ
key_end = 0xd80d

abbrev pub key_delete_word : ℕ
key_delete_word = 0xd80e

abbrev pub key_delete_line : ℕ
key_delete_line = 0xd80f

abbrev pub key_clear_screen : ℕ
key_clear_screen = 0xd810

abbrev pub key_paste_start : ℕ
key_paste_start = 0xd811

abbrev pub key_paste_end : ℕ
key_paste_end = 0xd812

abbrev pub key_enter : ℕ
key_enter = 13

abbrev pub key_ctrl_d : ℕ
key_ctrl_d = 4

-- Package unicode/utf8: FullRune, and DecodeRune's rune and size.
pub record Utf8 : Type 0 where
  pub full_rune : Bytes → Bool
  pub decode_rune : Bytes → ℕ × ℕ

-- The control keys.
unfoldable pub control_key : ℕ → Option ℕ
control_key b =
    if b == 1
    then some key_home
    else if b == 5
    then some key_end
    else if b == 8
    then some 127
    else if b == 11
    then some key_delete_line
    else if b == 12
    then some key_clear_screen
    else if b == 23
    then some key_delete_word
    else none

unfoldable pub arrow_key : ℕ → Option ℕ
arrow_key c =
    if c == b'A'
    then some key_up
    else if c == b'B'
    then some key_down
    else if c == b'C'
    then some key_right
    else if c == b'D'
    then some key_left
    else if c == b'H'
    then some key_home
    else if c == b'F'
    then some key_end
    else none

unfoldable pub alt_key : ℕ → Option ℕ
alt_key c = if c == b'C' then some key_alt_right else if c == b'D' then some key_alt_left else none

abbrev pub paste_start : Bytes
paste_start = key_escape ∷ b'[' ∷ b'2' ∷ b'0' ∷ b'0' ∷ b'~' ∷ []

abbrev pub paste_end : Bytes
paste_end = key_escape ∷ b'[' ∷ b'2' ∷ b'0' ∷ b'1' ∷ b'~' ∷ []

-- A key of one sequence, with the bytes behind it.
abbrev pub key_before : Bytes → Option ℕ → Option (ℕ × Bytes)
key_before rest none = none
key_before rest (some key) = some (key, rest)

unfoldable pub short_sequence : Bytes → Option (ℕ × Bytes)
unfolding arrow_key
short_sequence (e ∷ b ∷ c ∷ rest) = if b == b'[' then key_before rest (arrow_key c) else none
short_sequence bs = none

unfoldable pub alt_sequence : Bytes → Option (ℕ × Bytes)
unfolding alt_key
alt_sequence (e ∷ b ∷ one ∷ semi ∷ three ∷ c ∷ rest) =
    if (b == b'[') && (one == b'1') && (semi == b';') && (three == b'3')
    then key_before rest (alt_key c)
    else none
alt_sequence bs = none

unfoldable pub paste_sequence : Bytes → ℕ → Bytes → Option (ℕ × Bytes)
unfolding bytes_eq
paste_sequence word key bs = if bytes_eq (take 6 bs) word then some (key, drop 6 bs) else none

-- The search for the end of a sequence that is not known: a key, or all bytes are kept.
unfoldable pub unknown_sequence : Bytes → Bytes → ℕ × Bytes
unknown_sequence whole [] = (rune_error, whole)
unknown_sequence whole (c ∷ cs) =
    let later = unknown_sequence whole cs in
    if is_letter c || (c == b'~') then (key_unknown, cs) else later

abbrev pub or_next : Option (ℕ × Bytes) → ℕ × Bytes → ℕ × Bytes
or_next (some key) next = key
or_next none next = next

unfoldable pub escape_key : Bytes → Bool → ℕ × Bytes
unfolding short_sequence alt_sequence paste_sequence unknown_sequence
escape_key bs paste_active =
    if paste_active
    then or_next (paste_sequence paste_end key_paste_end bs) (unknown_sequence bs bs)
    else or_next (short_sequence bs) (
        or_next (alt_sequence bs)
          (or_next (paste_sequence paste_start key_paste_start bs) (unknown_sequence bs bs)))

unfoldable pub rune_key : Utf8 → Bytes → ℕ × Bytes
rune_key u bs =
    let (r, l) = u.decode_rune bs in if u.full_rune bs then (r, drop l bs) else (rune_error, bs)

unfoldable pub bytes_to_key : Utf8 → Bytes → Bool → ℕ × Bytes
unfolding control_key rune_key escape_key
bytes_to_key u [] paste_active = (rune_error, [])
bytes_to_key u (b ∷ bs) paste_active =
    or_next (if paste_active then none else key_before bs (control_key b))
      (if b == key_escape then escape_key (b ∷ bs) paste_active else rune_key u (b ∷ bs))

abbrev pub is_printable : ℕ → Bool
is_printable key = leb 32 key && not (leb 0xd800 key && leb key 0xdbff)

abbrev pub max_line_length : ℕ
max_line_length = 4096

-- The cases of the switch over the key.
pub data Action : Type 0 where
  backspace alt_left alt_right left right home end up down enter delete_word delete_line : Action
  delete_here delete_start clear_screen other : Action

unfoldable pub action_of : ℕ → Action
action_of key =
    if key == 127
    then backspace
    else if key == key_alt_left
    then alt_left
    else if key == key_alt_right
    then alt_right
    else if key == key_left
    then left
    else if key == key_right
    then right
    else if key == key_home
    then home
    else if key == key_end
    then end
    else if key == key_up
    then up
    else if key == key_down
    then down
    else if key == key_enter
    then enter
    else if key == key_delete_word
    then delete_word
    else if key == key_delete_line
    then delete_line
    else if key == key_ctrl_d
    then delete_here
    else if key == 21
    then delete_start
    else if key == key_clear_screen
    then clear_screen
    else other

-- AutoCompleteCallback, where it is not nil, with the cursor's place counted in runes.
abbrev pub Complete : Type 0
Complete = Option (Text → ℕ → ℕ → Option (Text × ℕ))

abbrev pub move_to : ℕ → Terminal → Terminal
move_to pos t = move_cursor_to_pos pos (record t { pos = pos })

-- keyUp, with the entry that the history has.
abbrev pub go_up : Terminal → Option Text → Terminal
go_up t none = t
go_up t (some entry) =
    let (index, pending) = elim t.history_index as (λ _. ℕ × Text) [
      | none ↦ (0, text_of t.line)
      | some i ↦ (i + 1, t.history_pending)
    ] in
    set_line entry (length entry)
      (record t { history_index = some index; history_pending = pending })

abbrev pub next_index : Option ℕ → ℕ
next_index none = 0
next_index (some i) = i + 1

-- keyDown at the index before `i + 1`.
abbrev pub go_back : ℕ → Terminal → Option Text → Terminal
go_back i t none = t
go_back i t (some entry) = set_line entry (length entry) (record t { history_index = some i })

abbrev pub go_down : Option ℕ → Terminal → Terminal
go_down none t = t
go_down (some zero) t = record (set_line t.history_pending (length t.history_pending) t) {
  history_index = none;
}
go_down (some (suc i)) t = go_back i t (nth_previous_entry i t.history)

-- keyDeleteLine: `n` spaces are queued, each with its advance.
unfoldable pub blank_out : ℕ → Terminal → Terminal
unfolding queue advance_cursor
blank_out zero t = t
blank_out (suc n) t = blank_out n (advance_cursor 1 (queue (space ∷ []) t))

abbrev pub type_key : ℕ → Terminal → Terminal
type_key key t =
    if is_printable key && not (length t.line == max_line_length) then add_key_to_line key t else t

-- The default case, behind the callback.
abbrev pub completed : ℕ → Terminal → Option (Text × ℕ) → Terminal
completed key t none = type_key key t
completed key t (some (new_line, new_pos)) = set_line new_line new_pos t

abbrev pub press_other : Complete → ℕ → Terminal → Terminal
press_other none key t = type_key key t
press_other (some f) key t = completed key t (f (text_of t.line) t.pos key)

abbrev pub press_enter : Terminal → Terminal
press_enter t = record (queue (13 ∷ 10 ∷ []) (move_cursor_to_pos (length t.line) t)) {
  line = [];
  pos = 0;
  cursor_x = 0;
  cursor_y = 0;
  max_line = 0;
}

-- `"\x1b[2J\x1b[H"` and the prompt.
abbrev pub press_clear_screen : Terminal → Terminal
press_clear_screen t = set_line t.line t.pos (
    advance_cursor (visual_length t.prompt)
      (record (queue t.prompt
        (queue (key_escape ∷ b'[' ∷ b'2' ∷ b'J' ∷ key_escape ∷ b'[' ∷ b'H' ∷ []) t)) {
          cursor_x = 0;
          cursor_y = 0;
        }))

abbrev pub press_delete_line : Terminal → Terminal
press_delete_line t =
    let blank = blank_out (length t.line - t.pos) t in
    move_cursor_to_pos t.pos (record blank { line = take t.pos t.line })

abbrev pub press_delete_here : Terminal → Terminal
press_delete_here t =
    if ltb t.pos (length t.line) then erase_n_previous_chars 1 (record t { pos = t.pos + 1 }) else t

unfoldable pub press : Complete → ℕ → Action → Terminal → Terminal
unfolding set_line erase_n_previous_chars move_cursor_to_pos queue blank_out add_key_to_line
    count_to_left_word count_to_right_word nth_previous_entry
press f key backspace t = if t.pos == 0 then t else erase_n_previous_chars 1 t
press f key alt_left t = move_to (t.pos - count_to_left_word t) t
press f key alt_right t = move_to (t.pos + count_to_right_word t) t
press f key left t = if t.pos == 0 then t else move_to (t.pos - 1) t
press f key right t = if t.pos == length t.line then t else move_to (t.pos + 1) t
press f key home t = if t.pos == 0 then t else move_to 0 t
press f key end t = if t.pos == length t.line then t else move_to (length t.line) t
press f key up t = go_up t (nth_previous_entry (next_index t.history_index) t.history)
press f key down t = go_down t.history_index t
press f key enter t = press_enter t
press f key delete_word t = erase_n_previous_chars (count_to_left_word t) t
press f key delete_line t = press_delete_line t
press f key delete_here t = press_delete_here t
press f key delete_start t = erase_n_previous_chars t.pos t
press f key clear_screen t = press_clear_screen t
press f key other t = press_other f key t

-- The line that handleKey returns, if any.
abbrev pub entered : Action → Terminal → Option Text
entered enter t = some (text_of t.line)
entered _ t = none

unfoldable pub handle_key : Complete → ℕ → Terminal → Option Text × Terminal
unfolding press action_of
handle_key f key t =
    if t.paste_active && not (key == key_enter)
    then (none, add_key_to_line key t)
    else (entered (action_of key) t, press f key (action_of key) t)
