-- ===== src/Terminal/Lines.antt =====
-- Write, ReadLine, ReadPassword and SetSize of terminal/terminal.go, and readPasswordLine.
use xcryptossh.Prelude.{
  ℕ, ◌+◌, ◌-◌, ◌*◌, zero, suc, List, [], ◌∷◌, ◌++◌, Option, none, some, Bytes, Bool, true, false,
  ◌==◌, ltb, leb, if◌then◌else◌, length, take, drop, ◌&&◌, ◌||◌,
}
use xcryptossh.Errors.{Error}
use xcryptossh.Terminal.{
  Terminal, rune_error, queue, visual_length, move, move_cursor_to_pos, clear_line_to_right,
  advance_cursor, write_line,
}
use xcryptossh.Terminal.History.{Text, add}
use xcryptossh.Terminal.Keys.{
  Utf8, Complete, bytes_to_key, handle_key, key_ctrl_d, key_paste_start, key_paste_end,
}

abbrev pub crlf : Bytes
crlf = 13 ∷ 10 ∷ []

-- `t.c.Write(buf)`: a writer that fails takes nothing.
unfoldable pub c_write : Bytes → Terminal → Option Error × Terminal
c_write buf t = elim t.broken [
  | some e ↦ (some e, t)
  | none ↦ (none, record t { shown = t.shown ++ buf })
]

-- The write of `outBuf`, whose error ReadLine does not look at.
unfoldable pub flush : Terminal → Terminal
unfolding c_write
flush t = record (c_write t.out_buf t).1 { out_buf = [] }

-- How many bytes stand before the first line feed, if there is one: `bytes.IndexByte`.
unfoldable pub index_lf : Bytes → Option ℕ
index_lf [] = none
index_lf (b ∷ bs) =
    let later = index_lf bs in
    if b == 10 then some 0 else elim later [ none ↦ none | some i ↦ some (i + 1) ]

-- The `\r\n` behind a line, if the line ended; `next` goes on behind it.
abbrev pub end_line :
    (Bytes → ℕ → Terminal → ℕ × Option Error × Terminal)
    → Bool
    → Bytes
    → ℕ
    → Terminal
    → ℕ × Option Error × Terminal
end_line next false rest n t = next rest n t
end_line next true rest n t =
    let (e, t') = c_write crlf t in
    elim e [ some e ↦ (n, some e, t') | none ↦ next (drop 1 rest) (n + 1) t' ]

abbrev pub todo_of : Option ℕ → Bytes → ℕ
todo_of none buf = length buf
todo_of (some i) buf = i

abbrev pub found_one : Option ℕ → Bool
found_one none = false
found_one (some i) = true

-- The loop of writeWithCRLF, on fuel: each round takes a byte at least.
unfoldable pub crlf_loop : ℕ → Bytes → ℕ → Terminal → ℕ × Option Error × Terminal
unfolding c_write index_lf
crlf_loop zero buf n t = (n, none, t)
crlf_loop (suc fuel) [] n t = (n, none, t)
crlf_loop (suc fuel) (b ∷ bs) n t =
    let i = index_lf (b ∷ bs) in
    let todo = todo_of i (b ∷ bs) in
    let (e, t') = c_write (take todo (b ∷ bs)) t in
    elim e [
      | some e ↦ (n, some e, t')
      | none ↦ end_line (crlf_loop fuel) (found_one i) (drop todo (b ∷ bs)) (n + todo) t'
    ]

unfoldable pub write_with_crlf : Bytes → Terminal → ℕ × Option Error × Terminal
unfolding crlf_loop
write_with_crlf buf t = crlf_loop (length buf) buf 0 t

-- The loop of Write that clears the rows above.
unfoldable pub clear_rows : ℕ → Terminal → Terminal
unfolding move clear_line_to_right
clear_rows zero t = t
clear_rows (suc y) t = clear_rows y (clear_line_to_right (record (move 1 0 0 0 t) { cursor_y = y }))

-- The prompt and the line, drawn again behind what was written.
unfoldable pub redraw : Terminal → Terminal
unfolding write_line move_cursor_to_pos
redraw t =
    let prompted = write_line t.prompt t in
    let drawn = if t.echo then write_line t.line prompted else prompted in
    move_cursor_to_pos t.pos drawn

abbrev pub write_behind : ℕ × Option Error × Terminal → ℕ × Option Error × Terminal
write_behind (n, some e, t) = (n, some e, t)
write_behind (n, none, t) =
    let t' = redraw t in
    let (e, t'') = c_write t'.out_buf t' in
    elim e [ some e ↦ (n, some e, t'') | none ↦ (n, none, record t'' { out_buf = [] }) ]

-- `Write`
unfoldable pub write : Bytes → Terminal → ℕ × Option Error × Terminal
unfolding write_with_crlf redraw clear_rows move clear_line_to_right c_write
write buf t =
    let cleared =
      clear_rows t.cursor_y
        (clear_line_to_right (record (move 0 0 t.cursor_x 0 t) { cursor_x = 0 })) in
    let (e, t') = c_write cleared.out_buf cleared in
    if (t.cursor_x == 0) && (t.cursor_y == 0) then write_with_crlf buf t else elim e [
      | some e ↦ (0, some e, t')
      | none ↦ write_behind (write_with_crlf buf (record t' { out_buf = [] }))
    ]

-- What the inner loop of readLine ends with: no whole key is left, a line, or end of file.
pub data Pressed : Type 0 where
  more : (rest : Bytes) (is_pasted : Bool) → Terminal → Pressed
  got : Text → (rest : Bytes) (is_pasted : Bool) → Terminal → Pressed
  ended : Terminal → Pressed

abbrev pub no_line : List ℕ → Bool
no_line [] = true
no_line (r ∷ rs) = false

abbrev pub pressed :
    (Bytes → Bool → Terminal → Pressed) → Bytes → Bool → Option Text × Terminal → Pressed
pressed next rest is_pasted (some line, t) = got line rest is_pasted t
pressed next rest is_pasted (none, t) = next rest is_pasted t

-- A key that was read; the flag is `lineIsPasted`.
unfoldable pub take_key :
    (Bytes → Bool → Terminal → Pressed) → Complete → ℕ → Bytes → Bool → Terminal → Pressed
unfolding handle_key
take_key next f key rest is_pasted t =
    if t.paste_active
    then if key == key_paste_end
      then next rest is_pasted (record t { paste_active = false })
      else pressed next rest is_pasted (handle_key f key t)
    else if (key == key_ctrl_d) && no_line t.line
    then ended t
    else if key == key_paste_start
    then next rest (is_pasted || no_line t.line) (record t { paste_active = true })
    else pressed next rest false (handle_key f key t)

-- The inner loop, on fuel: a key takes a byte at least.
unfoldable pub press_keys : ℕ → Utf8 → Complete → Bytes → Bool → Terminal → Pressed
unfolding bytes_to_key take_key
press_keys zero u f rest is_pasted t = more rest is_pasted t
press_keys (suc fuel) u f rest is_pasted t =
    let (key, rest') = bytes_to_key u rest t.paste_active in
    elim (key == rune_error) [
      | true ↦ more rest' is_pasted t
      | false ↦ take_key (press_keys fuel u f) f key rest' is_pasted t
    ]

-- What ReadLine returns; `paste_indicator` comes with a line.
pub data ReadOutcome : Type 0 where
  line_read : Text → (paste_indicator : Bool) → ReadOutcome
  read_failed : Error → ReadOutcome

abbrev pub remember : Text → Terminal → Terminal
remember line t =
    if t.echo then record t { history = add line t.history; history_index = none } else t

abbrev pub in_buf_size : ℕ
in_buf_size = 256

-- The outer loop. `reads` is what the reads return, each no longer than the rest of inBuf, and
-- `end` the error of the read behind them.
unfoldable pub read_loop :
    Utf8 → Complete → Error → List Bytes → Bool → Terminal → ReadOutcome × Terminal
unfolding press_keys flush
read_loop u f end [] is_pasted t =
    elim (press_keys (suc (length t.remainder)) u f t.remainder is_pasted t) [
      | ended t' ↦ (read_failed Error.eof, t')
      | got line rest pasted t' ↦ (
        line_read line pasted,
        remember line (flush (record t' { remainder = take in_buf_size rest })),
      )
      | more rest pasted t' ↦
          (read_failed end, flush (record t' { remainder = take in_buf_size rest }))
    ]
read_loop u f end (chunk ∷ reads) is_pasted t =
    elim (press_keys (suc (length t.remainder)) u f t.remainder is_pasted t) [
      | ended t' ↦ (read_failed Error.eof, t')
      | got line rest pasted t' ↦ (
        line_read line pasted,
        remember line (flush (record t' { remainder = take in_buf_size rest })),
      )
      | more rest pasted t' ↦
          read_loop u f end reads pasted
            (record (flush t') { remainder = take in_buf_size rest ++ chunk })
    ]

unfoldable pub read_line : Utf8 → Complete → Error → List Bytes → Terminal → ReadOutcome × Terminal
unfolding read_loop write_line flush
read_line u f end reads t =
    let prompted = flush (write_line t.prompt t) in
    read_loop u f end reads t.paste_active
      (if (t.cursor_x == 0) && (t.cursor_y == 0) then prompted else t)

-- `ReadPassword`
unfoldable pub read_password :
    Utf8 → Complete → Error → List Bytes → Text → Terminal → ReadOutcome × Terminal
unfolding read_line
read_password u f end reads prompt t =
    let (out, t') = read_line u f end reads (record t { prompt = prompt; echo = false }) in
    (out, record t' { prompt = t.prompt; echo = true })

unfoldable pub set_prompt : Text → Terminal → Terminal
set_prompt prompt t = record t { prompt = prompt }

-- The loop of clearAndRepaintLinePlusNPrevious, with `n` rows to go.
unfoldable pub clear_down : ℕ → Terminal → Terminal
unfolding move clear_line_to_right
clear_down zero t = t
clear_down (suc n) t =
    let below = move 0 1 0 0 t in
    clear_down n (clear_line_to_right (record below { cursor_y = below.cursor_y + 1 }))

-- `clearAndRepaintLinePlusNPrevious`
unfoldable pub repaint : ℕ → Terminal → Terminal
unfolding clear_down move clear_line_to_right queue advance_cursor write_line move_cursor_to_pos
repaint num_prev_lines t =
    let cleared = clear_down num_prev_lines (
      clear_line_to_right
        (record (move t.cursor_y 0 t.cursor_x 0 t) { cursor_x = 0; cursor_y = 0 })) in
    let back = record (move cleared.cursor_y 0 0 0 cleared) { cursor_x = 0; cursor_y = 0 } in
    move_cursor_to_pos t.pos
      (write_line t.line (advance_cursor (visual_length t.prompt) (queue t.prompt back)))

abbrev pub written_out : Option Error × Terminal → Option Error × Terminal
written_out (e, t) = (e, record t { out_buf = [] })

-- The state that SetSize narrows to: rows that wrap have become two.
abbrev pub narrowed : Terminal → Terminal
narrowed t = record t {
  cursor_x = if leb t.term_width t.cursor_x then t.term_width - 1 else t.cursor_x;
  cursor_y = t.cursor_y * 2;
}

abbrev pub sized : ℕ → ℕ → Terminal → Terminal
sized width height t = record t { term_width = width; term_height = height }

abbrev pub resize : ℕ → ℕ → Terminal → Option Error × Terminal
resize width height t =
    let t' = sized width height t in
    let out =
      (if ltb width t.term_width
        then repaint (t.max_line * 2) (narrowed t')
        else repaint t.max_line t') in
    if (width == t.term_width) || (no_line t.line && (t.cursor_x == 0) && (t.cursor_y == 0))
    then (none, t')
    else written_out (c_write out.out_buf out)

-- `SetSize`
unfoldable pub set_size : ℕ → ℕ → Terminal → Option Error × Terminal
unfolding repaint c_write
set_size width height t = resize (if width == 0 then 1 else width) height t

unfoldable pub set_bracketed_paste_mode : Bool → Terminal → Terminal
unfolding c_write
set_bracketed_paste_mode on t =
    (c_write (27 ∷ b'[' ∷ b'?' ∷ b'2' ∷ b'0' ∷ b'0' ∷ b'4' ∷ (if on then b'h' else b'l') ∷ []) t).1

-- readPasswordLine over the bytes that the reader gives, one at a time, and then its error.
unfoldable pub read_password_line : Error → Bytes → Bytes → Bytes × Option Error
read_password_line Error.eof [] (b ∷ ret) = (b ∷ ret, none)
read_password_line e [] ret = (ret, some e)
read_password_line e (c ∷ cs) ret =
    let kept = read_password_line e cs (ret ++ (c ∷ [])) in
    let dropped = read_password_line e cs ret in
    if c == 10 then (ret, none) else if c == 13 then dropped else kept
