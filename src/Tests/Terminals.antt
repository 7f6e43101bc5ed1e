-- ===== src/Tests/Terminals.antt =====
-- The line editor, at a width of four.
use xcryptossh.Prelude.{
  ◌≡◌, ◌⊎◌, refl, [], ◌∷◌, ◌++◌, none, true, false, ltb, if◌then◌else◌, get_elem?, codes, arith,
}
use xcryptossh.Errors.{Error}
use xcryptossh.Terminal.{Terminal, new_terminal, visual_length}
use xcryptossh.Terminal.History.{nth_previous_entry, ring_of, nth_previous_entry-ring_of}
use xcryptossh.Terminal.Keys.{handle_key, Utf8, key_delete_word, key_delete_line}
use xcryptossh.Terminal.Lines.{read_line, line_read, set_size, read_password_line}
use xcryptossh.Terminal.Valid.{Placed, Fresh}
use xcryptossh.Terminal.Presses.{handle_key-Placed}
use xcryptossh.Terminal.Silence.{handle_key-silent}

nth_previous_entry-ring_of_example :
    nth_previous_entry 1 (ring_of (codes "c" ∷ codes "b" ∷ codes "a" ∷ []))
    ≡ (if ltb 1 100 then get_elem? (codes "c" ∷ codes "b" ∷ codes "a" ∷ []) 1 else none)
nth_previous_entry-ring_of_example =
    nth_previous_entry-ring_of 1 (codes "c" ∷ codes "b" ∷ codes "a" ∷ [])

-- The prompt `> `, the line `ab c` and the cursor behind `b`: the second row.
abbrev typing : Terminal
typing = record (new_terminal (codes "> ")) {
  line = codes "ab c";
  pos = 2;
  term_width = 4;
  cursor_x = 0;
  cursor_y = 1;
}

typing-Placed : Placed typing
unfolding visual_length new_terminal
typing-Placed = record { echoes = refl; in_line = omega arith; in_row = omega arith; at_pos = refl }

handle_key-Placed_example :
    Placed (handle_key none key_delete_word typing).1
    ⊎ Fresh (handle_key none key_delete_word typing).1
handle_key-Placed_example = handle_key-Placed none key_delete_word typing tt typing-Placed

abbrev password : Terminal
password = record typing { echo = false }

handle_key-silent_example :
    (handle_key none key_delete_line (record password { line = codes "wxyz" })).1.out_buf
    ≡ (handle_key none key_delete_line password).1.out_buf
unfolding new_terminal
handle_key-silent_example = handle_key-silent none key_delete_line password (codes "wxyz") refl refl

-- A resize while the password is read writes it.
password_shown : (set_size 9 24 password).1.shown ≡ (27 ∷ codes "[A") ++ (27 ∷ codes "[K> ab c")
unfolding set_size new_terminal
password_shown = refl

abbrev ascii : Utf8
ascii = record {
  full_rune = λ bs. true;
  decode_rune = λ bs. elim bs [ [] ↦ (0xfffd, 0) | b ∷ rest ↦ (b, 1) ];
}

-- `hi`, an arrow to the left, `!` and Enter.
typed :
    (read_line ascii none Error.eof
      ((codes "hi" ++ (27 ∷ codes "[D")) ∷ (codes "!" ++ (13 ∷ [])) ∷ [])
      (new_terminal (codes "> "))).0
    ≡ line_read (codes "h!i") false
unfolding read_line new_terminal
typed = refl

no_carriage_return :
    read_password_line Error.eof (codes "pw" ++ (13 ∷ 10 ∷ codes "x")) [] ≡ (codes "pw", none)
unfolding read_password_line
no_carriage_return = refl
