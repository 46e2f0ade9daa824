-- ===== src/Pty/Tests.antt =====
-- Runs of the terminal, and the witness of its property.
use ish_port_go.Prelude.{
  ℕ, ◌≡◌, ◌≢◌, ◌↔◌, refl, true, List, [], ◌∷◌, ◌++◌, arith, none, some, ok, err, end_of_file,
}
use ish_port_go.Pty.{
  Terminal, new_terminal, write_input, close_input, contains_newline, input_ready, input_round,
  read_input,
}
use ish_port_go.Pty.Line.{input_ready_lem}

-- A line without its end, and then with it.
abbrev partial_line : Terminal
partial_line = (write_input (0x61 ∷ 0x62 ∷ []) new_terminal).1

abbrev whole_line : Terminal
whole_line = (write_input (0x0a ∷ []) partial_line).1

input_ready_lem_example :
    ((input_ready whole_line ≡ true) ↔ ((read_input 2 whole_line).0 ≢ none))
    × ((bs : List ℕ) (u : Terminal)
        → read_input 2 whole_line ≡ (some (ok bs), u)
        → bs ++ u.input ≡ whole_line.input)
input_ready_lem_example = input_ready_lem 2 whole_line (omega arith)

read-partial_waits : (read_input 8 partial_line).0 ≡ none
unfolding read_input input_round write_input new_terminal contains_newline
read-partial_waits = refl

read-whole : (read_input 8 whole_line).0 ≡ some (ok (0x61 ∷ 0x62 ∷ 0x0a ∷ []))
unfolding read_input input_round write_input new_terminal contains_newline
read-whole = refl

-- The bytes of a line without its end are lost when the input is closed.
read-closed : (read_input 8 (close_input partial_line)).0 ≡ some (err end_of_file)
unfolding read_input input_round write_input close_input new_terminal contains_newline
read-closed = refl
