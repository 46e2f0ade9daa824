-- ===== src/Pty.antt =====
-- internal/pty/pty.go: a terminal of two byte queues. A locked section is one step; the channels only
-- wake a reader, which then looks again, and a context that ends a wait has no counterpart.
pub mod Line
mod Tests
use ish_port_go.Prelude.{
  ℕ, zero, suc, ◌+◌, Bool, true, false, ◌&&◌, ◌||◌, not, ◌==◌, ltb, if◌then◌else◌, List, [], ◌∷◌,
  ◌++◌, Option, none, some, Result, ok, err, end_of_file, length, take, drop,
}

pub record Terminal : Type 0 where
  pub input : List ℕ
  pub output : List ℕ
  pub closed : Bool
  pub input_closed : Bool
  pub canonical : Bool
  pub echo : Bool

-- `New`
unfoldable pub new_terminal : Terminal
new_terminal = record {
  input = [];
  output = [];
  closed = false;
  input_closed = false;
  canonical = true;
  echo = true;
}

unfoldable pub close : Terminal → Terminal
close t = record t { closed = true; input_closed = true }

unfoldable pub close_input : Terminal → Terminal
close_input t = record t { input_closed = true }

unfoldable pub write_input : List ℕ → Terminal → Result ℕ × Terminal
write_input bytes t = if t.closed || t.input_closed then (err end_of_file, t) else (
  ok (length bytes),
  record t { input = t.input ++ bytes; output = if t.echo then t.output ++ bytes else t.output },
)

unfoldable pub write_output : List ℕ → Terminal → Result ℕ × Terminal
write_output bytes t =
    if t.closed
    then (err end_of_file, t)
    else (ok (length bytes), record t { output = t.output ++ bytes })

unfoldable pub contains_newline : List ℕ → Bool
contains_newline [] = false
contains_newline (b ∷ bs) =
    let rest = contains_newline bs in if b == 0x0a || b == 0x0d then true else rest

-- len(q) > 0
abbrev pub holds_bytes : List ℕ → Bool
holds_bytes [] = false
holds_bytes (b ∷ bs) = true

-- `InputReady`
unfoldable pub input_ready : Terminal → Bool
unfolding contains_newline
input_ready t =
    t.closed
    || (t.input_closed || (holds_bytes t.input && (not t.canonical || contains_newline t.input)))

-- One round of `read`, for a buffer of some bytes: `none` is a round that waits.
unfoldable pub input_round : ℕ → Terminal → Option (Result (List ℕ)) × Terminal
unfolding contains_newline
input_round size t =
    if holds_bytes t.input && (not t.canonical || contains_newline t.input)
    then (some (ok (take size t.input)), record t { input = drop size t.input })
    else if t.closed || t.input_closed
    then (some (err end_of_file), t)
    else (none, t)

unfoldable pub output_round : ℕ → Terminal → Option (Result (List ℕ)) × Terminal
output_round size t =
    if holds_bytes t.output
    then (some (ok (take size t.output)), record t { output = drop size t.output })
    else if t.closed
    then (some (err end_of_file), t)
    else (none, t)

-- `ReadInput` and `ReadOutput`; an empty buffer reads nothing
unfoldable pub read_input : ℕ → Terminal → Option (Result (List ℕ)) × Terminal
unfolding input_round
read_input size t = if size == 0 then (some (ok []), t) else input_round size t

unfoldable pub read_output : ℕ → Terminal → Option (Result (List ℕ)) × Terminal
unfolding output_round
read_output size t = if size == 0 then (some (ok []), t) else output_round size t

unfoldable pub drain_output : Terminal → List ℕ × Terminal
drain_output t = (t.output, record t { output = [] })
