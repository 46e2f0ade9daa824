-- ===== src/Pipe.antt =====
-- The pipes of internal/kernel/handles.go: a bounded buffer with counts of its open ends. The mutex
-- makes each locked section one step; the wake channels only tell a waiting call to try again, so a
-- blocking call is a round that returns or waits, repeated by its caller.
pub mod Stream
pub mod Ready
mod Tests
use ish_port_go.Prelude.{
  ℕ, zero, suc, ◌+◌, ◌-◌, ◌*◌, Bool, true, false, ◌&&◌, ◌||◌, not, Option, none, some, List, [],
  ◌∷◌, ◌++◌, ltb, leb, ◌==◌, if◌then◌else◌, length, take, drop, Error, Result, ok, err,
  invalid_argument, end_of_file, again, broken_pipe, would_block, nonzero,
}

abbrev pub pipe_capacity : ℕ
pipe_capacity = 64 * 1024

-- `readers` and `writers` are `int`s; a count of open ends is not negative.
pub record PipeBuffer : Type 0 where
  pub bytes : List ℕ
  pub readers : ℕ
  pub writers : ℕ

-- `pipeHandle` but its pointer to the buffer.
pub record PipeEnd : Type 0 where
  pub write : Bool
  pub nonblock : Bool
  pub closed : Bool

abbrev pub new_pipe : PipeBuffer
new_pipe = record { bytes = []; readers = 1; writers = 1 }

-- `newPipePair`
unfoldable pub new_pipe_pair : Bool → PipeEnd × PipeEnd × PipeBuffer
new_pipe_pair nonblock = (
  record { write = false; nonblock = nonblock; closed = false },
  record { write = true; nonblock = nonblock; closed = false },
  new_pipe,
)

unfoldable pub clone_end : PipeEnd → PipeBuffer → PipeEnd × PipeBuffer
clone_end h p = (
  record { write = h.write; nonblock = h.nonblock; closed = false },
  if h.write then record p { writers = p.writers + 1 } else record p { readers = p.readers + 1 },
)

unfoldable pub close_end : PipeEnd → PipeBuffer → PipeEnd × PipeBuffer
close_end h p = if h.closed then (h, p) else (
  record h { closed = true },
  if h.write then record p { writers = p.writers - 1 } else record p { readers = p.readers - 1 },
)

-- What a locked section does: it returns bytes or a count beside an error, or the call waits.
pub data Round (A : Type 0) : Type 0 where
  returns : A → Option Error → Round A
  waits : A → Round A

-- The bytes that `copy(dst, h.pipe.data)` moves, for a `dst` of `size` bytes.
unfoldable pub read_nonblocking : PipeEnd → ℕ → PipeBuffer → Result (List ℕ) × PipeBuffer
read_nonblocking h size p =
    if h.write
    then (err invalid_argument, p)
    else if size == 0
    then (ok [], p)
    else if ltb 0 (length p.bytes)
    then (ok (take size p.bytes), record p { bytes = drop size p.bytes })
    else if p.writers == 0
    then (err end_of_file, p)
    else (err would_block, p)

-- One turn of the loop of `Read`.
unfoldable pub read_round : PipeEnd → ℕ → PipeBuffer → Round (List ℕ) × PipeBuffer
read_round h size p =
    if h.write
    then (returns [] (some invalid_argument), p)
    else if size == 0
    then (returns [] none, p)
    else if ltb 0 (length p.bytes)
    then (returns (take size p.bytes) none, record p { bytes = drop size p.bytes })
    else if p.writers == 0
    then (returns [] (some end_of_file), p)
    else if h.nonblock
    then (returns [] (some again), p)
    else (waits [], p)

-- n := len(src), cut to the space
abbrev pub fitting : ℕ → ℕ → ℕ
fitting space n = if ltb space n then space else n

unfoldable pub write_nonblocking : PipeEnd → List ℕ → PipeBuffer → Result ℕ × PipeBuffer
write_nonblocking h src p =
    let space = pipe_capacity - length p.bytes in
    let n = fitting space (length src) in
    if not h.write
    then (err invalid_argument, p)
    else if length src == 0
    then (ok 0, p)
    else if p.readers == 0
    then (err broken_pipe, p)
    else if space == 0
    then (err would_block, p)
    else (ok n, record p { bytes = p.bytes ++ take n src })

-- The loop of `Write` on what is left of `src`, until it returns or waits; a turn that appends goes
-- on, and the next one finds `src` written or the buffer full.
unfoldable pub write_rounds : ℕ → PipeEnd → List ℕ → ℕ → PipeBuffer → Round ℕ × PipeBuffer
write_rounds zero h src written p = (waits written, p)
write_rounds (suc fuel) h src written p =
    let space = pipe_capacity - length p.bytes in
    let n = fitting space (length src) in
    let rest =
      write_rounds fuel h (drop n src) (written + n) (record p { bytes = p.bytes ++ take n src }) in
    if length src == 0
    then (returns written none, p)
    else if p.readers == 0
    then (returns written (some broken_pipe), p)
    else if ltb 0 space
    then rest
    else if h.nonblock
    then (returns written (some again), p)
    else (waits written, p)

unfoldable pub write : PipeEnd → List ℕ → PipeBuffer → Round ℕ × PipeBuffer
unfolding write_rounds
write h src p =
    if not h.write then (returns 0 (some invalid_argument), p) else write_rounds 3 h src 0 p

unfoldable pub read_ready : PipeEnd → PipeBuffer → Bool
read_ready h p = not h.write && (ltb 0 (length p.bytes) || p.writers == 0)

unfoldable pub write_ready : PipeEnd → PipeBuffer → Bool
write_ready h p = h.write && ltb 0 p.readers && ltb (length p.bytes) pipe_capacity

unfoldable pub hangup : PipeEnd → PipeBuffer → Bool
hangup h p = if h.write then p.readers == 0 else p.writers == 0
