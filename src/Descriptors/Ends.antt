-- ===== src/Descriptors/Ends.antt =====
-- internal/kernel/syscall.go: `pipe` and `pipe2`, which put the two ends of a new pipe under descriptors.
use ish_port_go.Prelude.{
  ℕ, ◌+◌, Bool, true, false, if◌then◌else◌, none, ok, err, has, and_not, nonzero, add32,
}
use ish_port_go.Prelude.Int.{ℤ, pos}
use ish_port_go.Memory.{Memory, write32}
use ish_port_go.Pipe.{PipeBuffer, new_pipe_pair}
use ish_port_go.Descriptors.{
  Handle, pipe_end, Table, World, update, set_fd, close_handle, allocate_fd, fault, invalid,
}

-- The two ends of a new pipe and their descriptors, in the table or taken out again.
unfoldable pub withdraw : ℕ → ℕ → Table → Table
withdraw read_fd write_fd t = record t {
  fds = update (update t.fds read_fd none) write_fd none;
  cloexec = update (update t.cloexec read_fd false) write_fd false;
}

unfoldable pub pipe_failed :
    ℕ → ℕ → Handle → Handle → Table → World → Memory → ℤ × Table × World × Memory
unfolding withdraw
pipe_failed read_fd write_fd read_end write_end t w m =
    (fault, withdraw read_fd write_fd t, close_handle write_end (close_handle read_end w), m)

unfoldable pub pipe_written :
    ℕ → ℕ → ℕ → Handle → Handle → Table → World → Memory → ℤ × Table × World × Memory
unfolding pipe_failed
pipe_written addr read_fd write_fd read_end write_end t w m = elim (write32 m addr read_fd) [
  | err e ↦ pipe_failed read_fd write_fd read_end write_end t w m
  | ok n ↦ elim (write32 n (add32 addr 4) write_fd) [
    | err e ↦ pipe_failed read_fd write_fd read_end write_end t w n
    | ok o ↦ (pos 0, t, w, o)
  ]
]

-- The world with a new pipe, which takes its number.
unfoldable pub add_pipe : World → PipeBuffer → World
add_pipe w p = record w { pipes = update w.pipes w.next_pipe p; next_pipe = w.next_pipe + 1 }

-- Both descriptors under their handles; O_CLOEXEC is 0x80000.
unfoldable pub with_pipe : ℕ → ℕ → Handle → Handle → Bool → Table → Table
with_pipe read_fd write_fd read_end write_end cloexec t =
    let t' = set_fd (set_fd t read_fd read_end) write_fd write_end in
    record t' {
      cloexec = if cloexec then update (update t.cloexec read_fd true) write_fd true else t.cloexec;
    }

unfoldable pub pipe : ℕ → ℕ → Table → World → Memory → ℤ × Table × World × Memory
unfolding add_pipe with_pipe
pipe addr flags t w m =
    let (reader, writer, buffer) = new_pipe_pair (has flags 0x800) in
    let read_end = pipe_end w.next_pipe reader in
    let write_end = pipe_end w.next_pipe writer in
    let read_fd = allocate_fd t 0 in
    let write_fd = allocate_fd t (read_fd + 1) in
    if nonzero (and_not flags 0x80800)
    then (invalid, t, w, m)
    else pipe_written addr read_fd write_fd read_end write_end
        (with_pipe read_fd write_fd read_end write_end (has flags 0x80000) t) (add_pipe w buffer) m
