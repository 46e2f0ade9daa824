-- ===== src/Descriptors/Calls.antt =====
-- internal/kernel/syscall.go with Pipe: whatever calls a kernel makes on its descriptors, a pipe is broken
-- or at its end exactly when no descriptor refers to its other end.
use ish_port_go.Prelude.{
  ℕ, zero, suc, ◌<◌, ◌≡◌, ◌↔◌, refl, ◌∙◌, arith, Bool, true, false, inl, inr, lt-or-ge, Option,
  List, length, err, broken_pipe, end_of_file, [],
}
use ish_port_go.Memory.{Memory}
use ish_port_go.Pipe.{PipeEnd, PipeBuffer, write_nonblocking, read_nonblocking}
use ish_port_go.Descriptors.{
  Handle, file, virtual, terminal, Table, World, update, dup, close, fcntl, install_open,
}
use ish_port_go.Descriptors.Ends.{pipe}
use ish_port_go.Descriptors.Inherit.{close_cloexec, close_on_exit}
use ish_port_go.Descriptors.Counted.{IsCounted, count}
use ish_port_go.Descriptors.Counted.Sums.{weight, refs, weight-le-refs}
use ish_port_go.Descriptors.Keeps.{dup-Kept, close-Kept, fcntl-Kept}
use ish_port_go.Descriptors.NewPipe.{pipe-KeptPipe, install_open-IsCounted}
use ish_port_go.Descriptors.Loops.{close_cloexec-IsCounted, close_on_exit-IsCounted}

-- The world with another buffer for a pipe.
abbrev pub with_buffer : ℕ → PipeBuffer → World → World
with_buffer p b w = record w { pipes = update w.pipes p b }

-- One call on the descriptors, or a read or a write of a pipe.
pub data Call : Table → World → Table → World → Type 0 where
  duplicates :
      (old_fd new_fd flags : ℕ) (dup3 : Bool) (t : Table) (w : World)
      → Call t w (dup old_fd new_fd flags dup3 t w).1 (dup old_fd new_fd flags dup3 t w).2
  closes : (fd : ℕ) (t : Table) (w : World) → Call t w (close fd t w).1 (close fd t w).2
  controls :
      (fd command argument : ℕ) (t : Table) (w : World)
      → Call t w (fcntl fd command argument t w).1 (fcntl fd command argument t w).2
  pipes :
      (addr flags : ℕ) (m : Memory) (t : Table) (w : World)
      → Call t w (pipe addr flags t w m).1 (pipe addr flags t w m).2
  opens : (f : ℕ) (t : Table) (w : World) → Call t w (install_open (file f) t).1 w
  opens_virtual : (v : ℕ) (t : Table) (w : World) → Call t w (install_open (virtual v) t).1 w
  opens_terminal : (t : Table) (w : World) → Call t w (install_open terminal t).1 w
  drains :
      (p size : ℕ) (h : PipeEnd) (t : Table) (w : World)
      → Call t w t (with_buffer p (read_nonblocking h size (w.pipes p)).1 w)
  fills :
      (p : ℕ) (src : List ℕ) (h : PipeEnd) (t : Table) (w : World)
      → Call t w t (with_buffer p (write_nonblocking h src (w.pipes p)).1 w)
  executes : (t : Table) (w : World) → Call t w (close_cloexec t w).0 (close_cloexec t w).1
  exits : (t : Table) (w : World) → Call t w (close_on_exit t w).0 (close_on_exit t w).1

pub data Calls (t : Table) (w : World) : Table → World → Type 0 where
  here : Calls t w t w
  next : {u v : Table} {x y : World} → Calls t w u x → Call u x v y → Calls t w v y

read_nonblocking-ends :
    (h : PipeEnd) (size : ℕ) (b : PipeBuffer)
    → ((read_nonblocking h size b).1.readers ≡ b.readers)
      × ((read_nonblocking h size b).1.writers ≡ b.writers)
unfolding read_nonblocking
read_nonblocking-ends h size b = (ground arith, ground arith)

write_nonblocking-ends :
    (h : PipeEnd) (src : List ℕ) (b : PipeBuffer)
    → ((write_nonblocking h src b).1.readers ≡ b.readers)
      × ((write_nonblocking h src b).1.writers ≡ b.writers)
unfolding write_nonblocking
write_nonblocking-ends h src b = (ground arith, ground arith)

count-with_buffer :
    (p : ℕ) (b : PipeBuffer) (w : World) (q : ℕ) (kind : Bool)
    → b.readers ≡ (w.pipes p).readers
    → b.writers ≡ (w.pipes p).writers
    → count (with_buffer p b w) q kind ≡ count w q kind
unfolding count
count-with_buffer p b w q true readers writers = ground (arith, writers)
count-with_buffer p b w q false readers writers = ground (arith, readers)

module _ {elsewhere : ℕ → Bool → ℕ} where
  with_buffer-IsCounted :
      {fds : ℕ → Option Handle} {bound : ℕ} {w : World} (p : ℕ) (b : PipeBuffer)
      → b.readers ≡ (w.pipes p).readers
      → b.writers ≡ (w.pipes p).writers
      → IsCounted elsewhere fds bound w
      → IsCounted elsewhere fds bound (with_buffer p b w)
  with_buffer-IsCounted {w = w} p b readers writers c = record {
    bounded = c.bounded;
    are_open = c.are_open;
    counts = λ q kind. count-with_buffer p b w q kind readers writers ∙ c.counts q kind;
    fresh = λ q kind from. count-with_buffer p b w q kind readers writers ∙ c.fresh q kind from;
  }

  Call-IsCounted :
      {t : Table} {w : World} {u : Table} {v : World}
      → Call t w u v
      → IsCounted elsewhere t.fds t.bound w
      → IsCounted elsewhere u.fds u.bound v
  unfolding weight
  Call-IsCounted (duplicates old_fd new_fd flags dup3 t w) c =
      (dup-Kept t w c old_fd new_fd flags dup3).counted
  Call-IsCounted (closes fd t w) c = (close-Kept t w c fd).counted
  Call-IsCounted (controls fd command argument t w) c =
      (fcntl-Kept t w c fd command argument).counted
  Call-IsCounted (pipes addr flags m t w) c = (pipe-KeptPipe t w c addr flags m).counted
  Call-IsCounted (opens f t w) c = install_open-IsCounted t w c (file f) (λ p writes. refl) tt
  Call-IsCounted (opens_virtual v t w) c =
      install_open-IsCounted t w c (virtual v) (λ p writes. refl) tt
  Call-IsCounted (opens_terminal t w) c =
      install_open-IsCounted t w c terminal (λ p writes. refl) tt
  Call-IsCounted (drains p size h t w) c =
      let (readers, writers) = read_nonblocking-ends h size (w.pipes p) in
      with_buffer-IsCounted p _ readers writers c
  Call-IsCounted (fills p src h t w) c =
      let (readers, writers) = write_nonblocking-ends h src (w.pipes p) in
      with_buffer-IsCounted p _ readers writers c
  Call-IsCounted (executes t w) c = close_cloexec-IsCounted t w c
  Call-IsCounted (exits t w) c = close_on_exit-IsCounted t w c

  -- Where each pipe counts as open ends the descriptors that refer to it, here and elsewhere, it does so
  -- after any calls of dup, close, fcntl, pipe and open, any reads and writes of pipes, and after
  -- execve and exit.
  pub Calls-IsCounted :
      {t : Table} {w : World} {u : Table} {v : World}
      → Calls t w u v
      → IsCounted elsewhere t.fds t.bound w
      → IsCounted elsewhere u.fds u.bound v
  Calls-IsCounted here c = c
  Calls-IsCounted (next before call) c = Call-IsCounted call (Calls-IsCounted before c)

-- No descriptor refers to an end of the kind.
abbrev pub NoneRefers : Table → ℕ → Bool → Type 0
NoneRefers t p writes = (fd : ℕ) → weight p writes (t.fds fd) ≡ 0

refs-none :
    (fds : ℕ → Option Handle) (p : ℕ) (writes : Bool) (n : ℕ)
    → ((fd : ℕ) → weight p writes (fds fd) ≡ 0)
    → refs p writes fds n ≡ 0
unfolding refs
refs-none fds p writes zero bare = refl
refs-none fds p writes (suc n) bare = omega (arith, bare n, refs-none fds p writes n bare)

-- Where nothing elsewhere refers to a pipe, it counts no ends of a kind exactly if no descriptor does.
count-zero :
    (t : Table) (w : World) (p : ℕ) (writes : Bool)
    → IsCounted (λ q kind. 0) t.fds t.bound w
    → (count w p writes ≡ 0) ↔ NoneRefers t p writes
unfolding weight
count-zero t w p writes c = (
  λ no_end fd. elim (lt-or-ge fd t.bound) [
    | inl below ↦
        omega (arith, no_end, c.counts p writes, weight-le-refs p writes t.fds t.bound fd below)
    | inr above ↦ rw (c.bounded fd above)
  ],
  λ bare. omega (arith, c.counts p writes, refs-none t.fds p writes t.bound bare),
)

broken_iff :
    (h : PipeEnd) (src : List ℕ) (b : PipeBuffer)
    → h.write ≡ true
    → 0 < length src
    → ((write_nonblocking h src b).0 ≡ err broken_pipe) ↔ (b.readers ≡ 0)
unfolding write_nonblocking
broken_iff h src b writer some_bytes = (λ e. ground (arith, e), λ e. ground (arith, e))

ended_iff :
    (h : PipeEnd) (size : ℕ) (b : PipeBuffer)
    → h.write ≡ false
    → 0 < size
    → b.bytes ≡ []
    → ((read_nonblocking h size b).0 ≡ err end_of_file) ↔ (b.writers ≡ 0)
unfolding read_nonblocking
ended_iff h size b reader some_size bare = (λ e. ground (arith, e), λ e. ground (arith, e))

-- After any calls of dup2, dup3, close, fcntl, pipe2 and open, any reads and writes of pipes, and after
-- execve and exit, of a kernel that alone has descriptors and whose pipes count them: a write of some bytes to a pipe reports a broken
-- pipe exactly if no descriptor refers to its reading end, and a read of a size above 0 from a pipe that
-- is empty reports the end of file exactly if no descriptor refers to its writing end.
pub pipe_ends_iff :
    {t : Table} {w : World} {u : Table} {v : World}
    → Calls t w u v
    → IsCounted (λ p writes. 0) t.fds t.bound w
    → (p : ℕ) (h : PipeEnd) (src : List ℕ) (size : ℕ)
    → (h.write ≡ true
        → 0 < length src
        → ((write_nonblocking h src (v.pipes p)).0 ≡ err broken_pipe) ↔ NoneRefers u p false)
      × (h.write ≡ false
          → 0 < size
          → (v.pipes p).bytes ≡ []
          → ((read_nonblocking h size (v.pipes p)).0 ≡ err end_of_file) ↔ NoneRefers u p true)
unfolding count
pipe_ends_iff {u = u} {v = v} calls c p h src size =
    let after = Calls-IsCounted calls c in
    let readers = count-zero u v p false after in
    let writers = count-zero u v p true after in
    (
      λ writer some_bytes.
          let broken = broken_iff h src (v.pipes p) writer some_bytes in
          (λ e. readers.0 (broken.0 e), λ bare. broken.1 (readers.1 bare)),
      λ reader some_size bare.
          let ended = ended_iff h size (v.pipes p) reader some_size bare in
          (λ e. writers.0 (ended.0 e), λ unused. ended.1 (writers.1 unused)),
    )
