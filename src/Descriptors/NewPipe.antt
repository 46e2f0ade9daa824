-- ===== src/Descriptors/NewPipe.antt =====
-- internal/kernel/syscall.go: `pipe2` and `open` keep the counts of the pipes.
use ish_port_go.Prelude.{
  ℕ, ◌+◌, ◌<◌, ◌≤◌, ◌≡◌, ◌≢◌, refl, arith, max, Bool, true, false, if◌then◌else◌, Bool-cases, inl,
  inr, Option, none, some, ◌==◌, Result, ok, err, has, add32, nonzero, and_not,
}
use ish_port_go.Memory.{Memory, write32}
use ish_port_go.Pipe.{new_pipe_pair}
use ish_port_go.Descriptors.{
  Handle, pipe_end, Table, World, update, close_handle, allocate_fd, install_open, invalid,
}
use ish_port_go.Descriptors.Ends.{add_pipe, with_pipe, withdraw, pipe_failed, pipe_written, pipe}
use ish_port_go.Descriptors.Counted.{IsCounted, IsOpen, count, exchange-IsCounted}
use ish_port_go.Descriptors.Lowest.{IsBounded, allocate_fd_lem}
use ish_port_go.Descriptors.Keeps.{drop-Kept, valid_fd-fds}
use ish_port_go.Prelude.Int.{ℤ}
use ish_port_go.Descriptors.Counted.Sums.{weight, refs-update, refs-beyond}

no_weight : (p : ℕ) (writes : Bool) (o : Option Handle) → o ≡ none → weight p writes o ≡ 0
unfolding weight
no_weight p writes none same = refl
no_weight p writes (some h) same = absurd (cc (same))

ends_are_open :
    (nonblock : Bool)
    → ((new_pipe_pair nonblock).0.closed ≡ false) × ((new_pipe_pair nonblock).1.closed ≡ false)
unfolding new_pipe_pair
ends_are_open nonblock = (refl, refl)

-- A number beyond that of the new pipe.
new_number : {n p : ℕ} → n + 1 ≤ p → n ≢ p
new_number from same = absurd (omega arith)

older : {n p : ℕ} → n + 1 ≤ p → n ≤ p
older from = omega arith

module _ {elsewhere : ℕ → Bool → ℕ} {fds : ℕ → Option Handle} {bound : ℕ} {w : World}
    (c : IsCounted elsewhere fds bound w) where
  -- The two ends of a new pipe, under two descriptors that had no handle.
  added :
      (p : ℕ) (writes nonblock : Bool)
      → count (add_pipe w (new_pipe_pair nonblock).2) p writes
        ≡ count w p writes
          + weight p writes (some (pipe_end w.next_pipe (new_pipe_pair nonblock).0))
          + weight p writes (some (pipe_end w.next_pipe (new_pipe_pair nonblock).1))
  unfolding count add_pipe new_pipe_pair weight
  added p true nonblock = ground (arith, c.fresh p true)
  added p false nonblock = ground (arith, c.fresh p false)

  ends_fresh :
      (p q : ℕ) (writes nonblock : Bool)
      → q ≢ p
      → (weight p writes (some (pipe_end q (new_pipe_pair nonblock).0)) ≡ 0)
        × (weight p writes (some (pipe_end q (new_pipe_pair nonblock).1)) ≡ 0)
  unfolding weight
  ends_fresh p q writes nonblock apart = (ground (arith, apart), ground (arith, apart))

  -- The table of the pipe, with the pipe among the others.
  with_pipe-IsCounted :
      (read_fd write_fd : ℕ) (nonblock : Bool)
      → fds read_fd ≡ none
      → fds write_fd ≡ none
      → read_fd < write_fd
      → IsCounted elsewhere
          (update
            (update fds read_fd (some (pipe_end w.next_pipe (new_pipe_pair nonblock).0)))
            write_fd
            (some (pipe_end w.next_pipe (new_pipe_pair nonblock).1)))
          (max (max bound (read_fd + 1)) (write_fd + 1))
          (add_pipe w (new_pipe_pair nonblock).2)
  unfolding add_pipe
  with_pipe-IsCounted read_fd write_fd nonblock no_reader no_writer apart =
      let reader = some (pipe_end w.next_pipe (new_pipe_pair nonblock).0) in
      let writer = some (pipe_end w.next_pipe (new_pipe_pair nonblock).1) in
      let wider = max (max bound (read_fd + 1)) (write_fd + 1) in
      let other : write_fd == read_fd ≡ false = ground arith in
      record {
        bounded = λ fd above. ground (arith, c.bounded fd);
        are_open = λ fd. elim (Bool-cases (fd == write_fd)) [
          | inl last ↦ rw last (ends_are_open nonblock).1
          | inr not_last ↦ rw not_last (elim (Bool-cases (fd == read_fd)) [
            | inl first ↦ rw first (ends_are_open nonblock).0
            | inr neither ↦ rw neither (c.are_open fd)
          ])
        ];
        counts = λ p writes. omega (
          arith,
          added p writes nonblock,
          c.counts p writes,
          refs-update p writes (update fds read_fd reader) wider write_fd writer (omega arith),
          refs-update p writes fds wider read_fd reader (omega arith),
          refs-beyond p writes fds bound wider (omega arith) c.bounded,
          no_weight p writes (fds read_fd) no_reader,
          no_weight p writes (update fds read_fd reader write_fd) (rw other no_writer),
        );
        fresh = λ p writes from.
            let (read_fresh, write_fresh) =
              ends_fresh p w.next_pipe writes nonblock (new_number from) in
            omega (
              arith,
              added p writes nonblock,
              read_fresh,
              write_fresh,
              c.fresh p writes (older from),
            );
      }

-- Of the result of `pipe2`.
pub record KeptPipe (elsewhere : ℕ → Bool → ℕ) (r : ℤ × Table × World × Memory) : Type 0 where
  pub counted : IsCounted elsewhere r.1.fds r.1.bound r.2

module _ {elsewhere : ℕ → Bool → ℕ} where
  KeptPipe-if :
      (test : Bool) (this other : ℤ × Table × World × Memory)
      → KeptPipe elsewhere this
      → KeptPipe elsewhere other
      → KeptPipe elsewhere (if test then this else other)
  KeptPipe-if true this other p q = p
  KeptPipe-if false this other p q = q

  written-KeptPipe :
      (r : Result Memory) (failed : ℤ × Table × World × Memory)
      (rest : Memory → ℤ × Table × World × Memory)
      → KeptPipe elsewhere failed
      → ((n : Memory) → KeptPipe elsewhere (rest n))
      → KeptPipe elsewhere (elim r [ err e ↦ failed | ok n ↦ rest n ])
  written-KeptPipe (err e) failed rest p q = p
  written-KeptPipe (ok n) failed rest p q = q n

  module _ (t : Table) (w : World) (c : IsCounted elsewhere t.fds t.bound w) (read_fd write_fd : ℕ)
      (read_end write_end : Handle) (reads : t.fds read_fd ≡ some read_end)
      (writes : t.fds write_fd ≡ some write_end) (apart : read_fd < write_fd) where
    pipe_failed-KeptPipe :
        (m : Memory) → KeptPipe elsewhere (pipe_failed read_fd write_fd read_end write_end t w m)
    unfolding pipe_failed withdraw
    pipe_failed-KeptPipe m =
        let other : write_fd == read_fd ≡ false = ground arith in
        let one_left = record t { fds = update t.fds read_fd none } in
        record {
          counted =
              drop-Kept one_left (close_handle read_end w) (drop-Kept t w c read_fd read_end reads)
                write_fd write_end (rw other writes);
        }

    pipe_written-KeptPipe :
        (addr : ℕ) (m : Memory)
        → KeptPipe elsewhere (pipe_written addr read_fd write_fd read_end write_end t w m)
    unfolding pipe_written
    pipe_written-KeptPipe addr m =
        written-KeptPipe (write32 m addr read_fd) _ _ (pipe_failed-KeptPipe m) (λ n.
          written-KeptPipe (write32 n (add32 addr 4) write_fd) _ _ (pipe_failed-KeptPipe n)
            (λ o. record { counted = c }))

with_pipe-fds :
    (read_fd write_fd : ℕ) (read_end write_end : Handle) (cloexec : Bool) (t : Table)
    → read_fd < write_fd
    → ((with_pipe read_fd write_fd read_end write_end cloexec t).fds read_fd ≡ some read_end)
      × ((with_pipe read_fd write_fd read_end write_end cloexec t).fds write_fd ≡ some write_end)
unfolding with_pipe
with_pipe-fds read_fd write_fd read_end write_end cloexec t apart = (ground arith, ground arith)

module _ {elsewhere : ℕ → Bool → ℕ} (t : Table) (w : World)
    (c : IsCounted elsewhere t.fds t.bound w) where
  pipe_entered-IsCounted :
      (read_fd write_fd : ℕ) (nonblock cloexec : Bool)
      → t.fds read_fd ≡ none
      → t.fds write_fd ≡ none
      → read_fd < write_fd
      → (let t' =
            with_pipe read_fd write_fd
              (pipe_end w.next_pipe (new_pipe_pair nonblock).0)
              (pipe_end w.next_pipe (new_pipe_pair nonblock).1)
              cloexec
              t in
          IsCounted elsewhere t'.fds t'.bound (add_pipe w (new_pipe_pair nonblock).2))
  unfolding with_pipe
  pipe_entered-IsCounted read_fd write_fd nonblock cloexec no_reader no_writer apart =
      with_pipe-IsCounted c read_fd write_fd nonblock no_reader no_writer apart

  pub pipe-KeptPipe : (addr flags : ℕ) (m : Memory) → KeptPipe elsewhere (pipe addr flags t w m)
  unfolding pipe
  pipe-KeptPipe addr flags m =
      let nonblock = has flags 0x800 in
      let cloexec = has flags 0x80000 in
      let read_fd = allocate_fd t 0 in
      let write_fd = allocate_fd t (read_fd + 1) in
      let read_end = pipe_end w.next_pipe (new_pipe_pair nonblock).0 in
      let write_end = pipe_end w.next_pipe (new_pipe_pair nonblock).1 in
      let b : IsBounded t = record { at = c.bounded } in
      let first = allocate_fd_lem t 0 b in
      let second = allocate_fd_lem t (read_fd + 1) b in
      let apart : read_fd < write_fd = omega (arith, second.0) in
      let (reads, writes) = with_pipe-fds read_fd write_fd read_end write_end cloexec t apart in
      KeptPipe-if (nonzero (and_not flags 0x80800)) (invalid, t, w, m) _ (record { counted = c })
        (pipe_written-KeptPipe (with_pipe read_fd write_fd read_end write_end cloexec t)
          (add_pipe w (new_pipe_pair nonblock).2)
          (pipe_entered-IsCounted read_fd write_fd nonblock cloexec (valid_fd-fds t read_fd first.1)
            (valid_fd-fds t write_fd second.1) apart)
          read_fd write_fd read_end write_end reads writes apart addr m)

  -- A handle that refers to no pipe is put under a free descriptor.
  pub install_open-IsCounted :
      (h : Handle)
      → ((p : ℕ) (writes : Bool) → weight p writes (some h) ≡ 0)
      → IsOpen (some h)
      → IsCounted elsewhere (install_open h t).1.fds (install_open h t).1.bound w
  unfolding install_open
  install_open-IsCounted h plain is_open =
      let fd = allocate_fd t 0 in
      let vacant = valid_fd-fds t fd (allocate_fd_lem t 0 (record { at = c.bounded })).1 in
      exchange-IsCounted c fd (max t.bound (fd + 1)) (some h) w (omega arith) (omega arith) is_open
        refl (λ p writes. omega (arith, plain p writes, no_weight p writes (t.fds fd) vacant))
        (λ p writes from. plain p writes)
