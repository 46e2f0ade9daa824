-- ===== src/Futex.antt =====
-- internal/kernel/syscall.go: `futex` and `TryResumeBlockedFutex` of a kernel that knows the scheduler.
-- A channel is a number, and the map of waiters, which threads share, is a function. The time is in
-- nanoseconds; `time.Now` is an argument.
pub mod Wake
pub mod Open
pub mod Once
mod Tests
use ish_port_go.Prelude.{
  ℕ, zero, suc, ◌+◌, ◌*◌, ◌/◌, ◌-◌, ◌^◌, ◌%◌, ◌⊎◌, inl, inr, min, Bool, true, false, ◌||◌, not,
  ◌==◌, ltb, leb, if◌then◌else◌, List, [], ◌∷◌, ◌++◌, length, drop, Option, none, some, Result, ok,
  err, and_not, bit_and, add32,
}
use ish_port_go.Memory.{Memory, read32}

-- What `ret` puts into EAX; a call that waits puts nothing.
pub data FutexAnswer : Type 0 where
  returned : ℕ → FutexAnswer
  errno_invalid errno_fault errno_again errno_timed_out errno_no_sys waiting : FutexAnswer

-- The waiters of an address, in their order; the channels that are closed, whether one was closed
-- twice, and the number of the next one.
pub record Futexes : Type 0 where
  pub waiters : ℕ → List ℕ
  pub is_closed : ℕ → Bool
  pub panicked : Bool
  pub next_waiter : ℕ

-- `futexBlock`; no deadline is the zero `time.Time`
pub record FutexBlock : Type 0 where
  pub uaddr : ℕ
  pub waiter : ℕ
  pub deadline : Option ℕ

abbrev pub set_waiters : ℕ → List ℕ → Futexes → Futexes
set_waiters uaddr ws f = record f { waiters = λ a. if a == uaddr then ws else f.waiters a }

unfoldable pub without : ℕ → List ℕ → List ℕ
without w [] = []
without w (v ∷ vs) = let rest = without w vs in if v == w then vs else v ∷ rest

unfoldable pub remove_futex_waiter : ℕ → ℕ → Futexes → Futexes
unfolding without
remove_futex_waiter uaddr w f = set_waiters uaddr (without w (f.waiters uaddr)) f

-- The deadline of a relative timeout, or the answer that refuses it.
unfoldable pub deadline_of : Memory → ℕ → ℕ → FutexAnswer ⊎ Option ℕ
deadline_of m now addr = if addr == 0 then inr none else elim (read32 m addr) [
  | err e ↦ inl errno_fault
  | ok sec ↦ elim (read32 m (add32 addr 4)) [
    | err e ↦ inl errno_fault
    | ok nsec ↦
        if leb 1_000_000_000 nsec
        then inl errno_fault
        else if ltb ((2 ^ 63 - 1) / 1_000_000_000) sec
        then inl errno_timed_out
        else inr (some (now + sec * 1_000_000_000 + nsec))
  ]
]

-- A waiter is queued, and taken out again where the kernel is waiting already.
unfoldable pub enqueue :
    ℕ
    → Option FutexBlock
    → Futexes
    → FutexAnswer ⊎ Option ℕ
    → FutexAnswer × Option FutexBlock × Futexes
unfolding remove_futex_waiter
enqueue uaddr b f (inl refused) = (refused, b, f)
enqueue uaddr (some b) f (inr deadline) =
    let w = f.next_waiter in
    let g = record (set_waiters uaddr (f.waiters uaddr ++ w ∷ []) f) { next_waiter = suc w } in
    (errno_again, some b, remove_futex_waiter uaddr w g)
enqueue uaddr none f (inr deadline) =
    let w = f.next_waiter in
    (
      waiting,
      some (record { uaddr = uaddr; waiter = w; deadline = deadline }),
      record (set_waiters uaddr (f.waiters uaddr ++ w ∷ []) f) { next_waiter = suc w },
    )

unfoldable pub futex_wait :
    Memory → ℕ → ℕ → ℕ → ℕ → Option FutexBlock → Futexes → FutexAnswer × Option FutexBlock × Futexes
unfolding enqueue deadline_of
futex_wait m now uaddr value timeout_addr b f = elim (read32 m uaddr) [
  | err e ↦ (errno_fault, b, f)
  | ok current ↦
      if not (current == value)
      then (errno_again, b, f)
      else enqueue uaddr b f (deadline_of m now timeout_addr)
]

-- close(waiter), which panics on a channel that is closed
unfoldable pub close_waiter : ℕ → Futexes → Futexes
close_waiter w f = record f {
  is_closed = λ v. v == w || f.is_closed v;
  panicked = f.panicked || f.is_closed w;
}

unfoldable pub close_waiters : ℕ → List ℕ → Futexes → Futexes
unfolding close_waiter
close_waiters zero ws f = f
close_waiters (suc n) [] f = f
close_waiters (suc n) (w ∷ ws) f = close_waiters n ws (close_waiter w f)

unfoldable pub futex_wake : ℕ → ℕ → Futexes → FutexAnswer × Futexes
unfolding close_waiters
futex_wake uaddr value f =
    let waiters = f.waiters uaddr in
    let limit = min value (length waiters) in
    (returned limit, set_waiters uaddr (drop limit waiters) (close_waiters limit waiters f))

unfoldable pub futex :
    Memory
    → ℕ
    → ℕ
    → ℕ
    → ℕ
    → ℕ
    → Option FutexBlock
    → Futexes
    → FutexAnswer × Option FutexBlock × Futexes
unfolding futex_wait futex_wake
futex m now uaddr op value timeout_addr b f =
    if not (bit_and uaddr 3 == 0)
    then (errno_invalid, b, f)
    else if and_not op 128 == 0
    then futex_wait m now uaddr value timeout_addr b f
    else if and_not op 128 == 1
    then (let (answer, g) = futex_wake uaddr value f in (answer, b, g))
    else (errno_no_sys, b, f)

-- !deadline.IsZero() && !time.Now().Before(deadline)
unfoldable pub is_past : ℕ → Option ℕ → Bool
is_past now none = false
is_past now (some deadline) = leb deadline now

-- Whether the call has been completed, its answer, the kernel's call and the waiters then.
unfoldable pub try_resume_blocked_futex :
    ℕ → Option FutexBlock → Futexes → Bool × Option FutexAnswer × Option FutexBlock × Futexes
unfolding is_past remove_futex_waiter
try_resume_blocked_futex now none f = (true, none, none, f)
try_resume_blocked_futex now (some b) f =
    if is_past now b.deadline
    then (true, some errno_timed_out, none, remove_futex_waiter b.uaddr b.waiter f)
    else if f.is_closed b.waiter
    then (true, some (returned 0), none, remove_futex_waiter b.uaddr b.waiter f)
    else (false, none, some b, f)
