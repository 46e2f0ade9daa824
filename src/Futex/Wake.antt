-- ===== src/Futex/Wake.antt =====
-- internal/kernel/syscall.go: which waiters a FUTEX_WAKE reaches.
use ish_port_go.Prelude.{
  ◌≢◌, ◌+◌, ◌⊎◌, inl, inr, sym, ◌^◌, ◌*◌, ◌/◌, ◌-◌, ltb, leb, lt-or-ge, add32, ℕ, zero, suc, ◌<◌,
  ◌≤◌, ◌≡◌, refl, ap, ◌∙◌, arith, min, true, false, ◌==◌, ==_refl, if◌then◌else◌, List, [], ◌∷◌,
  ◌++◌, length, Option, none, some, ok,
}
use ish_port_go.Memory.{Memory, read32}
use ish_port_go.Futex.{
  FutexAnswer, returned, waiting, errno_timed_out, Futexes, FutexBlock, deadline_of, enqueue,
  futex_wait, close_waiter, close_waiters, futex_wake, is_past, try_resume_blocked_futex,
}

abbrev pub AreBelow : ℕ → List ℕ → Type 0
AreBelow v [] = Unit
AreBelow v (w ∷ ws) = (w < v) × AreBelow v ws

-- The channels that are queued or closed are among those that have been made.
pub record IsFresh (f : Futexes) : Type 0 where
  pub queued : (uaddr : ℕ) → AreBelow f.next_waiter (f.waiters uaddr)
  pub still_open : (w : ℕ) → f.next_waiter ≤ w → f.is_closed w ≡ false

close_waiter_self : (v : ℕ) (f : Futexes) → (close_waiter v f).is_closed v ≡ true
unfolding close_waiter
close_waiter_self v f = rw (==_refl v) refl

close_waiter_keeps :
    (w v : ℕ) (f : Futexes) → f.is_closed v ≡ true → (close_waiter w f).is_closed v ≡ true
unfolding close_waiter
close_waiter_keeps w v f shut = ground (arith, shut)

close_waiters_keeps :
    (n : ℕ) (ws : List ℕ) (v : ℕ) (f : Futexes)
    → f.is_closed v ≡ true
    → (close_waiters n ws f).is_closed v ≡ true
unfolding close_waiters
close_waiters_keeps zero ws v f shut = shut
close_waiters_keeps (suc n) [] v f shut = shut
close_waiters_keeps (suc n) (w ∷ ws) v f shut =
    close_waiters_keeps n ws v (close_waiter w f) (close_waiter_keeps w v f shut)

close_waiter_apart :
    (w v : ℕ) (f : Futexes) → w < v → (close_waiter w f).is_closed v ≡ f.is_closed v
unfolding close_waiter
close_waiter_apart w v f below = ground arith

-- The last of the queue is reached if as many are closed as there are.
close_waiters_reaches :
    (n : ℕ) (ws : List ℕ) (v : ℕ) (f : Futexes)
    → length ws < n
    → (close_waiters n (ws ++ v ∷ []) f).is_closed v ≡ true
unfolding close_waiters
close_waiters_reaches zero ws v f short = absurd (omega arith)
close_waiters_reaches (suc n) [] v f short =
    close_waiters_keeps n [] v (close_waiter v f) (close_waiter_self v f)
close_waiters_reaches (suc n) (w ∷ ws) v f short =
    close_waiters_reaches n ws v (close_waiter w f) (omega (arith, short))

close_waiters_misses :
    (n : ℕ) (ws : List ℕ) (v : ℕ) (f : Futexes)
    → n ≤ length ws
    → AreBelow v ws
    → (close_waiters n (ws ++ v ∷ []) f).is_closed v ≡ f.is_closed v
unfolding close_waiters
close_waiters_misses zero ws v f short below = refl
close_waiters_misses (suc n) [] v f short below = absurd (omega (arith, short))
close_waiters_misses (suc n) (w ∷ ws) v f short (first, below) =
    close_waiters_misses n ws v (close_waiter w f) (omega (arith, short)) below
    ∙ close_waiter_apart w v f first

length_snoc : (ws : List ℕ) (v : ℕ) → length (ws ++ v ∷ []) ≡ suc (length ws)
length_snoc [] v = refl
length_snoc (w ∷ ws) v = ap suc (length_snoc ws v)

module _ (m : Memory) (now uaddr value timeout_addr : ℕ) (f : Futexes) (d : Option ℕ) where
  abbrev pub block : FutexBlock
  block = record { uaddr = uaddr; waiter = f.next_waiter; deadline = d }

  abbrev pub after_wait : Futexes
  after_wait = (futex_wait m now uaddr value timeout_addr none f).2

  abbrev pub after_wake : ℕ → Futexes
  after_wake n = (futex_wake uaddr n after_wait).1

  module _ (fresh : IsFresh f) (current : read32 m uaddr ≡ ok value)
      (timeout : deadline_of m now timeout_addr ≡ inr d) where
    waits : futex_wait m now uaddr value timeout_addr none f ≡ (
      waiting,
      some block,
      record f {
        waiters = λ a. if a == uaddr then f.waiters uaddr ++ f.next_waiter ∷ [] else f.waiters a;
        next_waiter = suc f.next_waiter;
      },
    )
    unfolding futex_wait enqueue
    waits = rw (futex_wait, current, ==_refl value, timeout) refl

    wait_eq : futex_wait m now uaddr value timeout_addr none f ≡ (waiting, some block, after_wait)
    wait_eq =
        waits
        ∙ ap (λ (g : Futexes). (waiting, some block, g))
            (sym (ap (λ (r : FutexAnswer × Option FutexBlock × Futexes). r.2) waits))

    queue : after_wait.waiters uaddr ≡ f.waiters uaddr ++ f.next_waiter ∷ []
    queue =
        ap (λ (r : FutexAnswer × Option FutexBlock × Futexes). r.2.waiters uaddr) waits
        ∙ rw (==_refl uaddr) refl

    wakes :
        (n : ℕ)
        → (after_wake n).is_closed f.next_waiter
          ≡ (close_waiters
                (min n (suc (length (f.waiters uaddr))))
                (f.waiters uaddr ++ f.next_waiter ∷ [])
                after_wait).is_closed
              f.next_waiter
    unfolding futex_wake
    wakes n = rw (futex_wake, queue, length_snoc (f.waiters uaddr) f.next_waiter) refl

    is_open : after_wait.is_closed f.next_waiter ≡ false
    is_open =
        ap (λ (r : FutexAnswer × Option FutexBlock × Futexes). r.2.is_closed f.next_waiter) waits
        ∙ fresh.still_open f.next_waiter (omega arith)

    is_woken :
        (n : ℕ) → length (f.waiters uaddr) < n → (after_wake n).is_closed f.next_waiter ≡ true
    is_woken n short =
        wakes n
        ∙ close_waiters_reaches (min n (suc (length (f.waiters uaddr)))) (f.waiters uaddr)
            f.next_waiter after_wait (omega (arith, short))

    is_passed :
        (n : ℕ) → n ≤ length (f.waiters uaddr) → (after_wake n).is_closed f.next_waiter ≡ false
    is_passed n long =
        wakes n
        ∙ close_waiters_misses (min n (suc (length (f.waiters uaddr)))) (f.waiters uaddr)
            f.next_waiter after_wait (omega (arith, long)) (fresh.queued uaddr)
        ∙ is_open

    wake_answer :
        (n : ℕ)
        → (futex_wake uaddr n after_wait).0 ≡ returned (min n (suc (length (f.waiters uaddr))))
    unfolding futex_wake
    wake_answer n = rw (futex_wake, queue, length_snoc (f.waiters uaddr) f.next_waiter) refl

-- The relative timeout at an address: none at 0, and else the seconds and the nanoseconds in the two
-- words there.
abbrev pub HasTimeout : Memory → ℕ → Option (ℕ × ℕ) → Type 0
HasTimeout m addr none = addr ≡ 0
HasTimeout m addr (some (sec, nsec)) =
    (addr ≢ 0)
    × (read32 m addr ≡ ok sec)
    × (read32 m (add32 addr 4) ≡ ok nsec)
    × (sec < 2 ^ 32)
    × (nsec < 1_000_000_000)

-- At `later` the timeout that was given at `now` is over.
abbrev pub IsDue : ℕ → ℕ → Option (ℕ × ℕ) → Type 0
IsDue now later none = ⊥
IsDue now later (some (sec, nsec)) = now + sec * 1_000_000_000 + nsec ≤ later

-- How a thread that waits with `before` others ahead of it is resumed after a wake of `n`.
abbrev pub Resumed : ℕ → ℕ → Option (ℕ × ℕ) → ℕ → ℕ → FutexBlock → Futexes → Type 0
Resumed now later timeout before n b h =
    (¬ IsDue now later timeout
      × (before < n)
      × ((try_resume_blocked_futex later (some b) h).1 ≡ some (returned 0)))
    ⊎ (¬ IsDue now later timeout
        × (n ≤ before)
        × (try_resume_blocked_futex later (some b) h ≡ (false, none, some b, h)))
    ⊎ (IsDue now later timeout
        × ((try_resume_blocked_futex later (some b) h).1 ≡ some errno_timed_out))

-- The deadline that stands for a timeout.
abbrev deadline : ℕ → Option (ℕ × ℕ) → Option ℕ
deadline now none = none
deadline now (some (sec, nsec)) = some (now + sec * 1_000_000_000 + nsec)

deadline_of_lem :
    (m : Memory) (now addr : ℕ) (timeout : Option (ℕ × ℕ))
    → HasTimeout m addr timeout
    → deadline_of m now addr ≡ inr (deadline now timeout)
unfolding deadline_of
deadline_of_lem m now addr none absent = ground (arith, absent)
deadline_of_lem m now addr (some (sec, nsec)) (given, seconds, rest, small, part) =
    let given' : addr == 0 ≡ false = ground (arith, given) in
    let part' : leb 1_000_000_000 nsec ≡ false = ground (arith, part) in
    let small' : ltb ((2 ^ 63 - 1) / 1_000_000_000) sec ≡ false = ground (arith, small) in
    rw (deadline_of, given', seconds, rest, part', small') refl

is_past_lem :
    (now later : ℕ) (timeout : Option (ℕ × ℕ))
    → (IsDue now later timeout × (is_past later (deadline now timeout) ≡ true))
      ⊎ (¬ IsDue now later timeout × (is_past later (deadline now timeout) ≡ false))
unfolding is_past
is_past_lem now later none = inr (λ due. due, refl)
is_past_lem now later (some (sec, nsec)) =
    elim (lt-or-ge later (now + sec * 1_000_000_000 + nsec)) [
      | inl early ↦ inr (λ due. absurd (omega (arith, early, due)), ground (arith, early))
      | inr due ↦ inl (due, ground (arith, due))
    ]

-- A FUTEX_WAIT of a thread that waits for nothing, at an address that holds the value, with a timeout that
-- is absent or can be read and has less than a second of nanoseconds, and then a FUTEX_WAKE of `n` there,
-- where the channels that are queued or closed have been made: the first waits, and the second answers how
-- many it has woken. Before the time of the wait and the timeout the thread resumes with 0 if fewer than
-- `n` had been waiting, and waits on if not; from then on it resumes with ETIMEDOUT, woken or not.
pub futex_wake-futex_wait :
    (m : Memory) (now uaddr value timeout_addr : ℕ) (f : Futexes) (timeout : Option (ℕ × ℕ))
    (n later : ℕ)
    → IsFresh f
    → read32 m uaddr ≡ ok value
    → HasTimeout m timeout_addr timeout
    → (b : FutexBlock) × (g : Futexes) × (futex_wait m now uaddr value timeout_addr none f
        ≡ (waiting, some b, g))
      × ((futex_wake uaddr n g).0 ≡ returned (min n (suc (length (f.waiters uaddr)))))
      × Resumed now later timeout (length (f.waiters uaddr)) n b (futex_wake uaddr n g).1
unfolding try_resume_blocked_futex
futex_wake-futex_wait m now uaddr value timeout_addr f timeout n later fresh current given =
    let d = deadline now timeout in
    let read = deadline_of_lem m now timeout_addr timeout given in
    let woken = is_woken m now uaddr value timeout_addr f d fresh current read n in
    let passed = is_passed m now uaddr value timeout_addr f d fresh current read n in
    (
      block m now uaddr value timeout_addr f d,
      after_wait m now uaddr value timeout_addr f d,
      wait_eq m now uaddr value timeout_addr f d fresh current read,
      wake_answer m now uaddr value timeout_addr f d fresh current read n,
      elim (is_past_lem now later timeout) [
        | inl (due, past) ↦ inr (inr (due, rw (try_resume_blocked_futex, past) refl))
        | inr (early, before) ↦ elim (lt-or-ge (length (f.waiters uaddr)) n) [
          | inl short ↦ inl (early, short, rw (try_resume_blocked_futex, before, woken short) refl)
          | inr long ↦
              inr (inl (early, long, rw (try_resume_blocked_futex, before, passed long) refl))
        ]
      ],
    )
