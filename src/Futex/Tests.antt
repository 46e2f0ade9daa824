-- ===== src/Futex/Tests.antt =====
-- A wait and a wake at an address where one thread waits already, and the witnesses of the properties.
use ish_port_go.Prelude.{
  Bool-cases, ◌++◌, inl, ℕ, ◌≡◌, refl, arith, ◌==◌, false, inr, Option, none, some, [], ◌∷◌,
  replicate, ok, if◌then◌else◌,
}
use ish_port_go.AddressSpace.{AddressSpace}
use ish_port_go.Memory.{Memory, read32, check_access, check, slice, of_bytes}
use ish_port_go.Futex.{
  futex, FutexBlock, Futexes, returned, waiting, futex_wait, futex_wake, try_resume_blocked_futex,
}
use ish_port_go.Futex.Open.{Holds, AreApart}
use ish_port_go.Futex.Once.{FutexCalls, start, calls, resumes, no_futexes, futex_once}
use ish_port_go.Futex.Wake.{IsFresh, AreBelow, HasTimeout, Resumed, futex_wake-futex_wait}

abbrev nowhere : AddressSpace
nowhere = record { mappings = []; max = 16; next_hint = 0 }

abbrev plain : Memory
plain = record { bytes = replicate 16 0; protected = false; space = nowhere }

abbrev one_waits : Futexes
one_waits = record {
  waiters = λ a. if a == 4 then 3 ∷ [] else [];
  is_closed = λ w. false;
  panicked = false;
  next_waiter = 8;
}

queued : (a : ℕ) → AreBelow 8 (one_waits.waiters a)
queued a = elim (Bool-cases (a == 4)) [ inl at4 ↦ rw at4 (omega arith) | inr apart ↦ rw apart tt ]

one_waits-IsFresh : IsFresh one_waits
one_waits-IsFresh = record { queued = queued; still_open = λ w above. refl }

-- Two seconds and five nanoseconds.
abbrev timed : Memory
timed = record plain { bytes = replicate 8 0 ++ (2 ∷ 0 ∷ 0 ∷ 0 ∷ 5 ∷ 0 ∷ 0 ∷ 0 ∷ []) }

current : read32 timed 4 ≡ ok 0
unfolding read32 check_access check slice of_bytes
current = refl

timed-HasTimeout : HasTimeout timed 8 (some (2, 5))
unfolding read32 check_access check slice of_bytes
timed-HasTimeout = (λ e. absurd (omega (arith, e)), refl, refl, omega arith, omega arith)

-- Before two seconds have passed.
futex_wake-futex_wait_example :
    (b : FutexBlock) × (g : Futexes) × (futex_wait timed 100 4 0 8 none one_waits
      ≡ (waiting, some b, g))
    × ((futex_wake 4 2 g).0 ≡ returned 2)
    × Resumed 100 900 (some (2, 5)) 1 2 b (futex_wake 4 2 g).1
futex_wake-futex_wait_example =
    futex_wake-futex_wait timed 100 4 0 8 one_waits (some (2, 5)) 2 900 one_waits-IsFresh current
      timed-HasTimeout

-- A wait at 4, a wake of two there, and the resumption of the first.
abbrev waited : Futexes
waited = (futex plain 100 4 0 0 0 none no_futexes).2

abbrev first : Option FutexBlock
first = (futex plain 100 4 0 0 0 none no_futexes).1

abbrev woken : Futexes
woken = (futex plain 100 4 1 2 0 none waited).2

abbrev gone : Futexes
gone = (try_resume_blocked_futex 200 first woken).3

wait_wake_resume : FutexCalls no_futexes gone
wait_wake_resume =
    resumes (calls (calls start plain 100 4 0 0 0 none) plain 100 4 1 2 0 none) 200 first

futex_once_example :
    (gone.panicked ≡ false)
    × ((a w : ℕ) → Holds w (gone.waiters a) → gone.is_closed w ≡ false)
    × ((a : ℕ) → AreApart (gone.waiters a))
    × ((a b w : ℕ) → Holds w (gone.waiters a) → Holds w (gone.waiters b) → a ≡ b)
futex_once_example = futex_once wait_wake_resume
