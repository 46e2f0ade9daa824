-- ===== src/Futex/Once.antt =====
-- internal/kernel/syscall.go: what every call of `futex` and every resumption keeps.
use ish_port_go.Prelude.{
  ℕ, suc, ◌≡◌, ◌⊎◌, inl, inr, refl, arith, min, false, not, ◌==◌, [], ◌∷◌, ◌++◌, length, drop,
  Option, none, some, Result, ok, err, Error, Bool-cases, and_not, bit_and,
}
use ish_port_go.Memory.{Memory, read32}
use ish_port_go.Futex.{
  FutexAnswer, Futexes, FutexBlock, set_waiters, without, remove_futex_waiter, close_waiters,
  futex_wake, futex_wait, deadline_of, enqueue, futex, is_past, try_resume_blocked_futex,
}
use ish_port_go.Futex.Open.{
  Holds, AreApart, IsOpen, Holds-drop, AreApart-drop, Holds-without, AreApart-without, Holds-snoc,
  AreApart-snoc, close_waiters_calm, close_waiters_only, close_waiters_rest, close_waiters_waiters,
  close_waiters_next, IsOpen-part,
}

result_cases : (r : Result ℕ) → ((e : Error) × (r ≡ err e)) ⊎ ((n : ℕ) × (r ≡ ok n))
result_cases (ok n) = inr (n, refl)
result_cases (err e) = inl (e, refl)

remove_futex_waiter-IsOpen :
    (uaddr w : ℕ) (f : Futexes) → IsOpen f → IsOpen (remove_futex_waiter uaddr w f)
unfolding remove_futex_waiter
remove_futex_waiter-IsOpen uaddr w f o =
    IsOpen-part uaddr (without w (f.waiters uaddr)) f f o refl refl o.calm
      (AreApart-without w (f.waiters uaddr) (o.apart uaddr))
      (λ v held. (Holds-without w v (f.waiters uaddr) held, refl)) (λ v absent. refl)

futex_wake-IsOpen : (uaddr n : ℕ) (f : Futexes) → IsOpen f → IsOpen (futex_wake uaddr n f).1
unfolding futex_wake
futex_wake-IsOpen uaddr n f o =
    let ws = f.waiters uaddr in
    let k = min n (length ws) in
    IsOpen-part uaddr (drop k ws) f (close_waiters k ws f) o (close_waiters_waiters k ws f)
      (close_waiters_next k ws f)
      (close_waiters_calm k ws f o.calm (o.apart uaddr) (λ w held. (o.queued uaddr w held).1))
      (AreApart-drop k ws (o.apart uaddr))
      (λ w held. (Holds-drop k w ws held, close_waiters_rest k ws f w (o.apart uaddr) held))
      (λ w absent. close_waiters_only k ws f w absent)

-- The queue of an address with the next channel behind it.
abbrev queue_next : ℕ → Futexes → Futexes
queue_next uaddr f = record (set_waiters uaddr (f.waiters uaddr ++ f.next_waiter ∷ []) f) {
  next_waiter = suc f.next_waiter;
}

queue_next-Holds :
    (uaddr a w : ℕ) (f : Futexes)
    → Holds w ((queue_next uaddr f).waiters a)
    → Holds w (f.waiters a) ⊎ ((a ≡ uaddr) × (w ≡ f.next_waiter))
queue_next-Holds uaddr a w f held = elim (Bool-cases (a == uaddr)) [
  | inl here ↦
      let at_here : a ≡ uaddr = ground (arith, here) in
      elim (Holds-snoc w f.next_waiter (f.waiters uaddr) (rw here at held)) [
        | inl before ↦ inl (rw at_here before)
        | inr last ↦ inr (at_here, last)
      ]
  | inr other ↦ inl (rw other at held)
]

queue_next-IsOpen : (uaddr : ℕ) (f : Futexes) → IsOpen f → IsOpen (queue_next uaddr f)
queue_next-IsOpen uaddr f o =
    let absent : (a : ℕ) → ¬ Holds f.next_waiter (f.waiters a) =
      λ a held. absurd (omega (arith, (o.queued a f.next_waiter held).0)) in
    record {
      calm = o.calm;
      queued = λ a w held. elim (queue_next-Holds uaddr a w f held) [
        | inl before ↦ (let (made, is_open) = o.queued a w before in (omega (arith, made), is_open))
        | inr (here, last) ↦ (omega (arith, last), o.unmade w (omega (arith, last)))
      ];
      apart = λ a. elim (Bool-cases (a == uaddr)) [
        | inl here ↦
            rw here (AreApart-snoc f.next_waiter (f.waiters uaddr) (absent uaddr) (o.apart uaddr))
        | inr other ↦ rw other (o.apart a)
      ];
      one_queue = λ a b w left right. elim (queue_next-Holds uaddr a w f left) [
        | inl in_a ↦ elim (queue_next-Holds uaddr b w f right) [
          | inl in_b ↦ o.one_queue a b w in_a in_b
          | inr (at_b, last) ↦ absurd (omega (arith, last, (o.queued a w in_a).0))
        ]
        | inr (at_a, last) ↦ elim (queue_next-Holds uaddr b w f right) [
          | inl in_b ↦ absurd (omega (arith, last, (o.queued b w in_b).0))
          | inr (at_b, last_too) ↦ omega (arith, at_a, at_b)
        ]
      ];
      unmade = λ w above. o.unmade w (omega (arith, above));
    }

enqueue-IsOpen :
    (uaddr : ℕ) (b : Option FutexBlock) (f : Futexes) (d : FutexAnswer ⊎ Option ℕ)
    → IsOpen f
    → IsOpen (enqueue uaddr b f d).2
unfolding enqueue
enqueue-IsOpen uaddr b f (inl refused) o = o
enqueue-IsOpen uaddr none f (inr deadline) o = queue_next-IsOpen uaddr f o
enqueue-IsOpen uaddr (some b) f (inr deadline) o =
    remove_futex_waiter-IsOpen uaddr f.next_waiter (queue_next uaddr f)
      (queue_next-IsOpen uaddr f o)

futex_wait-IsOpen :
    (m : Memory) (now uaddr value timeout_addr : ℕ) (b : Option FutexBlock) (f : Futexes)
    → IsOpen f
    → IsOpen (futex_wait m now uaddr value timeout_addr b f).2
unfolding futex_wait
futex_wait-IsOpen m now uaddr value timeout_addr b f o = elim (result_cases (read32 m uaddr)) [
  | inl (e, failed) ↦ rw (futex_wait, failed) o
  | inr (current, loaded) ↦ elim (Bool-cases (current == value)) [
    | inl same ↦
        rw (futex_wait, loaded, same) (enqueue-IsOpen uaddr b f (deadline_of m now timeout_addr) o)
    | inr other ↦ rw (futex_wait, loaded, other) o
  ]
]

futex-IsOpen :
    (m : Memory) (now uaddr op value timeout_addr : ℕ) (b : Option FutexBlock) (f : Futexes)
    → IsOpen f
    → IsOpen (futex m now uaddr op value timeout_addr b f).2
unfolding futex
futex-IsOpen m now uaddr op value timeout_addr b f o =
    elim (Bool-cases (not (bit_and uaddr 3 == 0))) [
      | inl skewed ↦ rw (futex, skewed) o
      | inr even ↦
          rw (futex, even)
            (elim (Bool-cases (and_not op 128 == 0)) [
              | inl is_wait ↦ rw is_wait (futex_wait-IsOpen m now uaddr value timeout_addr b f o)
              | inr not_wait ↦ rw not_wait (elim (Bool-cases (and_not op 128 == 1)) [
                | inl is_wake ↦ rw is_wake (futex_wake-IsOpen uaddr value f o)
                | inr not_wake ↦ rw not_wake o
              ])
            ])
    ]

try_resume_blocked_futex-IsOpen :
    (now : ℕ) (b : Option FutexBlock) (f : Futexes)
    → IsOpen f
    → IsOpen (try_resume_blocked_futex now b f).3
unfolding try_resume_blocked_futex
try_resume_blocked_futex-IsOpen now none f o = o
try_resume_blocked_futex-IsOpen now (some b) f o =
    let removed = remove_futex_waiter-IsOpen b.uaddr b.waiter f o in
    elim (Bool-cases (is_past now b.deadline)) [
      | inl past ↦ rw past removed
      | inr early ↦ rw early (elim (Bool-cases (f.is_closed b.waiter)) [
        | inl woken ↦ rw woken removed
        | inr waits ↦ rw waits o
      ])
    ]

-- The calls and resumptions of any threads, one after the other.
pub data FutexCalls : Futexes → Futexes → Type 0 where
  start : {f : Futexes} → FutexCalls f f
  calls :
      {f g : Futexes}
      → FutexCalls f g
      → (m : Memory) (now uaddr op value timeout_addr : ℕ) (b : Option FutexBlock)
      → FutexCalls f (futex m now uaddr op value timeout_addr b g).2
  resumes :
      {f g : Futexes}
      → FutexCalls f g
      → (now : ℕ) (b : Option FutexBlock) → FutexCalls f (try_resume_blocked_futex now b g).3

FutexCalls-IsOpen : {f g : Futexes} → FutexCalls f g → IsOpen f → IsOpen g
FutexCalls-IsOpen start o = o
FutexCalls-IsOpen (calls {g = g} before m now uaddr op value timeout_addr b) o =
    futex-IsOpen m now uaddr op value timeout_addr b g (FutexCalls-IsOpen before o)
FutexCalls-IsOpen (resumes {g = g} before now b) o =
    try_resume_blocked_futex-IsOpen now b g (FutexCalls-IsOpen before o)

-- The waiters of a new kernel.
abbrev pub no_futexes : Futexes
no_futexes = record { waiters = λ a. []; is_closed = λ w. false; panicked = false; next_waiter = 0 }

no_futexes-IsOpen : IsOpen no_futexes
no_futexes-IsOpen = record {
  calm = refl;
  queued = λ a w held. absurd held;
  apart = λ a. tt;
  one_queue = λ a b w left right. absurd left;
  unmade = λ w above. refl;
}

-- After any calls of `futex` and any resumptions of threads that share the waiters of a new kernel, no
-- channel has been closed twice, so that nothing has panicked; a channel that is queued is open, and it is
-- queued once and at one address.
pub futex_once :
    {f : Futexes}
    → FutexCalls no_futexes f
    → (f.panicked ≡ false)
      × ((a w : ℕ) → Holds w (f.waiters a) → f.is_closed w ≡ false)
      × ((a : ℕ) → AreApart (f.waiters a))
      × ((a b w : ℕ) → Holds w (f.waiters a) → Holds w (f.waiters b) → a ≡ b)
futex_once run =
    let o = FutexCalls-IsOpen run no_futexes-IsOpen in
    (o.calm, λ a w held. (o.queued a w held).1, o.apart, o.one_queue)
