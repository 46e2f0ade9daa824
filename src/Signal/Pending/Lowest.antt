-- ===== src/Signal/Pending/Lowest.antt =====
-- Which signal `TakePendingSignal` takes.
use Prim.Native.Nat.{differ}
use native.Mathlib.Nat.{pow-suc, one-le-pow}
use ish_port_go.Prelude.{
  ℕ, zero, suc, ◌+◌, ◌-◌, ◌/◌, ◌^◌, ◌≤◌, ◌<◌, ◌≡◌, ◌⊎◌, refl, sym, ap, ◌∙◌, arith, none, some,
  bit_xor, has, Bool-cases, Option-cases, inl, inr, lt-or-ge, min,
}
use ish_port_go.Prelude.Bits.{bit, bit-lt, bit-bit_and, bit-bit_xor}
use ish_port_go.Cpu.Step.Bits.Scan.{has-digit}
use ish_port_go.Signal.Pending.{SignalState, and_not64, first_set, take_pending}

bit-ones : (n j : ℕ) → j < n → bit (2 ^ n - 1) j ≡ 1
bit-ones zero j p = absurd (omega arith)
bit-ones (suc n) zero p = omega (arith, pow-suc 2 n, one-le-pow n 2)
bit-ones (suc n) (suc j) p =
    let half : (2 ^ suc n - 1) / 2 ≡ 2 ^ n - 1 = omega (arith, pow-suc 2 n, one-le-pow n 2) in
    rw half (bit-ones n j (omega arith))

differ-one : (x : ℕ) → x < 2 → differ x 1 ≡ 1 - x
differ-one zero p = refl
differ-one (suc zero) p = refl
differ-one (suc (suc x)) p = absurd (omega arith)

-- A digit of `a &^ b`.
bit-and_not64 : (a b j : ℕ) → j < 64 → bit (and_not64 a b) j ≡ min (bit a j) (1 - bit b j)
bit-and_not64 a b j p =
    rw
      (
        bit-bit_and a (bit_xor b (2 ^ 64 - 1)) j,
        bit-bit_xor b (2 ^ 64 - 1) j,
        bit-ones 64 j p,
        differ-one (bit b j) (bit-lt b j),
      )
      refl

bit-pow_self : (i : ℕ) → bit (2 ^ i) i ≡ 1
bit-pow_self zero = omega arith
bit-pow_self (suc i) =
    let half : 2 ^ suc i / 2 ≡ 2 ^ i = omega (arith, pow-suc 2 i) in rw half (bit-pow_self i)

some_inj : (a b : ℕ) → some a ≡ some b → a ≡ b
some_inj a b e = cc

no_digit : (i : ℕ) → ¬ (some i ≡ none)
no_digit i e = cc

-- What the loop finds.
first_set-some :
    (fuel i available k : ℕ)
    → first_set fuel i available ≡ some k
    → (i ≤ k)
      × (k < i + fuel)
      × (bit available k ≡ 1)
      × ((j : ℕ) → i ≤ j → j < k → bit available j ≡ 0)
unfolding first_set
first_set-some zero i available k e = absurd cc
first_set-some (suc fuel) i available k e = elim (Bool-cases (has available (2 ^ i))) [
  | inl set ↦
      (let same : k ≡ i = some_inj k i (sym (rw (first_set, set) at e)) in
        rw same (
          omega arith,
          omega arith,
          (has-digit available i).0 set,
          λ j lo hi. absurd (omega arith),
        ))
  | inr clear ↦
      (let (lo, hi, digit, below) =
          first_set-some fuel (suc i) available k (rw (first_set, clear) at e) in
        (
          omega (arith, lo),
          omega (arith, hi),
          digit,
          λ j from to. elim (lt-or-ge i j) [
            | inl later ↦ below j later to
            | inr here ↦
                (let same : j ≡ i = omega (arith, from, here) in
                  ap (bit available) same ∙ (has-digit available i).1 clear)
          ],
        ))
]

first_set-none :
    (fuel i available : ℕ)
    → first_set fuel i available ≡ none
    → (j : ℕ) → i ≤ j
    → j < i + fuel
    → bit available j ≡ 0
unfolding first_set
first_set-none zero i available e j lo hi = absurd (omega arith)
first_set-none (suc fuel) i available e j lo hi = elim (Bool-cases (has available (2 ^ i))) [
  | inl set ↦ absurd (no_digit i (rw (first_set, set) at e))
  | inr clear ↦ elim (lt-or-ge i j) [
    | inl later ↦
        first_set-none fuel (suc i) available (rw (first_set, clear) at e) j later (omega arith)
    | inr here ↦
        (let same : j ≡ i = omega (arith, lo, here) in
          ap (bit available) same ∙ (has-digit available i).1 clear)
  ]
]

-- A signal that is pending and not blocked, by its digit.
abbrev pub Takes : SignalState → ℕ → Type 0
Takes s i = (bit s.pending i ≡ 1) × (bit s.mask i ≡ 0)

available-digit :
    (p m j : ℕ)
    → j < 64
    → (bit (and_not64 p m) j ≡ 1 → (bit p j ≡ 1) × (bit m j ≡ 0))
      × (bit (and_not64 p m) j ≡ 0 → ¬ ((bit p j ≡ 1) × (bit m j ≡ 0)))
available-digit p m j small =
    let digit = bit-and_not64 p m j small in
    (
      λ e. (
        omega (arith, e, digit, bit-lt p j, bit-lt m j),
        omega (arith, e, digit, bit-lt p j, bit-lt m j),
      ),
      λ e both. omega (arith, e, digit, both.0, both.1),
    )

-- `TakePendingSignal` takes the lowest signal that is pending and not blocked, with its action, and
-- clears that signal; where it takes none, no signal is pending and not blocked. The mask and the
-- actions stay as they were.
pub take_pending_lem :
    (s : SignalState)
    → (((take_pending s).0 ≡ none) × ((j : ℕ) → j < 64 → ¬ Takes s j))
      ⊎ ((i : ℕ) × (i < 64)
          × (take_pending s ≡ (
            some (suc i, s.actions (suc i)),
            record s { pending = and_not64 s.pending (2 ^ i) },
          ))
          × Takes s i
          × ((j : ℕ) → j < i → ¬ Takes s j))
unfolding take_pending
take_pending_lem s = elim (Option-cases (first_set 64 0 (and_not64 s.pending s.mask))) [
  | inl none_set ↦ inl (
    rw (take_pending, none_set) refl,
    λ j small.
        (available-digit s.pending s.mask j small).1
          (first_set-none 64 0 _ none_set j (omega arith) (omega arith)),
  )
  | inr (i, found) ↦
      (let (lo, hi, digit, below) = first_set-some 64 0 _ i found in
        let small : i < 64 = omega (arith, hi) in
        inr (
          i,
          small,
          rw (take_pending, found) refl,
          (available-digit s.pending s.mask i small).0 digit,
          λ j under.
              (available-digit s.pending s.mask j (omega arith)).1 (below j (omega arith) under),
        ))
]
