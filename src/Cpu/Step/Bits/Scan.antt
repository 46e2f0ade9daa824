-- ===== src/Cpu/Step/Bits/Scan.antt =====
-- What the loops of BSF and BSR find.
use Prim.Native.Nat.{bit_and}
use native.Mathlib.Nat.{pow-suc, one-le-pow}
use ish_port_go.Prelude.{
  ℕ, zero, suc, ◌+◌, ◌*◌, ◌/◌, ◌%◌, ◌^◌, ◌≤◌, ◌<◌, ◌≡◌, refl, true, false, arith, ◌==◌, ap,
  Bool-cases, inl, inr, has, nonzero,
}
use ish_port_go.Prelude.Bits.{bit, bit-lt, bit_and-pow}
use ish_port_go.Cpu.Step.Bits.{bit_scan, scan_up, scan_down}

-- Digit `k` of a word that has no higher one.
top_digit : (v k : ℕ) → v < 2 ^ suc k → (bit v k ≡ 0 → v < 2 ^ k) × (bit v k ≡ 1 → 2 ^ k ≤ v)
top_digit v zero p = (λ e. omega arith, λ e. omega arith)
top_digit v (suc k) p =
    let half = top_digit (v / 2) k (omega (arith, pow-suc 2 (suc k))) in
    (λ e. omega (arith, half.0 e, pow-suc 2 k), λ e. omega (arith, half.1 e, pow-suc 2 k))

scaled_digit :
    (d p : ℕ) → d < 2 → 0 < p → (nonzero (d * p) ≡ true → d ≡ 1) × (nonzero (d * p) ≡ false → d ≡ 0)
scaled_digit zero p d-lt some = (λ e. ground arith, λ e. refl)
scaled_digit (suc zero) p d-lt some = (λ e. refl, λ e. ground arith)
scaled_digit (suc (suc d)) p d-lt some = absurd (omega arith)

pub has-digit :
    (v k : ℕ) → (has v (2 ^ k) ≡ true → bit v k ≡ 1) × (has v (2 ^ k) ≡ false → bit v k ≡ 0)
has-digit v k =
    rw (bit_and-pow v k)
      (scaled_digit (bit v k) (2 ^ k) (bit-lt v k) (omega (arith, one-le-pow k 2)))

low_digit : (v : ℕ) → bit_and v 1 ≡ v % 2
low_digit v = omega (arith, bit_and-pow v 0)

scan_up_lem :
    (fuel v index : ℕ)
    → 0 < v
    → v < 2 ^ fuel
    → (o k : ℕ) × (v ≡ (2 * o + 1) * 2 ^ k) × (scan_up fuel v index ≡ index + k)
unfolding scan_up
scan_up_lem zero v index some_bit fits = absurd (omega arith)
scan_up_lem (suc fuel) v index some_bit fits = elim (Bool-cases (bit_and v 1 == 0)) [
  | inl even ↦
      (let (o, k, whole, found) =
          scan_up_lem fuel (v / 2) (index + 1) (ground (arith, low_digit v))
            (ground (arith, pow-suc 2 fuel)) in
        let doubled : (2 * o + 1) * 2 ^ suc k ≡ 2 * ((2 * o + 1) * 2 ^ k) =
          omega (arith, ap (λ (t : ℕ). (2 * o + 1) * t) (pow-suc 2 k)) in
        (o, suc k, ground (arith, low_digit v, doubled), rw even (omega (arith, found))))
  | inr odd ↦ (v / 2, 0, ground (arith, low_digit v), rw odd (omega arith))
]

scan_down_lem :
    (v index : ℕ)
    → 0 < v
    → v < 2 ^ suc index
    → (2 ^ scan_down v index ≤ v) × (v < 2 ^ suc (scan_down v index))
unfolding scan_down
scan_down_lem v zero some_bit fits = (omega arith, omega arith)
scan_down_lem v (suc index) some_bit fits = elim (Bool-cases (has v (2 ^ suc index))) [
  | inl set ↦ rw set ((top_digit v (suc index) fits).1 ((has-digit v (suc index)).0 set), fits)
  | inr clear ↦ rw clear (
      scan_down_lem v index some_bit
        ((top_digit v (suc index) fits).0 ((has-digit v (suc index)).1 clear)))
]

-- For a word that is not 0, BSF finds the lowest bit that is set, so that the word is an odd multiple
-- of its power of 2, and BSR the highest, so that the word is below the next power.
pub bit_scan_lem :
    (v : ℕ)
    → 0 < v
    → v < 2 ^ 32
    → ((o : ℕ) × (v ≡ (2 * o + 1) * 2 ^ bit_scan true v))
      × (2 ^ bit_scan false v ≤ v)
      × (v < 2 ^ suc (bit_scan false v))
unfolding bit_scan
bit_scan_lem v some_bit fits =
    let (o, k, whole, found) = scan_up_lem 32 v 0 some_bit fits in
    let at : (k : ℕ) → scan_up 32 v 0 ≡ 0 + k → scan_up 32 v 0 ≡ k = λ k e. omega (arith, e) in
    let highest = scan_down_lem v 31 some_bit fits in
    ((o, rw (at k found) whole), highest.0, highest.1)
