-- ===== src/Prelude/Bits.antt =====
-- The binary digits of a number, and what `&`, `|` and `^` do to them.
use Prim.Native.Nat.{
  ℕ, zero, suc, ◌+◌, ◌-◌, ◌*◌, ◌/◌, ◌%◌, ◌^◌, ◌≤◌, ◌<◌, min, max, bit_and, bit_or, bit_xor, digits,
  bit_and-bitwise, bit_or-bitwise, bit_xor-bitwise, differ,
}
use mathlib.Core.Path.{◌≡◌, refl, ap, ◌∙◌, sym}
use native.Mathlib.Nat.{
  pow-suc, div-div-eq-div-mul, mod-eq-sub-div-mul, div-mul-le_self, one-le-pow,
}
use native.Mathlib.Omega.{arith}
use ish_port_go.Prelude.Tests.{leb, to_ℕ}
use ish_port_go.Prelude.Words.{and_not}

-- Digit `i` of `x`, from the lowest.
abbrev pub bit : ℕ → ℕ → ℕ
bit x zero = x % 2
bit x (suc i) = bit (x / 2) i

pub bit-lt : (x i : ℕ) → bit x i < 2
bit-lt x zero = omega arith
bit-lt x (suc i) = bit-lt (x / 2) i

bit-zero : (i : ℕ) → bit 0 i ≡ 0
bit-zero zero = refl
bit-zero (suc i) = bit-zero i

-- Numbers with the same digits are equal.
bit-ext : (n x y : ℕ) → x ≤ n → y ≤ n → ((i : ℕ) → bit x i ≡ bit y i) → x ≡ y
bit-ext zero x y p q h = omega arith
bit-ext (suc n) x y p q h =
    omega (arith, h 0, bit-ext n (x / 2) (y / 2) (omega arith) (omega arith) (λ i. h (suc i)))

-- An operation that acts on each digit alone, and on the rest of `y` once `x` has run out.
module _ (past : ℕ → ℕ) (op : ℕ → ℕ → ℕ) (op-lt : (x y : ℕ) → x < 2 → y < 2 → op x y < 2)
    (bit-past : (y i : ℕ) → bit (past y) i ≡ op 0 (bit y i)) where
  bit-past_zero : (y i : ℕ) → bit (past y) i ≡ op (bit 0 i) (bit y i)
  bit-past_zero y i = rw (bit-zero i) (bit-past y i)

  bit-digits :
      (left x y i : ℕ) → x ≤ left → bit (digits past op left x y) i ≡ op (bit x i) (bit y i)
  bit-digits zero zero y i h = bit-past_zero y i
  bit-digits (suc left) zero y i h = bit-past_zero y i
  bit-digits zero (suc x) y i h = absurd (omega arith)
  bit-digits (suc left) (suc x) y zero h =
      omega (arith, op-lt (suc x % 2) (y % 2) (omega arith) (omega arith))
  bit-digits (suc left) (suc x) y (suc i) h =
      let carried_on : digits past op (suc left) (suc x) y / 2
          ≡ digits past op left (suc x / 2) (y / 2) =
        omega (arith, op-lt (suc x % 2) (y % 2) (omega arith) (omega arith)) in
      rw carried_on (bit-digits left (suc x / 2) (y / 2) i (omega arith))

pub bit-bit_and : (a b i : ℕ) → bit (bit_and a b) i ≡ min (bit a i) (bit b i)
bit-bit_and a b i = simp bit_and-bitwise (
    bit-digits (λ y. 0) min (λ x y p q. omega arith) (λ y j. omega (arith, bit-zero j)) a a b i
      (omega arith))

pub bit-bit_or : (a b i : ℕ) → bit (bit_or a b) i ≡ max (bit a i) (bit b i)
bit-bit_or a b i =
    simp bit_or-bitwise
      (bit-digits (λ y. y) max (λ x y p q. omega arith) (λ y j. omega arith) a a b i (omega arith))

differ-lt : (x y : ℕ) → x < 2 → y < 2 → differ x y < 2
differ-lt zero y hx hy = hy
differ-lt (suc x) zero hx hy = hx
differ-lt (suc x) (suc y) hx hy = differ-lt x y (omega arith) (omega arith)

pub bit-bit_xor : (a b i : ℕ) → bit (bit_xor a b) i ≡ differ (bit a i) (bit b i)
bit-bit_xor a b i =
    simp bit_xor-bitwise (bit-digits (λ y. y) differ differ-lt (λ y j. refl) a a b i (omega arith))

-- Digit by digit, `&` of the halves is half of `&`.
bit_and-low : (a b : ℕ) → bit_and a b % 2 ≡ min (a % 2) (b % 2)
bit_and-low a b = bit-bit_and a b 0

bit_and-half : (a b : ℕ) → bit_and a b / 2 ≡ bit_and (a / 2) (b / 2)
bit_and-half a b =
    bit-ext (bit_and a b / 2 + bit_and (a / 2) (b / 2)) (bit_and a b / 2) (bit_and (a / 2) (b / 2))
      (omega arith) (omega arith)
      (λ i. bit-bit_and a b (suc i) ∙ sym (bit-bit_and (a / 2) (b / 2) i))

join_and : (a b : ℕ) → bit_and a b ≡ min (a % 2) (b % 2) + 2 * bit_and (a / 2) (b / 2)
join_and a b = omega (arith, bit_and-low a b, bit_and-half a b)

bit_and-zero : (a : ℕ) → bit_and a 0 ≡ 0
bit_and-zero a =
    bit-ext (bit_and a 0) (bit_and a 0) 0 (omega arith) (omega arith)
      (λ i. rw (bit-bit_and a 0 i, bit-zero i) (omega arith))

deep_div : (a k : ℕ) → a / 2 ^ suc k ≡ a / 2 / 2 ^ k
deep_div a k =
    rw (div-div-eq-div-mul a 2 (2 ^ k)) (ap (λ (t : ℕ). a / t) (omega (arith, pow-suc 2 k)))

-- A mask that starts at digit `k` leaves the digits below out.
pub bit_and-shift : (a m k : ℕ) → bit_and a (m * 2 ^ k) ≡ bit_and (a / 2 ^ k) m * 2 ^ k
bit_and-shift a m zero = ground (arith)
bit_and-shift a m (suc k) =
    let double : m * 2 ^ suc k ≡ 2 * (m * 2 ^ k) =
      omega (arith, ap (λ (t : ℕ). m * t) (pow-suc 2 k)) in
    let half : m * 2 ^ suc k / 2 ≡ m * 2 ^ k = omega (arith, double) in
    let low : min (a % 2) ((m * 2 ^ suc k) % 2) ≡ 0 = omega (arith, double) in
    let deep : a / 2 ^ suc k ≡ a / 2 / 2 ^ k = deep_div a k in
    rw (join_and a (m * 2 ^ suc k), half, low, bit_and-shift (a / 2) m k, deep)
      (omega (arith, ap (λ (t : ℕ). bit_and (a / 2 / 2 ^ k) m * t) (pow-suc 2 k)))

bit_and-one : (a : ℕ) → bit_and a 1 ≡ a % 2
bit_and-one a = omega (arith, join_and a 1, bit_and-zero (a / 2))

half_pow : (k : ℕ) → 2 ^ suc k / 2 ≡ 2 ^ k
half_pow k = omega (arith, pow-suc 2 k)

-- A mask of one digit.
pub bit_and-pow : (a k : ℕ) → bit_and a (2 ^ k) ≡ bit a k * 2 ^ k
bit_and-pow a zero = omega (arith, bit_and-one a)
bit_and-pow a (suc k) =
    rw (join_and a (2 ^ suc k), half_pow k, bit_and-pow (a / 2) k)
      (omega (arith, pow-suc 2 k, ap (λ (t : ℕ). bit (a / 2) k * t) (pow-suc 2 k)))

-- A mask of the `k` lowest digits.
pub bit_and-mask : (a k : ℕ) → bit_and a (2 ^ k - 1) ≡ a % 2 ^ k
bit_and-mask a zero = omega (arith, bit_and-zero a)
bit_and-mask a (suc k) =
    let half : (2 ^ suc k - 1) / 2 ≡ 2 ^ k - 1 = omega (arith, pow-suc 2 k, one-le-pow k 2) in
    let low : min (a % 2) ((2 ^ suc k - 1) % 2) ≡ a % 2 =
      omega (arith, pow-suc 2 k, one-le-pow k 2) in
    rw (join_and a (2 ^ suc k - 1), half, low, bit_and-mask (a / 2) k)
      (omega (
        arith,
        mod-eq-sub-div-mul a (2 ^ suc k),
        mod-eq-sub-div-mul (a / 2) (2 ^ k),
        deep_div a k,
        div-mul-le_self (a / 2) (2 ^ k),
        div-mul-le_self a (2 ^ suc k),
        ap (λ (t : ℕ). t * 2 ^ suc k) (deep_div a k),
        ap (λ (t : ℕ). a / 2 / 2 ^ k * t) (pow-suc 2 k),
      ))

-- The highest digit tells the upper half of the range.
pub bit_top : (x k : ℕ) → x < 2 ^ suc k → bit x k ≡ to_ℕ (leb (2 ^ k) x)
bit_top x zero h = ground arith
bit_top x (suc k) h =
    ground
      (arith, pow-suc 2 k, pow-suc 2 (suc k), bit_top (x / 2) k (omega (arith, pow-suc 2 (suc k))))

-- Clearing the twelve lowest digits of a 32-bit word, as page rounding does.
pub and_not-page : (a : ℕ) → a < 2 ^ 32 → and_not a 0xfff ≡ a - a % 4096
and_not-page a h = rw (bit_and-shift a 0xfffff 12, bit_and-mask (a / 4096) 20) (omega arith)

pub bit_and-page : (a : ℕ) → bit_and a 0xfff ≡ a % 4096
bit_and-page a = bit_and-mask a 12
