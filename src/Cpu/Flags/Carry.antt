-- ===== src/Cpu/Flags/Carry.antt =====
-- Carry and overflow as facts about the sums and differences of the operands; the 8-, 16- and 32-bit
-- setters against one another; multi-word arithmetic; parity.
use Prim.Native.Nat.{differ}
use ish_port_go.Prelude.{
  ℕ, zero, suc, ◌+◌, ◌-◌, ◌*◌, ◌%◌, ◌<◌, ◌≤◌, ◌^◌, ◌≡◌, refl, Bool, true, false, ◌&&◌, not, arith,
  ltb, leb, ◌==◌, if◌then◌else◌, min, bit_and, bit_xor, has, to_ℕ, add32, not32, ◌∙◌, ap, lt-or-ge,
  inl, inr,
}
use native.Mathlib.Nat.{one-le-pow}
use ish_port_go.Prelude.Bits.{bit, bit-bit_and, bit-bit_xor, bit_top, bit_and-mask}
use ish_port_go.Prelude.Int.{int32, ◌+ℤ◌, fits_int32}
use ish_port_go.Cpu.Flags.{
  set_add_flags, set_add_flags_n, set_sub_flags, set_sub_flags_n, set_logic_flags,
  set_logic_flags_n, set_adc_flags_n, set_sbb_flags_n, set_shift_flags, set_shift_flags_n,
  even_parity, even_byte, flag_cf, flag_zf, flag_sf, flag_of,
}
use ish_port_go.Cpu.Flags.Bits.{has-pow, has_top, has-cf, has-zf, has-sf, has-of}
use ish_port_go.Cpu.Flags.Compare.{negative, xor}

-- The overflow term of an addition, by the signs of the operands and of the result.
of_add_signs :
    (a b r : ℕ)
    → a < 2 ^ 32
    → b < 2 ^ 32
    → r < 2 ^ 32
    → has (bit_and (not32 (bit_xor a b)) (bit_xor a r)) 0x8000_0000
      ≡ (not (xor (negative a) (negative b)) && xor (negative a) (negative r))
of_add_signs a b r ha hb hr =
    rw
      (
        has-pow (bit_and (not32 (bit_xor a b)) (bit_xor a r)) 31,
        bit-bit_and (not32 (bit_xor a b)) (bit_xor a r) 31,
        bit-bit_xor (bit_xor a b) 0xffff_ffff 31,
        bit-bit_xor a b 31,
        bit-bit_xor a r 31,
        bit_top a 31 ha,
        bit_top b 31 hb,
        bit_top r 31 hr,
      )
      (signs (negative a) (negative b) (negative r))
  where
    signs :
        (p q s : Bool)
        → (min (differ (differ (to_ℕ p) (to_ℕ q)) 1) (differ (to_ℕ p) (to_ℕ s)) == 1)
          ≡ (not (xor p q) && xor p s)
    signs p q s = ground arith

overflow_sum :
    (a b : ℕ)
    → a < 2 ^ 32
    → b < 2 ^ 32
    → (not (xor (negative a) (negative b)) && xor (negative a) (negative (add32 a b)))
      ≡ not (fits_int32 (int32 a +ℤ int32 b))
overflow_sum a b ha hb = ground arith

carry_sum : (a b : ℕ) → a < 2 ^ 32 → b < 2 ^ 32 → ltb (add32 a b) a ≡ leb (2 ^ 32) (a + b)
carry_sum a b ha hb = ground arith

-- After an addition of two 32-bit words CF is set exactly if the sum reaches 2 ^ 32, OF exactly if
-- the sum of the words as `int32`s is no `int32`, ZF exactly if the result is 0, and SF exactly if
-- its highest bit is set.
pub add_flags :
    (e a b : ℕ)
    → a < 2 ^ 32
    → b < 2 ^ 32
    → let f = set_add_flags e a b (add32 a b) in
      (has f flag_cf ≡ leb (2 ^ 32) (a + b))
      × (has f flag_of ≡ not (fits_int32 (int32 a +ℤ int32 b)))
      × (has f flag_zf ≡ (add32 a b == 0))
      × (has f flag_sf ≡ leb (2 ^ 31) (add32 a b))
unfolding set_add_flags
add_flags e a b ha hb =
    let r = add32 a b in
    let hr : r < 2 ^ 32 = omega arith in
    let x = has (bit_and (not32 (bit_xor a b)) (bit_xor a r)) 0x8000_0000 in
    let cf = ltb r a in
    let zf = r == 0 in
    let sf = has r 0x8000_0000 in
    let pf = even_parity r in
    (
      has-cf e cf zf sf x pf ∙ carry_sum a b ha hb,
      has-of e cf zf sf x pf ∙ of_add_signs a b r ha hb hr ∙ overflow_sum a b ha hb,
      has-zf e cf zf sf x pf,
      has-sf e cf zf sf x pf ∙ has_top r 31 hr,
    )

word_mask : (a : ℕ) → a < 2 ^ 32 → bit_and a 0xffff_ffff ≡ a
word_mask a h = omega (arith, bit_and-mask a 32)

carry_by_width : (a b : ℕ) → a < 2 ^ 32 → b < 2 ^ 32 → ltb 0xffff_ffff (a + b) ≡ ltb (add32 a b) a
carry_by_width a b ha hb = ground arith

add_setters_agree :
    (e a b : ℕ)
    → a < 2 ^ 32
    → b < 2 ^ 32
    → set_add_flags_n e a b (add32 a b) 32 ≡ set_add_flags e a b (add32 a b)
unfolding set_add_flags_n set_add_flags
add_setters_agree e a b ha hb =
    rw (word_mask a ha, word_mask b hb, bit_and-mask (a + b) 32, carry_by_width a b ha hb)

sub_setters_agree :
    (e a b r : ℕ)
    → a < 2 ^ 32
    → b < 2 ^ 32
    → r < 2 ^ 32
    → set_sub_flags_n e a b r 32 ≡ set_sub_flags e a b r
unfolding set_sub_flags_n set_sub_flags
sub_setters_agree e a b r ha hb hr = rw (word_mask a ha, word_mask b hb, word_mask r hr)

-- On 32-bit words the setters for a width do at 32 what the plain setters do.
pub setters_agree :
    (e a b result : ℕ) (cf of : Bool)
    → a < 2 ^ 32
    → b < 2 ^ 32
    → result < 2 ^ 32
    → (set_sub_flags_n e a b result 32 ≡ set_sub_flags e a b result)
      × (set_add_flags_n e a b (add32 a b) 32 ≡ set_add_flags e a b (add32 a b))
      × (set_logic_flags_n e result 32 ≡ set_logic_flags e result)
      × (set_shift_flags_n e result cf of 32 ≡ set_shift_flags e result cf of)
unfolding set_logic_flags_n set_logic_flags set_shift_flags_n set_shift_flags
setters_agree e a b result cf of ha hb hr = (
  sub_setters_agree e a b result ha hb hr,
  add_setters_agree e a b ha hb,
  rw (word_mask result hr),
  rw (word_mask result hr),
)

above_mask : (m n : ℕ) → 1 ≤ m → ltb (m - 1) n ≡ leb m n
above_mask m n h = ground arith

-- The carry of an addition with carry at any width, from the operands cut to the width.
pub adc_carry :
    (e a b carry result bits : ℕ)
    → has (set_adc_flags_n e a b carry result bits) flag_cf
      ≡ leb (2 ^ bits) (a % 2 ^ bits + b % 2 ^ bits + carry)
unfolding set_adc_flags_n
adc_carry e a b carry result bits =
    has-cf e _ _ _ _ _
    ∙ rw (bit_and-mask a bits, bit_and-mask b bits)
        (above_mask (2 ^ bits) (a % 2 ^ bits + b % 2 ^ bits + carry)
          (one-le-pow bits 2 (omega arith)))

two_words :
    (a_lo a_hi b_lo b_hi carry : ℕ)
    → a_lo < 2 ^ 32
    → a_hi < 2 ^ 32
    → b_lo < 2 ^ 32
    → b_hi < 2 ^ 32
    → carry ≡ to_ℕ (leb (2 ^ 32) (a_lo + b_lo))
    → (add32 (add32 a_hi b_hi) carry * 2 ^ 32 + add32 a_lo b_lo
        ≡ (a_hi * 2 ^ 32 + a_lo + (b_hi * 2 ^ 32 + b_lo)) % 2 ^ 64)
      × (leb (2 ^ 32) (a_hi % 2 ^ 32 + b_hi % 2 ^ 32 + carry)
          ≡ leb (2 ^ 64) (a_hi * 2 ^ 32 + a_lo + (b_hi * 2 ^ 32 + b_lo)))
two_words a_lo a_hi b_lo b_hi carry ha ha' hb hb' c = ground arith

-- ADD of the low words, then ADC of the high words with the carry that ADD left: together the sum of
-- two 64-bit numbers, with its carry.
pub add_adc_lem :
    (e a_lo a_hi b_lo b_hi : ℕ)
    → a_lo < 2 ^ 32
    → a_hi < 2 ^ 32
    → b_lo < 2 ^ 32
    → b_hi < 2 ^ 32
    → let f = set_add_flags e a_lo b_lo (add32 a_lo b_lo) in
      let carry = to_ℕ (has f flag_cf) in
      let hi = add32 (add32 a_hi b_hi) carry in
      let a = a_hi * 2 ^ 32 + a_lo in
      let b = b_hi * 2 ^ 32 + b_lo in
      (hi * 2 ^ 32 + add32 a_lo b_lo ≡ (a + b) % 2 ^ 64)
      × (has (set_adc_flags_n f a_hi b_hi carry hi 32) flag_cf ≡ leb (2 ^ 64) (a + b))
add_adc_lem e a_lo a_hi b_lo b_hi ha ha' hb hb' =
    let f = set_add_flags e a_lo b_lo (add32 a_lo b_lo) in
    let c = add_flags e a_lo b_lo ha hb in
    let carry = to_ℕ (has f flag_cf) in
    let low : carry ≡ to_ℕ (leb (2 ^ 32) (a_lo + b_lo)) = ap to_ℕ c.0 in
    let (sum, over) = two_words a_lo a_hi b_lo b_hi carry ha ha' hb hb' low in
    (sum, adc_carry f a_hi b_hi carry _ 32 ∙ over)

not_below : (n : ℕ) → ltb n 0 ≡ false
not_below n = ground arith

-- The carry of a subtraction with borrow tells a borrow out of the width, unless the sum of the
-- subtrahend and the borrow wraps round 32 bits: then it is clear, though there is a borrow.
pub sbb_carry :
    (e a b result bits : ℕ)
    → b < 2 ^ 32
    → (b + 1 < 2 ^ 32
        → has (set_sbb_flags_n e a b 1 result bits) flag_cf ≡ ltb (a % 2 ^ bits) (b + 1))
      × (has (set_sbb_flags_n e a b 0 result bits) flag_cf ≡ ltb (a % 2 ^ bits) b)
      × (b + 1 ≡ 2 ^ 32 → has (set_sbb_flags_n e a b 1 result bits) flag_cf ≡ false)
unfolding set_sbb_flags_n
sbb_carry e a b result bits hb = (
  λ h. has-cf e _ _ _ _ _ ∙ rw (bit_and-mask a bits) (ap (ltb (a % 2 ^ bits)) (omega arith)),
  has-cf e _ _ _ _ _ ∙ rw (bit_and-mask a bits) (ap (ltb (a % 2 ^ bits)) (omega arith)),
  λ h.
      has-cf e _ _ _ _ _
      ∙ let wrap : add32 b 1 ≡ 0 = omega arith in rw wrap (not_below (bit_and a (2 ^ bits - 1))),
)

-- The set bits of the low byte.
abbrev pub ones8 : ℕ → ℕ
ones8 v = bit v 0 + bit v 1 + bit v 2 + bit v 3 + bit v 4 + bit v 5 + bit v 6 + bit v 7

-- A test of `count` numbers from `first` on.
holds_from : (ℕ → Bool) → ℕ → ℕ → Bool
holds_from test zero first = true
holds_from test (suc count) first =
    let later = holds_from test count (first + 1) in if test first then later else false

holds_from-test :
    (test : ℕ → Bool) (count first v : ℕ)
    → holds_from test count first ≡ true
    → first ≤ v
    → v < first + count
    → test v ≡ true
unfolding holds_from
holds_from-test test zero first v passed le lt = absurd (omega arith)
holds_from-test test (suc count) first v passed le lt = elim (lt-or-ge first v) [
  | inl above ↦ holds_from-test test count (first + 1) v (ground arith) (omega arith) (omega arith)
  | inr here ↦ let same : v ≡ first = omega arith in rw same (ground arith)
]

abbrev agrees : ℕ → Bool
agrees v = if even_byte v then ones8 v % 2 == 0 else ones8 v % 2 == 1

parity_table : holds_from agrees 256 0 ≡ true
unfolding holds_from even_byte
parity_table = refl

parity_byte : (v : ℕ) → v < 256 → even_byte v ≡ (ones8 v % 2 == 0)
parity_byte v h =
    ground (arith, holds_from-test agrees 256 0 v parity_table (omega arith) (omega arith))

low_byte : (v : ℕ) → ones8 (v % 256) ≡ ones8 v
low_byte v =
    let b0 : bit (v % 256) 0 ≡ bit v 0 = omega arith in
    let b1 : bit (v % 256) 1 ≡ bit v 1 = omega arith in
    let b2 : bit (v % 256) 2 ≡ bit v 2 = omega arith in
    let b3 : bit (v % 256) 3 ≡ bit v 3 = omega arith in
    let b4 : bit (v % 256) 4 ≡ bit v 4 = omega arith in
    let b5 : bit (v % 256) 5 ≡ bit v 5 = omega arith in
    let b6 : bit (v % 256) 6 ≡ bit v 6 = omega arith in
    let b7 : bit (v % 256) 7 ≡ bit v 7 = omega arith in rw (b0, b1, b2, b3, b4, b5, b6, b7)

-- `evenParity` is about the low byte: it holds exactly if the number of set bits there is even.
pub even_parity_lem : (v : ℕ) → even_parity v ≡ (ones8 v % 2 == 0)
unfolding even_parity
even_parity_lem v = parity_byte (v % 256) (omega arith) ∙ ap (λ t. t % 2 == 0) (low_byte v)
