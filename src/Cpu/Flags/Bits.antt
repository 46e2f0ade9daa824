-- ===== src/Cpu/Flags/Bits.antt =====
-- What `write_flags` leaves in each digit of `EFLAGS`, and parity.
use ish_port_go.Prelude.{
  ℕ, zero, suc, ◌*◌, ◌<◌, ◌^◌, ◌≡◌, refl, Bool, true, false, not, arith, leb, ◌==◌, if◌then◌else◌,
  min, max, has, to_ℕ, ◌≤◌, not32,
}
use ish_port_go.Prelude.Bits.{bit, bit-bit_or, bit-bit_and, bit_and-pow, bit-lt, bit_top}
use native.Mathlib.Nat.{one-le-pow}
use ish_port_go.Cpu.Flags.{
  raise_if, write_flags, arithmetic_flags, flag_cf, flag_zf, flag_sf, flag_of, flag_pf, flag_df,
}

digit_test : (b p : ℕ) → b < 2 → 1 ≤ p → not (b * p == 0) ≡ (b == 1)
digit_test zero p h q = ground arith
digit_test (suc zero) p h q = ground arith
digit_test (suc (suc b)) p h q = absurd (omega arith)

-- A test of one flag looks at its digit.
pub has-pow : (x k : ℕ) → has x (2 ^ k) ≡ (bit x k == 1)
has-pow x k =
    rw (bit_and-pow x k) (digit_test (bit x k) (2 ^ k) (bit-lt x k) (one-le-pow k 2 (omega arith)))

-- The highest digit of a word of `suc k` digits.
pub has_top : (x k : ℕ) → x < 2 ^ suc k → has x (2 ^ k) ≡ leb (2 ^ k) x
has_top x k h = rw (has-pow x k, bit_top x k h) (test (leb (2 ^ k) x))
  where
    test : (b : Bool) → (to_ℕ b == 1) ≡ b
    test true = refl
    test false = refl

abbrev raised : Bool → ℕ → ℕ → ℕ
raised test f x = if test then max x f else x

bit-raise_if :
    (test : Bool) (flag e i : ℕ) → bit (raise_if test flag e) i ≡ raised test (bit flag i) (bit e i)
unfolding raise_if
bit-raise_if true flag e i = bit-bit_or e flag i
bit-raise_if false flag e i = refl

module _ (e : ℕ) (cf zf sf of pf : Bool) where
  -- Every digit after `write_flags`.
  bit-write_flags :
      (i : ℕ)
      → bit (write_flags e cf zf sf of pf) i
        ≡ raised pf (bit flag_pf i) (
            raised of (bit flag_of i) (
              raised sf (bit flag_sf i) (
                raised zf
                  (bit flag_zf i)
                  (raised cf (bit flag_cf i) (min (bit e i) (bit (not32 arithmetic_flags) i))))))
  bit-write_flags i =
      unfold write_flags in
      rw (
        bit-raise_if pf flag_pf,
        bit-raise_if of flag_of,
        bit-raise_if sf flag_sf,
        bit-raise_if zf flag_zf,
        bit-raise_if cf flag_cf,
        bit-bit_and e (not32 arithmetic_flags) i,
      )

  pub has-cf : has (write_flags e cf zf sf of pf) flag_cf ≡ cf
  has-cf = ground (arith, has-pow (write_flags e cf zf sf of pf) 0, bit-write_flags 0)

  pub has-pf : has (write_flags e cf zf sf of pf) flag_pf ≡ pf
  has-pf = ground (arith, has-pow (write_flags e cf zf sf of pf) 2, bit-write_flags 2)

  pub has-zf : has (write_flags e cf zf sf of pf) flag_zf ≡ zf
  has-zf = ground (arith, has-pow (write_flags e cf zf sf of pf) 6, bit-write_flags 6)

  pub has-sf : has (write_flags e cf zf sf of pf) flag_sf ≡ sf
  has-sf = ground (arith, has-pow (write_flags e cf zf sf of pf) 7, bit-write_flags 7)

  pub has-of : has (write_flags e cf zf sf of pf) flag_of ≡ of
  has-of = ground (arith, has-pow (write_flags e cf zf sf of pf) 11, bit-write_flags 11)

  -- The direction flag is none of the five.
  pub has-df : has (write_flags e cf zf sf of pf) flag_df ≡ has e flag_df
  has-df = ground (
    arith,
    has-pow (write_flags e cf zf sf of pf) 10,
    has-pow e 10,
    bit-write_flags 10,
    bit-lt e 10,
  )
