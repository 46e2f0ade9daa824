-- ===== src/Cpu/X87.antt =====
-- internal/i386/cpu.go: the x87 registers as a stack of eight, and the 80-bit format. The operations of
-- `float64` and of Go's `math` are the parameter `Floats`.
pub mod Register
pub mod Operand
pub mod Step
pub mod Safety
pub mod Stack
pub mod Machine
pub mod Refine
pub mod Forms
use ish_port_go.Prelude.{
  ℕ, ◌+◌, ◌-◌, ◌*◌, ◌/◌, ◌%◌, ◌^◌, Bool, true, false, ◌||◌, not, List, [], ◌∷◌, ◌++◌, ◌==◌, ltb,
  leb, if◌then◌else◌, get_or, set, take, drop, length, Result, ok, err, Error, x87_overflow,
  x87_underflow, x87_register, bit_and, bit_or, and_not, u16,
}
use ish_port_go.Prelude.Int.{ℤ, pos, negsuc, ◌+ℤ◌, ◌-ℤ◌, sub_ℕ, pos_part, neg_part}
use ish_port_go.Memory.{of_bytes, to_bytes}
use ish_port_go.Cpu.{Cpu}
use ish_port_go.Cpu.Exec.{Exec, give, raise, ◌>>=◌, ◌>>◌}

-- `float64`. An integer of 64 bits, signed or not, is its bit pattern.
pub record Floats (F : Type 0) : Type 0 where
  pub zero : F
  pub one : F
  pub two : F
  pub two63 : F
  pub nan : F
  pub inf : ℤ → F
  pub neg : F → F
  pub abs : F → F
  pub sqrt : F → F
  pub add : F → F → F
  pub sub : F → F → F
  pub mul : F → F → F
  pub div : F → F → F
  pub fmod : F → F → F
  pub floor : F → F
  pub ceil : F → F
  pub trunc : F → F
  pub round_to_even : F → F
  pub lt : F → F → Bool
  pub eq : F → F → Bool
  pub is_nan : F → Bool
  pub is_inf : F → Bool
  pub sign_bit : F → Bool
  pub ldexp : F → ℤ → F
  pub frexp : F → F × ℤ
  pub of_int32 : ℕ → F
  pub of_int64 : ℕ → F
  pub of_uint64 : ℕ → F
  pub to_int64 : F → ℕ
  pub to_uint64 : F → ℕ
  pub of_bits32 : ℕ → F
  pub of_bits64 : ℕ → F
  pub to_bits64 : F → ℕ

-- uint16(v)
abbrev pub uint16 : ℤ → ℕ
uint16 v = (pos_part v + 2 ^ 16 - neg_part v % 2 ^ 16) % 2 ^ 16

module _ {F : Type 0} where
  -- c.FPU[(c.FPUTop + i) & 7]
  abbrev pub slot : Cpu F → ℕ → ℕ
  slot c i = (c.fpu_top + i) % 8

  unfoldable pub fpu_push : F → Exec F (Unit {0})
  fpu_push value c = if leb 8 c.fpu_count then (err x87_overflow, c) else (
    ok tt,
    record c {
      fpu = set c.fpu ((c.fpu_top + 7) % 8) value;
      fpu_top = (c.fpu_top + 7) % 8;
      fpu_count = c.fpu_count + 1;
    },
  )

  -- c.FPU[(c.FPUTop + i) & 7] = value
  unfoldable pub fpu_put : ℕ → F → Exec F (Unit {0})
  fpu_put i value c = (ok tt, record c { fpu = set c.fpu (slot c i) value })

  unfoldable pub get_fpu_status : Exec F ℕ
  get_fpu_status c = (ok c.fpu_status, c)

  unfoldable pub put_fpu_status : ℕ → Exec F (Unit {0})
  put_fpu_status v c = (ok tt, record c { fpu_status = v })

  unfoldable pub get_fpu_control : Exec F ℕ
  get_fpu_control c = (ok c.fpu_control, c)

  unfoldable pub put_fpu_control : ℕ → Exec F (Unit {0})
  put_fpu_control v c = (ok tt, record c { fpu_control = v })

module _ {F : Type 0} (fl : Floats F) where
  unfoldable pub fpu_pop : Exec F F
  fpu_pop c = if c.fpu_count == 0 then (err x87_underflow, c) else (
    ok (get_or c.fpu c.fpu_top fl.zero),
    record c { fpu_top = (c.fpu_top + 1) % 8; fpu_count = c.fpu_count - 1 },
  )

  unfoldable pub fpu_st : ℕ → Exec F F
  fpu_st i c =
      if leb c.fpu_count i || leb 8 i
      then (err x87_register, c)
      else (ok (get_or c.fpu (slot c i) fl.zero), c)

  unfoldable pub compared : F → F → ℕ → ℕ
  compared lhs rhs status =
      let cleared = and_not status 0x4500 in
      if fl.is_nan lhs || fl.is_nan rhs
      then bit_or cleared 0x4500
      else if fl.lt lhs rhs
      then bit_or cleared 0x0100
      else if fl.eq lhs rhs
      then bit_or cleared 0x4000
      else cleared

  unfoldable pub fpu_compare : F → F → Exec F (Unit {0})
  fpu_compare lhs rhs c = (ok tt, record c { fpu_status = compared lhs rhs c.fpu_status })

  unfoldable pub from_extended80 : List ℕ → F
  from_extended80 bytes =
      let significand = of_bytes (take 8 bytes) in
      let sign_exp = of_bytes (take 2 (drop 8 bytes)) in
      let exponent = sign_exp % 2 ^ 15 in
      let negative = leb (2 ^ 15) sign_exp in
      let value = fl.ldexp (fl.div (fl.of_uint64 significand) fl.two63) (sub_ℕ exponent 16383) in
      if ltb (length bytes) 10
      then fl.nan
      else if exponent == 0
      then fl.zero
      else if exponent == 0x7fff
      then (if significand == 2 ^ 63
          then (if negative then fl.inf (negsuc 0) else fl.inf (pos 1))
          else fl.nan)
      else if negative
      then fl.neg value
      else value

  -- The significand and the exponent of `fpuExtended80`.
  unfoldable pub extended_parts : F → ℕ × ℕ
  extended_parts value =
      if fl.eq value fl.zero
      then (0, 0)
      else if fl.is_inf value || fl.is_nan value
      then (if fl.is_nan value then 2 ^ 63 + 2 ^ 62 else 2 ^ 63, 0x7fff)
      else let (mantissa, exponent) = fl.frexp (fl.abs value) in
        (
          fl.to_uint64 (fl.mul (fl.mul mantissa fl.two) fl.two63),
          uint16 ((exponent -ℤ pos 1) +ℤ pos 16383),
        )

  unfoldable pub extended80 : F → List ℕ
  extended80 value =
      let (significand, exponent) = extended_parts value in
      to_bytes 8 significand
      ++ to_bytes 2 (bit_or exponent (if fl.sign_bit value then 2 ^ 15 else 0))

  unfoldable pub fpu_round : F → ℕ → ℕ
  fpu_round value control =
      let mode = (control / 2 ^ 10) % 4 in
      fl.to_int64 (
        if mode == 1
        then fl.floor value
        else if mode == 2
        then fl.ceil value
        else if mode == 3
        then fl.trunc value
        else fl.round_to_even value)
