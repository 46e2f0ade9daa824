-- ===== src/Cpu/Step/Unary.antt =====
-- internal/i386/cpu.go, case 0xF6 and 0xF7 of `Step`: TEST, NOT, NEG, MUL, IMUL, DIV, IDIV.
pub mod Divide
use ish_port_go.Prelude.{
  ℕ, ◌+◌, ◌-◌, ◌*◌, ◌/◌, ◌%◌, ◌^◌, Bool, true, false, ◌&&◌, ◌||◌, not, ◌==◌, ltb, leb,
  if◌then◌else◌, bit_and, sub32, not32, u8, u16, unsupported, division_by_zero, division_overflow,
}
use ish_port_go.Cpu.Flags.{set_sub_flags, set_logic_flags, set_sub_flags_n, set_logic_flags_n}
use ish_port_go.Cpu.Operand.{ModRm, fetch8, fetch16, fetch32, decode_mod_rm}
use ish_port_go.Cpu.Exec.{
  Exec, give, raise, ◌>>=◌, ◌>>◌, nothing, get_reg, put_reg, get_reg8, put_reg8, flags_by, get_rm,
  get_rm8, get_rm16, put_rm, put_rm8,
}
use ish_port_go.Cpu.Step.Move.{eax, edx, low16}

-- A word of `bits` bits, read with its sign: whether it is negative, and its size.
abbrev pub is_negative : ℕ → ℕ → Bool
is_negative bits v = leb (2 ^ (bits - 1)) v

abbrev pub magnitude : ℕ → ℕ → ℕ
magnitude bits v = if is_negative bits v then 2 ^ bits - v else v

-- The word of `bits` bits for a size and a sign.
abbrev pub signed : ℕ → Bool → ℕ → ℕ
signed bits negative v = if negative then (2 ^ bits - v % 2 ^ bits) % 2 ^ bits else v % 2 ^ bits

-- A word of `bits` bits with its sign extended to twice the width.
abbrev pub widened : ℕ → ℕ → ℕ
widened bits v = if is_negative bits v then v + 2 ^ (2 * bits) - 2 ^ bits else v

abbrev pub product : ℕ → ℕ → ℕ → ℕ
product bits a b = (widened bits a * widened bits b) % 2 ^ (2 * bits)

module _ {F : Type 0} where
  -- TEST r/m16, imm16 is the one 16-bit form.
  unfoldable pub test_rm16_imm16 : ModRm → Exec F (Unit {0})
  test_rm16_imm16 m = if not (m.reg == 0) then raise unsupported else (do
    value ← get_rm16 m
    imm ← fetch16
    flags_by (λ e. set_logic_flags_n e (bit_and value imm) 16))

  unfoldable pub mul_al : Bool → ℕ → Exec F (Unit {0})
  mul_al is_signed value = do
    a ← get_reg8 0
    old ← get_reg eax
    put_reg eax (low16 old (if is_signed then product 8 a value else a * value))

  unfoldable pub mul_eax : Bool → ℕ → Exec F (Unit {0})
  mul_eax is_signed value = do
    a ← get_reg eax
    let wide = if is_signed then product 32 a value else a * value
    put_reg eax (wide % 2 ^ 32)
    put_reg edx (wide / 2 ^ 32)

  -- The quotient rounds to zero and the remainder has the sign of the dividend; a quotient beyond the
  -- narrow width is an error.
  unfoldable pub divide : ℕ → Bool → ℕ → ℕ → (ℕ → ℕ → Exec F (Unit {0})) → Exec F (Unit {0})
  divide bits is_signed dividend divisor put =
      if is_signed
      then (do
        let up = magnitude (2 * bits) dividend
        let down = magnitude bits divisor
        let left = is_negative (2 * bits) dividend
        let minus = if left then not (is_negative bits divisor) else is_negative bits divisor
        if ltb (if minus then 2 ^ (bits - 1) else 2 ^ (bits - 1) - 1) (up / down)
            then raise division_overflow
            else put (signed bits minus (up / down)) (signed bits left (up % down)))
      else if ltb (2 ^ bits - 1) (dividend / divisor)
      then raise division_overflow
      else put (dividend / divisor) (dividend % divisor)

  unfoldable pub div_al : Bool → ℕ → Exec F (Unit {0})
  div_al is_signed value = do
    a ← get_reg eax
    divide 8 is_signed (u16 a) value (λ q r. do put_reg8 0 q; put_reg8 4 r)

  unfoldable pub div_eax : Bool → ℕ → Exec F (Unit {0})
  div_eax is_signed value = do
    hi ← get_reg edx
    lo ← get_reg eax
    divide 32 is_signed (hi * 2 ^ 32 + lo) value (λ q r. do put_reg eax q; put_reg edx r)

  -- 0xF6: the operation on a byte
  unfoldable pub unary8 : ModRm → ℕ → Exec F (Unit {0})
  unary8 m value =
      if m.reg == 0
      then (do imm ← fetch8; flags_by (λ e. set_logic_flags_n e (bit_and value imm) 8))
      else if m.reg == 2
      then put_rm8 m (u8 (not32 value))
      else if m.reg == 3
      then (do
        flags_by (λ e. set_sub_flags_n e 0 value (sub32 0 value) 8)
        put_rm8 m (u8 (sub32 0 value)))
      else if m.reg == 4
      then mul_al false value
      else if m.reg == 5
      then mul_al true value
      else if m.reg == 6 || m.reg == 7
      then (if value == 0 then raise division_by_zero else div_al (m.reg == 7) value)
      else raise unsupported

  -- 0xF7: the operation on a word
  unfoldable pub unary : ModRm → ℕ → Exec F (Unit {0})
  unary m value =
      if m.reg == 0
      then (do imm ← fetch32; flags_by (λ e. set_logic_flags e (bit_and value imm)))
      else if m.reg == 2
      then put_rm m (not32 value)
      else if m.reg == 3
      then (do flags_by (λ e. set_sub_flags e 0 value (sub32 0 value)); put_rm m (sub32 0 value))
      else if m.reg == 4
      then mul_eax false value
      else if m.reg == 5
      then mul_eax true value
      else if m.reg == 6 || m.reg == 7
      then (if value == 0 then raise division_by_zero else div_eax (m.reg == 7) value)
      else raise unsupported

  unfoldable pub group_f6 : Exec F (Unit {0})
  group_f6 = do m ← decode_mod_rm; value ← get_rm8 m; unary8 m value

  unfoldable pub group_f7 : Bool → Exec F (Unit {0})
  group_f7 operand16 = do
    m ← decode_mod_rm
    if operand16 then test_rm16_imm16 m else (do value ← get_rm m; unary m value)
