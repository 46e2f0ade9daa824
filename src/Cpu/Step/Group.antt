-- ===== src/Cpu/Step/Group.antt =====
-- internal/i386/cpu.go, cases of `Step`: the groups whose operation stands in the ModRM byte.
use ish_port_go.Prelude.{
  ℕ, ◌+◌, ◌*◌, ◌^◌, ◌%◌, Bool, false, ◌&&◌, not, ◌==◌, ltb, if◌then◌else◌, bit_and, bit_or, bit_xor,
  and_not, add32, sub32, u16, sign_extend8, unsupported,
}
use ish_port_go.Cpu.Flags.{
  set_add_flags, set_sub_flags, set_logic_flags, set_add_flags_n, set_sub_flags_n,
  set_logic_flags_n, set_adc_flags_n, set_sbb_flags_n, flag_cf,
}
use ish_port_go.Cpu.Operand.{ModRm, fetch8, fetch16, fetch32, decode_mod_rm}
use ish_port_go.Cpu.Exec.{
  Exec, give, raise, ◌>>=◌, ◌>>◌, put_reg, get_eip, jump, get_eflags, flags_by, get_rm, get_rm8,
  get_rm16, put_rm, put_rm8, put_rm16, push_word, add8, sub8,
}
use ish_port_go.Cpu.Step.AluCarry.{carry_in}

-- uint32(uint16(int16(int8(v))))
abbrev pub sign_extend8_16 : ℕ → ℕ
sign_extend8_16 v = if ltb v 0x80 then v else v + 0xff00

abbrev pub width_of : Bool → ℕ
width_of operand16 = if operand16 then 16 else 32

-- (c.EFLAGS &^ FlagCF) | oldCF, after the flags of the operation
abbrev pub keep_cf : ℕ → ℕ → ℕ
keep_cf old e = bit_or (and_not e flag_cf) (bit_and old flag_cf)

module _ {F : Type 0} where
  -- The flags by the setter of the width.
  unfoldable pub add_flags_of : Bool → ℕ → ℕ → Exec F (Unit {0})
  add_flags_of operand16 lhs rhs = flags_by (λ e.
      if operand16
      then set_add_flags_n e lhs rhs (add32 lhs rhs) 16
      else set_add_flags e lhs rhs (add32 lhs rhs))

  unfoldable pub sub_flags_of : Bool → ℕ → ℕ → Exec F (Unit {0})
  sub_flags_of operand16 lhs rhs = flags_by (λ e.
      if operand16
      then set_sub_flags_n e lhs rhs (sub32 lhs rhs) 16
      else set_sub_flags e lhs rhs (sub32 lhs rhs))

  unfoldable pub logic_flags_of : Bool → ℕ → Exec F (Unit {0})
  logic_flags_of operand16 result =
      flags_by (λ e. if operand16 then set_logic_flags_n e result 16 else set_logic_flags e result)

  unfoldable pub put_result : Bool → ModRm → ℕ → Exec F (Unit {0})
  put_result operand16 m result = if operand16 then put_rm16 m (u16 result) else put_rm m result

  -- `switch m.reg` of 0x81 and 0x83; a comparison writes nothing.
  unfoldable pub alu : Bool → ModRm → ℕ → ℕ → Exec F (Unit {0})
  alu operand16 m lhs rhs =
      if m.reg == 0
      then (do add_flags_of operand16 lhs rhs; put_result operand16 m (add32 lhs rhs))
      else if m.reg == 1
      then (do logic_flags_of operand16 (bit_or lhs rhs); put_result operand16 m (bit_or lhs rhs))
      else if m.reg == 2
      then (do
        carry ← carry_in
        let result = add32 (add32 lhs rhs) carry
        flags_by (λ e. set_adc_flags_n e lhs rhs carry result (width_of operand16))
        put_result operand16 m result)
      else if m.reg == 3
      then (do
        borrow ← carry_in
        let result = sub32 (sub32 lhs rhs) borrow
        flags_by (λ e. set_sbb_flags_n e lhs rhs borrow result (width_of operand16))
        put_result operand16 m result)
      else if m.reg == 4
      then (do logic_flags_of operand16 (bit_and lhs rhs); put_result operand16 m (bit_and lhs rhs))
      else if m.reg == 5
      then (do sub_flags_of operand16 lhs rhs; put_result operand16 m (sub32 lhs rhs))
      else if m.reg == 6
      then (do logic_flags_of operand16 (bit_xor lhs rhs); put_result operand16 m (bit_xor lhs rhs))
      else if m.reg == 7
      then sub_flags_of operand16 lhs rhs
      else raise unsupported

  -- The immediate of 0x81, or of 0x83 with its sign extended to the width.
  unfoldable pub group_imm : Bool → Bool → Exec F ℕ
  group_imm operand16 wide =
      if wide
      then (if operand16 then fetch16 else fetch32)
      else (do v ← fetch8; give (if operand16 then sign_extend8_16 v else sign_extend8 v))

  -- 0x81 (`wide`), 0x83
  unfoldable pub alu_rm_imm : Bool → Bool → Exec F (Unit {0})
  alu_rm_imm operand16 wide = do
    m ← decode_mod_rm
    rhs ← group_imm operand16 wide
    lhs ← (if operand16 then get_rm16 m else get_rm m)
    alu operand16 m lhs rhs

  -- 0xFE
  unfoldable pub inc_dec_rm8 : Exec F (Unit {0})
  inc_dec_rm8 = do
    m ← decode_mod_rm
    if not (m.reg == 0) && not (m.reg == 1) then raise unsupported else (do
      value ← get_rm8 m
      old ← get_eflags
      let result = if m.reg == 0 then add8 value 1 else sub8 value 1
      flags_by (λ e. keep_cf old (
          if m.reg == 0
          then set_add_flags_n e value 1 result 8
          else set_sub_flags_n e value 1 result 8))
      put_rm8 m result)

  -- 0xFF
  unfoldable pub group_ff : Exec F (Unit {0})
  group_ff = do
    m ← decode_mod_rm
    value ← get_rm m
    old ← get_eflags
    if m.reg == 0
        then (do
          flags_by (λ e. keep_cf old (set_add_flags e value 1 (add32 value 1)))
          put_rm m (add32 value 1))
        else if m.reg == 1
        then (do
          flags_by (λ e. keep_cf old (set_sub_flags e value 1 (sub32 value 1)))
          put_rm m (sub32 value 1))
        else if m.reg == 2
        then (do at ← get_eip; push_word at; jump value)
        else if m.reg == 4
        then jump value
        else if m.reg == 6
        then push_word value
        else raise unsupported

  -- 0x69 (`wide`), 0x6B: the low 32 bits of the product, which the signs do not change
  unfoldable pub imul_imm : Bool → Exec F (Unit {0})
  imul_imm wide = do
    m ← decode_mod_rm
    value ← get_rm m
    imm ← group_imm false wide
    put_reg m.reg ((value * imm) % 2 ^ 32)
    flags_by (λ e. set_logic_flags e ((value * imm) % 2 ^ 32))
