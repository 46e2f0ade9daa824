-- ===== src/Cpu/Step/AluCarry.antt =====
-- internal/i386/cpu.go, cases of `Step`: ADC and SBB.
use ish_port_go.Prelude.{ℕ, ◌+◌, Bool, if◌then◌else◌, bit_and, add32, sub32, u8, u16, has}
use ish_port_go.Cpu.Flags.{set_adc_flags_n, set_sbb_flags_n, flag_cf}
use ish_port_go.Cpu.Operand.{fetch8, fetch32, decode_mod_rm}
use ish_port_go.Cpu.Exec.{
  Exec, give, ◌>>=◌, ◌>>◌, get_reg, put_reg, get_reg8, put_reg8, get_eflags, flags_by, get_rm,
  get_rm8, get_rm16, put_rm, put_rm8, put_rm16,
}
use ish_port_go.Cpu.Step.Move.{eax, low16}

module _ {F : Type 0} where
  unfoldable pub carry_in : Exec F ℕ
  carry_in = do e ← get_eflags; give (if has e flag_cf then 1 else 0)

  -- 0x14, 0x15
  unfoldable pub adc_al_imm8 : Exec F (Unit {0})
  adc_al_imm8 = do
    carry ← carry_in
    v ← fetch8
    a ← get_reg8 0
    put_reg8 0 (u8 (a + v + carry))
    flags_by (λ e. set_adc_flags_n e a v carry (a + v + carry) 8)

  unfoldable pub adc_eax_imm32 : Exec F (Unit {0})
  adc_eax_imm32 = do
    carry ← carry_in
    v ← fetch32
    a ← get_reg eax
    put_reg eax (add32 (add32 a v) carry)
    flags_by (λ e. set_adc_flags_n e a v carry (add32 (add32 a v) carry) 32)

  -- 0x10, 0x12, 0x11, 0x13
  unfoldable pub adc_rm8_r8 : Exec F (Unit {0})
  adc_rm8_r8 = do
    m ← decode_mod_rm
    carry ← carry_in
    lhs ← get_rm8 m
    rhs ← get_reg8 m.reg
    put_rm8 m (u8 (lhs + rhs + carry))
    flags_by (λ e. set_adc_flags_n e lhs rhs carry (lhs + rhs + carry) 8)

  unfoldable pub adc_r8_rm8 : Exec F (Unit {0})
  adc_r8_rm8 = do
    m ← decode_mod_rm
    carry ← carry_in
    lhs ← get_reg8 m.reg
    rhs ← get_rm8 m
    put_reg8 m.reg (u8 (lhs + rhs + carry))
    flags_by (λ e. set_adc_flags_n e lhs rhs carry (lhs + rhs + carry) 8)

  unfoldable pub adc_rm_r : Exec F (Unit {0})
  adc_rm_r = do
    m ← decode_mod_rm
    carry ← carry_in
    lhs ← get_rm m
    rhs ← get_reg m.reg
    put_rm m (add32 (add32 lhs rhs) carry)
    flags_by (λ e. set_adc_flags_n e lhs rhs carry (add32 (add32 lhs rhs) carry) 32)

  unfoldable pub adc_r_rm : Exec F (Unit {0})
  adc_r_rm = do
    m ← decode_mod_rm
    carry ← carry_in
    lhs ← get_reg m.reg
    rhs ← get_rm m
    put_reg m.reg (add32 (add32 lhs rhs) carry)
    flags_by (λ e. set_adc_flags_n e lhs rhs carry (add32 (add32 lhs rhs) carry) 32)

  -- 0x1A, 0x18
  unfoldable pub sbb_r8_rm8 : Exec F (Unit {0})
  sbb_r8_rm8 = do
    m ← decode_mod_rm
    lhs ← get_reg8 m.reg
    rhs ← get_rm8 m
    borrow ← carry_in
    let result = sub32 (sub32 lhs rhs) borrow
    put_reg8 m.reg (u8 result)
    flags_by (λ e. set_sbb_flags_n e lhs rhs borrow result 8)

  unfoldable pub sbb_rm8_r8 : Exec F (Unit {0})
  sbb_rm8_r8 = do
    m ← decode_mod_rm
    borrow ← carry_in
    lhs ← get_rm8 m
    rhs ← get_reg8 m.reg
    let result = sub32 (sub32 lhs rhs) borrow
    put_rm8 m (u8 result)
    flags_by (λ e. set_sbb_flags_n e lhs rhs borrow result 8)

  -- 0x1B, 0x19
  unfoldable pub sbb_r_rm : Bool → Exec F (Unit {0})
  sbb_r_rm operand16 = do
    m ← decode_mod_rm
    borrow ← carry_in
    old ← get_reg m.reg
    if operand16
        then (do
          rhs ← get_rm16 m
          let result = sub32 (sub32 (u16 old) rhs) borrow
          put_reg m.reg (low16 old (bit_and result 0xffff))
          flags_by (λ e. set_sbb_flags_n e (u16 old) rhs borrow result 16))
        else (do
          rhs ← get_rm m
          let result = sub32 (sub32 old rhs) borrow
          put_reg m.reg result
          flags_by (λ e. set_sbb_flags_n e old rhs borrow result 32))

  unfoldable pub sbb_rm_r : Bool → Exec F (Unit {0})
  sbb_rm_r operand16 = do
    m ← decode_mod_rm
    borrow ← carry_in
    if operand16
        then (do
          lhs ← get_rm16 m
          rhs ← get_reg m.reg
          let result = sub32 (sub32 lhs (u16 rhs)) borrow
          put_rm16 m (u16 result)
          flags_by (λ e. set_sbb_flags_n e lhs (u16 rhs) borrow result 16))
        else (do
          lhs ← get_rm m
          rhs ← get_reg m.reg
          let result = sub32 (sub32 lhs rhs) borrow
          put_rm m result
          flags_by (λ e. set_sbb_flags_n e lhs rhs borrow result 32))
