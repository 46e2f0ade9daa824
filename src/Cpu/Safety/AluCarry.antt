-- ===== src/Cpu/Safety/AluCarry.antt =====
-- The actions of Cpu/Step/AluCarry stay within what the guest may write.
use ish_port_go.Prelude.{Bool}
use ish_port_go.Cpu.Exec.Confines.{Confines}
use ish_port_go.Cpu.Exec.Primitives.{confining}
use ish_port_go.Cpu.Step.AluCarry.{
  carry_in, adc_al_imm8, adc_eax_imm32, adc_rm8_r8, adc_r8_rm8, adc_rm_r, adc_r_rm, sbb_r8_rm8,
  sbb_rm8_r8, sbb_r_rm, sbb_rm_r,
}

module _ {F : Type 0} where
  pub carry_in-Confines : Confines {F = F} carry_in
  unfolding carry_in
  carry_in-Confines = search confining depth 40

  pub adc_al_imm8-Confines : Confines {F = F} adc_al_imm8
  unfolding adc_al_imm8
  adc_al_imm8-Confines = search (confining, carry_in-Confines) depth 40

  pub adc_eax_imm32-Confines : Confines {F = F} adc_eax_imm32
  unfolding adc_eax_imm32
  adc_eax_imm32-Confines = search (confining, carry_in-Confines) depth 40

  pub adc_rm8_r8-Confines : Confines {F = F} adc_rm8_r8
  unfolding adc_rm8_r8
  adc_rm8_r8-Confines = search (confining, carry_in-Confines) depth 40

  pub adc_r8_rm8-Confines : Confines {F = F} adc_r8_rm8
  unfolding adc_r8_rm8
  adc_r8_rm8-Confines = search (confining, carry_in-Confines) depth 40

  pub adc_rm_r-Confines : Confines {F = F} adc_rm_r
  unfolding adc_rm_r
  adc_rm_r-Confines = search (confining, carry_in-Confines) depth 40

  pub adc_r_rm-Confines : Confines {F = F} adc_r_rm
  unfolding adc_r_rm
  adc_r_rm-Confines = search (confining, carry_in-Confines) depth 40

  pub sbb_r8_rm8-Confines : Confines {F = F} sbb_r8_rm8
  unfolding sbb_r8_rm8
  sbb_r8_rm8-Confines = search (confining, carry_in-Confines) depth 40

  pub sbb_rm8_r8-Confines : Confines {F = F} sbb_rm8_r8
  unfolding sbb_rm8_r8
  sbb_rm8_r8-Confines = search (confining, carry_in-Confines) depth 40

  pub sbb_r_rm-Confines : (operand16 : Bool) → Confines {F = F} (sbb_r_rm operand16)
  unfolding sbb_r_rm
  sbb_r_rm-Confines operand16 = search (confining, carry_in-Confines) depth 40

  pub sbb_rm_r-Confines : (operand16 : Bool) → Confines {F = F} (sbb_rm_r operand16)
  unfolding sbb_rm_r
  sbb_rm_r-Confines operand16 = search (confining, carry_in-Confines) depth 40

pub ruleset alu_carry_rules = (
  carry_in-Confines, adc_al_imm8-Confines, adc_eax_imm32-Confines, adc_rm8_r8-Confines,
  adc_r8_rm8-Confines, adc_rm_r-Confines, adc_r_rm-Confines, sbb_r8_rm8-Confines,
  sbb_rm8_r8-Confines, sbb_r_rm-Confines, sbb_rm_r-Confines,
)
