-- ===== src/Cpu/Safety/Unary.antt =====
-- The actions of Cpu/Step/Unary stay within what the guest may write.
use ish_port_go.Prelude.{ℕ, Bool}
use ish_port_go.Cpu.Operand.{ModRm}
use ish_port_go.Cpu.Exec.{Exec}
use ish_port_go.Cpu.Exec.Confines.{Confines}
use ish_port_go.Cpu.Exec.Primitives.{confining}
use ish_port_go.Cpu.Step.Unary.{
  test_rm16_imm16, mul_al, mul_eax, div_al, div_eax, unary8, unary, group_f6, group_f7,
}
use ish_port_go.Cpu.Step.Unary.{divide}

module _ {F : Type 0} where
  pub test_rm16_imm16-Confines : (m : ModRm) → Confines {F = F} (test_rm16_imm16 m)
  unfolding test_rm16_imm16
  test_rm16_imm16-Confines m = search confining depth 40

  pub mul_al-Confines : (is_signed : Bool) (value : ℕ) → Confines {F = F} (mul_al is_signed value)
  unfolding mul_al
  mul_al-Confines is_signed value = search confining depth 40

  pub mul_eax-Confines : (is_signed : Bool) (value : ℕ) → Confines {F = F} (mul_eax is_signed value)
  unfolding mul_eax
  mul_eax-Confines is_signed value = search confining depth 40

  pub divide-Confines :
      (bits : ℕ) (is_signed : Bool) (dividend divisor : ℕ) (put : ℕ → ℕ → Exec F (Unit {0}))
      → ((q r : ℕ) → Confines (put q r))
      → Confines (divide bits is_signed dividend divisor put)
  unfolding divide
  divide-Confines bits is_signed dividend divisor put safe = search confining depth 40

  pub div_al-Confines : (is_signed : Bool) (value : ℕ) → Confines {F = F} (div_al is_signed value)
  unfolding div_al
  div_al-Confines is_signed value = search (confining, divide-Confines) depth 40

  pub div_eax-Confines : (is_signed : Bool) (value : ℕ) → Confines {F = F} (div_eax is_signed value)
  unfolding div_eax
  div_eax-Confines is_signed value = search (confining, divide-Confines) depth 40

  pub unary8-Confines : (m : ModRm) (value : ℕ) → Confines {F = F} (unary8 m value)
  unfolding unary8
  unary8-Confines m value = search (confining, mul_al-Confines, div_al-Confines) depth 40

  pub unary-Confines : (m : ModRm) (value : ℕ) → Confines {F = F} (unary m value)
  unfolding unary
  unary-Confines m value = search (confining, mul_eax-Confines, div_eax-Confines) depth 40

  pub group_f6-Confines : Confines {F = F} group_f6
  unfolding group_f6
  group_f6-Confines = search (confining, unary8-Confines) depth 40

  pub group_f7-Confines : (operand16 : Bool) → Confines {F = F} (group_f7 operand16)
  unfolding group_f7
  group_f7-Confines operand16 =
      search (confining, test_rm16_imm16-Confines, unary-Confines) depth 40

pub ruleset unary_rules = (
  test_rm16_imm16-Confines, mul_al-Confines, mul_eax-Confines, div_al-Confines, div_eax-Confines,
  unary8-Confines, unary-Confines, group_f6-Confines, group_f7-Confines,
)
