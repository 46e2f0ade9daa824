-- ===== src/Cpu/Safety/AluByte.antt =====
-- The actions of Cpu/Step/AluByte stay within what the guest may write.
use ish_port_go.Prelude.{ℕ}
use ish_port_go.Cpu.Operand.{ModRm}
use ish_port_go.Cpu.Exec.Confines.{Confines}
use ish_port_go.Cpu.Exec.Primitives.{confining}
use ish_port_go.Cpu.Step.AluByte.{
  compare8, logic8, cmp_rm8_r8, cmp_r8_rm8, alu8, alu_rm8_imm8, test_rm8_r8, test_al_imm8,
  cmp_al_imm8, add_al_imm8, and_al_imm8, or_al_imm8, add_rm8_r8, add_r8_rm8, logic_rm8_r8,
  logic_r8_rm8,
}

module _ {F : Type 0} where
  pub compare8-Confines : (lhs : ℕ) (rhs : ℕ) → Confines {F = F} (compare8 lhs rhs)
  unfolding compare8
  compare8-Confines lhs rhs = search confining depth 40

  pub logic8-Confines : (result : ℕ) → Confines {F = F} (logic8 result)
  unfolding logic8
  logic8-Confines result = search confining depth 40

  pub cmp_rm8_r8-Confines : Confines {F = F} cmp_rm8_r8
  unfolding cmp_rm8_r8
  cmp_rm8_r8-Confines = search (confining, compare8-Confines) depth 40

  pub cmp_r8_rm8-Confines : Confines {F = F} cmp_r8_rm8
  unfolding cmp_r8_rm8
  cmp_r8_rm8-Confines = search (confining, compare8-Confines) depth 40

  pub alu8-Confines : (m : ModRm) (lhs : ℕ) (imm : ℕ) → Confines {F = F} (alu8 m lhs imm)
  unfolding alu8
  alu8-Confines m lhs imm = search (confining, compare8-Confines, logic8-Confines) depth 40

  pub alu_rm8_imm8-Confines : Confines {F = F} alu_rm8_imm8
  unfolding alu_rm8_imm8
  alu_rm8_imm8-Confines = search (confining, alu8-Confines) depth 40

  pub test_rm8_r8-Confines : Confines {F = F} test_rm8_r8
  unfolding test_rm8_r8
  test_rm8_r8-Confines = search (confining, logic8-Confines) depth 40

  pub test_al_imm8-Confines : Confines {F = F} test_al_imm8
  unfolding test_al_imm8
  test_al_imm8-Confines = search (confining, logic8-Confines) depth 40

  pub cmp_al_imm8-Confines : Confines {F = F} cmp_al_imm8
  unfolding cmp_al_imm8
  cmp_al_imm8-Confines = search (confining, compare8-Confines) depth 40

  pub add_al_imm8-Confines : Confines {F = F} add_al_imm8
  unfolding add_al_imm8
  add_al_imm8-Confines = search confining depth 40

  pub and_al_imm8-Confines : Confines {F = F} and_al_imm8
  unfolding and_al_imm8
  and_al_imm8-Confines = search (confining, logic8-Confines) depth 40

  pub or_al_imm8-Confines : Confines {F = F} or_al_imm8
  unfolding or_al_imm8
  or_al_imm8-Confines = search (confining, logic8-Confines) depth 40

  pub add_rm8_r8-Confines : Confines {F = F} add_rm8_r8
  unfolding add_rm8_r8
  add_rm8_r8-Confines = search confining depth 40

  pub add_r8_rm8-Confines : Confines {F = F} add_r8_rm8
  unfolding add_r8_rm8
  add_r8_rm8-Confines = search confining depth 40

  pub logic_rm8_r8-Confines : (f : (ℕ → ℕ → ℕ)) → Confines {F = F} (logic_rm8_r8 f)
  unfolding logic_rm8_r8
  logic_rm8_r8-Confines f = search (confining, logic8-Confines) depth 40

  pub logic_r8_rm8-Confines : (f : (ℕ → ℕ → ℕ)) → Confines {F = F} (logic_r8_rm8 f)
  unfolding logic_r8_rm8
  logic_r8_rm8-Confines f = search (confining, logic8-Confines) depth 40

pub ruleset alu_byte_rules = (
  compare8-Confines, logic8-Confines, cmp_rm8_r8-Confines, cmp_r8_rm8-Confines, alu8-Confines,
  alu_rm8_imm8-Confines, test_rm8_r8-Confines, test_al_imm8-Confines, cmp_al_imm8-Confines,
  add_al_imm8-Confines, and_al_imm8-Confines, or_al_imm8-Confines, add_rm8_r8-Confines,
  add_r8_rm8-Confines, logic_rm8_r8-Confines, logic_r8_rm8-Confines,
)
