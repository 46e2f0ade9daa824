-- ===== src/Cpu/Safety/Alu.antt =====
-- The actions of Cpu/Step/Alu stay within what the guest may write.
use ish_port_go.Prelude.{ℕ, Bool}
use ish_port_go.Cpu.Exec.Confines.{Confines}
use ish_port_go.Cpu.Exec.Primitives.{confining}
use ish_port_go.Cpu.Step.Alu.{
  test_rm_r, test_eax_imm32, cmp_eax_imm32, sub_eax_imm32, logic_eax_imm, add_eax_imm32, logic_rm_r,
  logic_r_rm, sub_r_rm, add_rm_r, add_r_rm, sub_rm_r, cmp_rm_r, cmp_r_rm, xor_flags, xor_rm_r,
  xor_r_rm,
}

module _ {F : Type 0} where
  pub test_rm_r-Confines : Confines {F = F} test_rm_r
  unfolding test_rm_r
  test_rm_r-Confines = search confining depth 40

  pub test_eax_imm32-Confines : Confines {F = F} test_eax_imm32
  unfolding test_eax_imm32
  test_eax_imm32-Confines = search confining depth 40

  pub cmp_eax_imm32-Confines : Confines {F = F} cmp_eax_imm32
  unfolding cmp_eax_imm32
  cmp_eax_imm32-Confines = search confining depth 40

  pub sub_eax_imm32-Confines : Confines {F = F} sub_eax_imm32
  unfolding sub_eax_imm32
  sub_eax_imm32-Confines = search confining depth 40

  pub logic_eax_imm-Confines :
      (operand16 : Bool) (op : ℕ) → Confines {F = F} (logic_eax_imm operand16 op)
  unfolding logic_eax_imm
  logic_eax_imm-Confines operand16 op = search confining depth 40

  pub add_eax_imm32-Confines : Confines {F = F} add_eax_imm32
  unfolding add_eax_imm32
  add_eax_imm32-Confines = search confining depth 40

  pub logic_rm_r-Confines : (f : (ℕ → ℕ → ℕ)) → Confines {F = F} (logic_rm_r f)
  unfolding logic_rm_r
  logic_rm_r-Confines f = search confining depth 40

  pub logic_r_rm-Confines : (f : (ℕ → ℕ → ℕ)) → Confines {F = F} (logic_r_rm f)
  unfolding logic_r_rm
  logic_r_rm-Confines f = search confining depth 40

  pub sub_r_rm-Confines : Confines {F = F} sub_r_rm
  unfolding sub_r_rm
  sub_r_rm-Confines = search confining depth 40

  pub add_rm_r-Confines : Confines {F = F} add_rm_r
  unfolding add_rm_r
  add_rm_r-Confines = search confining depth 40

  pub add_r_rm-Confines : Confines {F = F} add_r_rm
  unfolding add_r_rm
  add_r_rm-Confines = search confining depth 40

  pub sub_rm_r-Confines : Confines {F = F} sub_rm_r
  unfolding sub_rm_r
  sub_rm_r-Confines = search confining depth 40

  pub cmp_rm_r-Confines : Confines {F = F} cmp_rm_r
  unfolding cmp_rm_r
  cmp_rm_r-Confines = search confining depth 40

  pub cmp_r_rm-Confines : Confines {F = F} cmp_r_rm
  unfolding cmp_r_rm
  cmp_r_rm-Confines = search confining depth 40

  pub xor_flags-Confines : (result : ℕ) → Confines {F = F} (xor_flags result)
  unfolding xor_flags
  xor_flags-Confines result = search confining depth 40

  pub xor_rm_r-Confines : Confines {F = F} xor_rm_r
  unfolding xor_rm_r
  xor_rm_r-Confines = search (confining, xor_flags-Confines) depth 40

  pub xor_r_rm-Confines : Confines {F = F} xor_r_rm
  unfolding xor_r_rm
  xor_r_rm-Confines = search (confining, xor_flags-Confines) depth 40

pub ruleset alu_rules = (
  test_rm_r-Confines, test_eax_imm32-Confines, cmp_eax_imm32-Confines, sub_eax_imm32-Confines,
  logic_eax_imm-Confines, add_eax_imm32-Confines, logic_rm_r-Confines, logic_r_rm-Confines,
  sub_r_rm-Confines, add_rm_r-Confines, add_r_rm-Confines, sub_rm_r-Confines, cmp_rm_r-Confines,
  cmp_r_rm-Confines, xor_flags-Confines, xor_rm_r-Confines, xor_r_rm-Confines,
)
