-- ===== src/Cpu/Safety/Group.antt =====
-- The actions of Cpu/Step/Group stay within what the guest may write.
use ish_port_go.Prelude.{ℕ, Bool}
use ish_port_go.Cpu.Operand.{ModRm}
use ish_port_go.Cpu.Exec.Confines.{Confines}
use ish_port_go.Cpu.Exec.Primitives.{confining}
use ish_port_go.Cpu.Step.Group.{
  add_flags_of, sub_flags_of, logic_flags_of, put_result, alu, group_imm, alu_rm_imm, inc_dec_rm8,
  group_ff, imul_imm,
}
use ish_port_go.Cpu.Safety.AluCarry.{carry_in-Confines}

module _ {F : Type 0} where
  pub add_flags_of-Confines :
      (operand16 : Bool) (lhs : ℕ) (rhs : ℕ) → Confines {F = F} (add_flags_of operand16 lhs rhs)
  unfolding add_flags_of
  add_flags_of-Confines operand16 lhs rhs = search confining depth 40

  pub sub_flags_of-Confines :
      (operand16 : Bool) (lhs : ℕ) (rhs : ℕ) → Confines {F = F} (sub_flags_of operand16 lhs rhs)
  unfolding sub_flags_of
  sub_flags_of-Confines operand16 lhs rhs = search confining depth 40

  pub logic_flags_of-Confines :
      (operand16 : Bool) (result : ℕ) → Confines {F = F} (logic_flags_of operand16 result)
  unfolding logic_flags_of
  logic_flags_of-Confines operand16 result = search confining depth 40

  pub put_result-Confines :
      (operand16 : Bool) (m : ModRm) (result : ℕ) → Confines {F = F} (put_result operand16 m result)
  unfolding put_result
  put_result-Confines operand16 m result = search confining depth 40

  pub alu-Confines :
      (operand16 : Bool) (m : ModRm) (lhs : ℕ) (rhs : ℕ)
      → Confines {F = F} (alu operand16 m lhs rhs)
  unfolding alu
  alu-Confines operand16 m lhs rhs =
      search
        (
          confining, add_flags_of-Confines, sub_flags_of-Confines, logic_flags_of-Confines,
          put_result-Confines, carry_in-Confines,
        )
        depth 40

  pub group_imm-Confines :
      (operand16 : Bool) (wide : Bool) → Confines {F = F} (group_imm operand16 wide)
  unfolding group_imm
  group_imm-Confines operand16 wide = search confining depth 40

  pub alu_rm_imm-Confines :
      (operand16 : Bool) (wide : Bool) → Confines {F = F} (alu_rm_imm operand16 wide)
  unfolding alu_rm_imm
  alu_rm_imm-Confines operand16 wide = search (confining, alu-Confines, group_imm-Confines) depth 40

  pub inc_dec_rm8-Confines : Confines {F = F} inc_dec_rm8
  unfolding inc_dec_rm8
  inc_dec_rm8-Confines = search confining depth 40

  pub group_ff-Confines : Confines {F = F} group_ff
  unfolding group_ff
  group_ff-Confines = search confining depth 40

  pub imul_imm-Confines : (wide : Bool) → Confines {F = F} (imul_imm wide)
  unfolding imul_imm
  imul_imm-Confines wide = search (confining, group_imm-Confines) depth 40

pub ruleset group_rules = (
  add_flags_of-Confines, sub_flags_of-Confines, logic_flags_of-Confines, put_result-Confines,
  alu-Confines, group_imm-Confines, alu_rm_imm-Confines, inc_dec_rm8-Confines, group_ff-Confines,
  imul_imm-Confines,
)
