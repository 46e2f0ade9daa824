-- ===== src/Cpu/Safety/Shift.antt =====
-- The actions of Cpu/Step/Shift stay within what the guest may write.
use ish_port_go.Prelude.{ℕ, Bool, Option, none, some}
use ish_port_go.Cpu.Operand.{ModRm}
use ish_port_go.Cpu.Exec.Confines.{Confines}
use ish_port_go.Cpu.Exec.Primitives.{confining}
use ish_port_go.Cpu.Step.Shift.{
  put_shifted8, shift_rm8, put_shifted, shift_count, shift_rm, shift_double,
}
use ish_port_go.Cpu.Step.Shift.{Shifted}

module _ {F : Type 0} where
  pub put_shifted8-Confines : (m : ModRm) (s : Option Shifted) → Confines {F = F} (put_shifted8 m s)
  unfolding put_shifted8
  put_shifted8-Confines m none = search confining
  put_shifted8-Confines m (some s) = search confining depth 40

  pub shift_rm8-Confines : (by_imm : Bool) → Confines {F = F} (shift_rm8 by_imm)
  unfolding shift_rm8
  shift_rm8-Confines by_imm = search (confining, put_shifted8-Confines) depth 40

  pub put_shifted-Confines :
      (operand16 : Bool) (m : ModRm) (s : Option Shifted)
      → Confines {F = F} (put_shifted operand16 m s)
  unfolding put_shifted
  put_shifted-Confines operand16 m none = search confining
  put_shifted-Confines operand16 m (some s) = search confining depth 40

  pub shift_count-Confines : (op : ℕ) → Confines {F = F} (shift_count op)
  unfolding shift_count
  shift_count-Confines op = search confining depth 40

  pub shift_rm-Confines : (operand16 : Bool) (op : ℕ) → Confines {F = F} (shift_rm operand16 op)
  unfolding shift_rm
  shift_rm-Confines operand16 op =
      search (confining, put_shifted-Confines, shift_count-Confines) depth 40

  pub shift_double-Confines : (to_left : Bool) → Confines {F = F} (shift_double to_left)
  unfolding shift_double
  shift_double-Confines to_left = search confining depth 40

pub ruleset shift_rules = (
  put_shifted8-Confines, shift_rm8-Confines, put_shifted-Confines, shift_count-Confines,
  shift_rm-Confines, shift_double-Confines,
)
