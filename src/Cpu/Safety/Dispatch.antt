-- ===== src/Cpu/Safety/Dispatch.antt =====
-- The choice of a case in `Step` stays within what the guest may write.
use ish_port_go.Prelude.{ℕ, Bool}
use ish_port_go.Cpu.Exec.{Exec}
use ish_port_go.Cpu.Exec.Confines.{Confines}
use ish_port_go.Cpu.Exec.Primitives.{confining}
use ish_port_go.Cpu.Step.Cases.{
  nop_rm, extended, extended_step, simple_step, group_step, byte_step, word_step,
}
use ish_port_go.Cpu.Safety.Move.{move_rules}
use ish_port_go.Cpu.Safety.AluByte.{alu_byte_rules}
use ish_port_go.Cpu.Safety.Alu.{alu_rules}
use ish_port_go.Cpu.Safety.AluCarry.{alu_carry_rules}
use ish_port_go.Cpu.Safety.Group.{group_rules}
use ish_port_go.Cpu.Safety.Unary.{unary_rules}
use ish_port_go.Cpu.Safety.Shift.{shift_rules}
use ish_port_go.Cpu.Safety.Bits.{bit_rules}
use ish_port_go.Cpu.Safety.Strings.{string_rules}
use ish_port_go.Cpu.Safety.Flag.{flag_rules}

module _ {F : Type 0} where
  nop_rm-Confines : Confines {F = F} nop_rm
  unfolding nop_rm
  nop_rm-Confines = search confining

  extended-Confines : (ext : ℕ) → Confines {F = F} (extended ext)
  unfolding extended
  extended-Confines ext =
      search (confining, move_rules, shift_rules, bit_rules, nop_rm-Confines) depth 60

  extended_step-Confines : Confines {F = F} extended_step
  unfolding extended_step
  extended_step-Confines = search (confining, extended-Confines)

  -- A switch stays within when the cases after it do.
  module _ (op : ℕ) (others : Exec F (Unit {0})) (safe : Confines others) where
    pub simple_step-Confines : Confines (simple_step op others)
    unfolding simple_step
    simple_step-Confines =
        search (confining, move_rules, flag_rules, extended_step-Confines) depth 80

    pub group_step-Confines : (operand16 rep : Bool) → Confines (group_step operand16 rep op others)
    unfolding group_step
    group_step-Confines operand16 rep =
        search
          (
            confining, move_rules, alu_byte_rules, group_rules, unary_rules, shift_rules,
            string_rules,
          )
          depth 80

    pub byte_step-Confines : (operand16 : Bool) → Confines (byte_step operand16 op others)
    unfolding byte_step
    byte_step-Confines operand16 =
        search (confining, alu_byte_rules, alu_rules, alu_carry_rules) depth 80

    pub word_step-Confines : (operand16 : Bool) → Confines (word_step operand16 op others)
    unfolding word_step
    word_step-Confines operand16 = search (confining, alu_rules, alu_carry_rules) depth 80
