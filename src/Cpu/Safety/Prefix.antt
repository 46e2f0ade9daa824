-- ===== src/Cpu/Safety/Prefix.antt =====
-- The actions of Cpu/Step/Prefix stay within what the guest may write.
use ish_port_go.Prelude.{ℕ, zero, suc, refl, Bool, true, false}
use ish_port_go.Cpu.Exec.{Exec}
use ish_port_go.Cpu.Exec.Confines.{Confines, Confined-regs, Confines-bind}
use ish_port_go.Cpu.Exec.Primitives.{confining, Confines-fetch8}
use ish_port_go.Cpu.Step.Prefix.{
  Opcode, is_prefix, choose_segment, prefix_loop, begin, note_opcode, memory_size, read_opcode,
}

module _ {F : Type 0} where
  pub choose_segment-Confines : (op : ℕ) → Confines {F = F} (choose_segment op)
  unfolding choose_segment
  choose_segment-Confines op = record { at = λ c g. Confined-regs c _ refl refl refl }

  pub begin-Confines : Confines {F = F} begin
  unfolding begin
  begin-Confines = record { at = λ c g. Confined-regs c _ refl refl refl }

  pub note_opcode-Confines : (start op : ℕ) → Confines {F = F} (note_opcode start op)
  unfolding note_opcode
  note_opcode-Confines start op = record { at = λ c g. Confined-regs c _ refl refl refl }

  pub memory_size-Confines : Confines {F = F} memory_size
  unfolding memory_size
  memory_size-Confines = record { at = λ c g. Confined-regs c _ refl refl refl }

  -- One round, by whether the byte is a prefix.
  round-Confines :
      (prefixed : Bool) (this other : Exec F Opcode)
      → Confines this
      → Confines other
      → Confines (elim prefixed [ true ↦ this | false ↦ other ])
  round-Confines true this other p q = p
  round-Confines false this other p q = q

  pub prefix_loop-Confines :
      (fuel : ℕ) (operand16 rep : Bool) → Confines {F = F} (prefix_loop fuel operand16 rep)
  unfolding prefix_loop
  prefix_loop-Confines zero operand16 rep = search confining
  prefix_loop-Confines (suc fuel) operand16 rep = Confines-bind _ _ Confines-fetch8 (λ op.
      round-Confines (is_prefix op) _ _
        (search (confining, choose_segment-Confines, prefix_loop-Confines fuel)) (search confining))

  pub read_opcode-Confines : (start : ℕ) → Confines {F = F} (read_opcode start)
  unfolding read_opcode
  read_opcode-Confines start =
      search (confining, memory_size-Confines, prefix_loop-Confines, note_opcode-Confines)
