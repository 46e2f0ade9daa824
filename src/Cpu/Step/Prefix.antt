-- ===== src/Cpu/Step/Prefix.antt =====
-- internal/i386/cpu.go: the prefixes that `Step` reads before an opcode, and what it notes of it.
pub mod Ends
use ish_port_go.Prelude.{
  ℕ, zero, suc, ◌+◌, ◌%◌, ◌^◌, Bool, true, false, ◌||◌, ◌==◌, if◌then◌else◌, length, Result, ok,
  err, out_of_fuel,
}
use ish_port_go.Cpu.{Cpu}
use ish_port_go.Cpu.Operand.{fetch8}
use ish_port_go.Cpu.Exec.{Exec, give, raise, ◌>>=◌, ◌>>◌}

-- An opcode with the prefixes that a case looks at.
pub record Opcode : Type 0 where
  pub op : ℕ
  pub operand16 : Bool
  pub rep : Bool

unfoldable pub is_prefix : ℕ → Bool
is_prefix op =
    op == 0x66
    || op == 0x67
    || op == 0x26
    || op == 0x2e
    || op == 0x36
    || op == 0x3e
    || op == 0xf0
    || op == 0xf2
    || op == 0xf3
    || op == 0x64
    || op == 0x65

module _ {F : Type 0} where
  -- The segment that a prefix chooses.
  unfoldable pub choose_segment : ℕ → Exec F (Unit {0})
  choose_segment op c = (
    ok tt,
    record c {
      segment_base =
          if op == 0x64 then c.fs_base else if op == 0x65 then c.gs_base else c.segment_base;
    },
  )

  -- `prefixLoop`
  unfoldable pub prefix_loop : ℕ → Bool → Bool → Exec F Opcode
  prefix_loop zero operand16 rep = raise out_of_fuel
  prefix_loop (suc fuel) operand16 rep = do
    op ← fetch8
    elim (is_prefix op) [
      | true ↦ choose_segment op >> prefix_loop fuel (operand16 || op == 0x66) (rep || op == 0xf3)
      | false ↦ give (record { op = op; operand16 = operand16; rep = rep })
    ]

  -- EIP at the start, with the segment base reset
  unfoldable pub begin : Exec F ℕ
  begin c = (ok c.eip, record c { segment_base = 0 })

  unfoldable pub note_opcode : ℕ → ℕ → Exec F (Unit {0})
  note_opcode start op c = (ok tt, record c { last_eip = start; last_opcode = op })

  unfoldable pub memory_size : Exec F ℕ
  memory_size c = (ok (length c.mem.bytes), c)

  -- EIP moves up with each byte, so the end of the memory ends the loop.
  unfoldable pub read_opcode : ℕ → Exec F Opcode
  read_opcode start = do
    size ← memory_size
    code ← prefix_loop (size + 2) false false
    note_opcode start code.op
    give code

  -- c.Steps++
  unfoldable pub finish : Exec F (Unit {0})
  finish c = (ok tt, record c { steps = (c.steps + 1) % 2 ^ 64 })
