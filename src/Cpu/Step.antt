-- ===== src/Cpu/Step.antt =====
-- internal/i386/cpu.go: `Step`. The prefixes are read, then one case is chosen by the opcode;
-- a case that an earlier one hides is left out (0x0D and 0x25 of the forms on AL and EAX, 0x05 alone).
-- The x87 instructions and the handler of INT 0x80 are parameters.
pub mod Move
pub mod AluByte
pub mod Alu
pub mod AluCarry
pub mod Group
pub mod Unary
pub mod Shift
pub mod Bits
pub mod Strings
pub mod Flag
pub mod Prefix
pub mod Cases
mod Tests
use ish_port_go.Prelude.{
  ℕ, zero, suc, ◌+◌, ◌-◌, ◌%◌, ◌^◌, Bool, true, false, ◌&&◌, ◌||◌, not, ◌==◌, ltb, leb,
  if◌then◌else◌, bit_and, bit_or, bit_xor, length, Option, none, some, Result, ok, err, unsupported,
  no_interrupt, out_of_fuel,
}
use ish_port_go.Cpu.{Cpu}
use ish_port_go.Cpu.Flags.{flag_cf, flag_df, flag_if}
use ish_port_go.Cpu.Operand.{fetch8, decode_mod_rm}
use ish_port_go.Cpu.Exec.{Exec, give, raise, ◌>>=◌, ◌>>◌, nothing, get_eip, halt}
use Move.{
  mov_r8_imm8, mov_r32_imm32, push_r32, pop_r32, push_imm32, push_imm8, cdq, xchg_eax, ret_near,
  ret_imm16, leave, call_rel32, jmp_rel32, jmp_rel8, jcc_rel8, jcc_rel32, mov_rm8_imm8, mov_rm_imm,
  xchg_rm, mov_moffs, mov_sreg, mov_rm8_r8, mov_r8_rm8, mov_rm_r, mov_r_rm, lea,
}
use AluByte.{
  cmp_rm8_r8, cmp_r8_rm8, alu_rm8_imm8, test_rm8_r8, test_al_imm8, cmp_al_imm8, add_al_imm8,
  and_al_imm8, or_al_imm8, add_rm8_r8, add_r8_rm8, logic_rm8_r8, logic_r8_rm8,
}
use Alu.{
  test_rm_r, test_eax_imm32, cmp_eax_imm32, sub_eax_imm32, logic_eax_imm, add_eax_imm32, logic_rm_r,
  logic_r_rm, sub_r_rm, add_rm_r, add_r_rm, sub_rm_r, cmp_rm_r, cmp_r_rm, xor_rm_r, xor_r_rm,
}
use AluCarry.{
  adc_al_imm8, adc_eax_imm32, adc_rm8_r8, adc_r8_rm8, adc_rm_r, adc_r_rm, sbb_r8_rm8, sbb_rm8_r8,
  sbb_r_rm, sbb_rm_r,
}
use Group.{alu_rm_imm, inc_dec_rm8, group_ff, imul_imm}
use Unary.{group_f6, group_f7}
use Shift.{shift_rm8, shift_rm, shift_double}
use Bits.{
  setcc, bswap, bit_imm8, bit_reg, bit_scan_rm, cmpxchg, imul_r_rm, mov_extend8, mov_extend16,
}
use Strings.{movs, stos}
use Flag.{sahf, clear_flag, set_flag, inc_r32, dec_r32}
use Prefix.{Opcode, read_opcode, begin, finish}
use Cases.{from_to, simple_step, group_step, byte_step, word_step}

module _ {F : Type 0} where
  -- 0xCD; a nil handler is `none`.
  unfoldable pub handle_interrupt : Option (Exec F (Unit {0})) → ℕ → Exec F (Unit {0})
  handle_interrupt none vector = raise no_interrupt
  handle_interrupt (some handler) vector = if vector == 0x80 then handler else raise no_interrupt

  unfoldable pub interrupt : Option (Exec F (Unit {0})) → Exec F (Unit {0})
  interrupt on_syscall = do vector ← fetch8; handle_interrupt on_syscall vector

  -- 0xD8, 0xD9, 0xDB to 0xDF, 0xCD, and what is left
  unfoldable pub other_step :
      (ℕ → Exec F (Unit {0})) → Option (Exec F (Unit {0})) → ℕ → Exec F (Unit {0})
  other_step x87 on_syscall op =
      if op == 0xcd
      then interrupt on_syscall
      else if op == 0xd8 || op == 0xd9 || from_to op 0xdb 0xdf
      then x87 op
      else raise unsupported

  -- `switch` of `Step`, on an opcode after its prefixes.
  unfoldable pub execute :
      (ℕ → Exec F (Unit {0})) → Option (Exec F (Unit {0})) → Opcode → Exec F (Unit {0})
  execute x87 on_syscall code = simple_step code.op (
      group_step code.operand16 code.rep code.op (
        byte_step code.operand16 code.op
          (word_step code.operand16 code.op (other_step x87 on_syscall code.op))))

  unfoldable pub active_step :
      (ℕ → Exec F (Unit {0})) → Option (Exec F (Unit {0})) → Exec F (Unit {0})
  active_step x87 on_syscall = do
    start ← begin
    code ← read_opcode start
    execute x87 on_syscall code
    finish

  unfoldable pub step : (ℕ → Exec F (Unit {0})) → Option (Exec F (Unit {0})) → Exec F (Unit {0})
  step x87 on_syscall c = if c.halted then (ok tt, c) else active_step x87 on_syscall c
