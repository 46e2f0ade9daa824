-- ===== src/Cpu/Step/Cases.antt =====
-- internal/i386/cpu.go: the switch of `Step` by families of opcodes; each hands what it does not know
-- to the next.
use ish_port_go.Prelude.{
  ℕ, ◌-◌, Bool, true, false, ◌&&◌, ◌||◌, ◌==◌, leb, if◌then◌else◌, bit_and, bit_or, bit_xor,
  unsupported,
}
use ish_port_go.Cpu.Flags.{flag_cf, flag_df, flag_if}
use ish_port_go.Cpu.Operand.{fetch8, decode_mod_rm}
use ish_port_go.Cpu.Exec.{Exec, raise, ◌>>=◌, nothing, halt}
use ish_port_go.Cpu.Step.Move.{
  mov_r8_imm8, mov_r32_imm32, push_r32, pop_r32, push_imm32, push_imm8, cdq, xchg_eax, ret_near,
  ret_imm16, leave, call_rel32, jmp_rel32, jmp_rel8, jcc_rel8, jcc_rel32, mov_rm8_imm8, mov_rm_imm,
  xchg_rm, mov_moffs, mov_sreg, mov_rm8_r8, mov_r8_rm8, mov_rm_r, mov_r_rm, lea,
}
use ish_port_go.Cpu.Step.AluByte.{
  cmp_rm8_r8, cmp_r8_rm8, alu_rm8_imm8, test_rm8_r8, test_al_imm8, cmp_al_imm8, add_al_imm8,
  and_al_imm8, or_al_imm8, add_rm8_r8, add_r8_rm8, logic_rm8_r8, logic_r8_rm8,
}
use ish_port_go.Cpu.Step.Alu.{
  test_rm_r, test_eax_imm32, cmp_eax_imm32, sub_eax_imm32, logic_eax_imm, add_eax_imm32, logic_rm_r,
  logic_r_rm, sub_r_rm, add_rm_r, add_r_rm, sub_rm_r, cmp_rm_r, cmp_r_rm, xor_rm_r, xor_r_rm,
}
use ish_port_go.Cpu.Step.AluCarry.{
  adc_al_imm8, adc_eax_imm32, adc_rm8_r8, adc_r8_rm8, adc_rm_r, adc_r_rm, sbb_r8_rm8, sbb_rm8_r8,
  sbb_r_rm, sbb_rm_r,
}
use ish_port_go.Cpu.Step.Group.{alu_rm_imm, inc_dec_rm8, group_ff, imul_imm}
use ish_port_go.Cpu.Step.Unary.{group_f6, group_f7}
use ish_port_go.Cpu.Step.Shift.{shift_rm8, shift_rm, shift_double}
use ish_port_go.Cpu.Step.Bits.{
  setcc, bswap, bit_imm8, bit_reg, bit_scan_rm, cmpxchg, imul_r_rm, mov_extend8, mov_extend16,
}
use ish_port_go.Cpu.Step.Strings.{movs, stos}
use ish_port_go.Cpu.Step.Flag.{sahf, clear_flag, set_flag, inc_r32, dec_r32}

abbrev pub from_to : ℕ → ℕ → ℕ → Bool
from_to op lo hi = leb lo op && leb op hi

module _ {F : Type 0} where
  -- NOP of several bytes, 0x0F 0x1F
  unfoldable pub nop_rm : Exec F (Unit {0})
  nop_rm = do m ← decode_mod_rm; nothing

  -- case 0x0F
  unfoldable pub extended : ℕ → Exec F (Unit {0})
  extended ext =
      if from_to ext 0x80 0x8f
      then jcc_rel32 (ext - 0x80)
      else if from_to ext 0xc8 0xcf
      then bswap (ext - 0xc8)
      else if from_to ext 0x90 0x9f
      then setcc (ext - 0x90)
      else if ext == 0x1f
      then nop_rm
      else if ext == 0xa4
      then shift_double true
      else if ext == 0xac
      then shift_double false
      else if ext == 0xba
      then bit_imm8
      else if ext == 0xa3
      then bit_reg 4
      else if ext == 0xab
      then bit_reg 5
      else if ext == 0xb3
      then bit_reg 6
      else if ext == 0xbb
      then bit_reg 7
      else if ext == 0xbc
      then bit_scan_rm true
      else if ext == 0xbd
      then bit_scan_rm false
      else if ext == 0xb1
      then cmpxchg
      else if ext == 0xaf
      then imul_r_rm
      else if ext == 0xb6
      then mov_extend8 false
      else if ext == 0xbe
      then mov_extend8 true
      else if ext == 0xb7
      then mov_extend16 false
      else if ext == 0xbf
      then mov_extend16 true
      else raise unsupported

  unfoldable pub extended_step : Exec F (Unit {0})
  extended_step = do ext ← fetch8; extended ext

  -- Moves, the stack, jumps and flags.
  unfoldable pub simple_step : ℕ → Exec F (Unit {0}) → Exec F (Unit {0})
  simple_step op others =
      if from_to op 0xb0 0xb7
      then mov_r8_imm8 (op - 0xb0)
      else if from_to op 0xb8 0xbf
      then mov_r32_imm32 (op - 0xb8)
      else if from_to op 0x50 0x57
      then push_r32 (op - 0x50)
      else if from_to op 0x58 0x5f
      then pop_r32 (op - 0x58)
      else if from_to op 0x40 0x47
      then inc_r32 (op - 0x40)
      else if from_to op 0x48 0x4f
      then dec_r32 (op - 0x48)
      else if op == 0x68
      then push_imm32
      else if op == 0x6a
      then push_imm8
      else if op == 0x90
      then nothing
      else if op == 0x99
      then cdq
      else if from_to op 0x91 0x97
      then xchg_eax (op - 0x90)
      else if op == 0xf4
      then halt
      else if op == 0x9e
      then sahf
      else if op == 0xf8
      then clear_flag flag_cf
      else if op == 0xf9
      then set_flag flag_cf
      else if op == 0xfa
      then clear_flag flag_if
      else if op == 0xfb
      then set_flag flag_if
      else if op == 0xfc
      then clear_flag flag_df
      else if op == 0xfd
      then set_flag flag_df
      else if op == 0xc3
      then ret_near
      else if op == 0xc2
      then ret_imm16
      else if op == 0xc9
      then leave
      else if op == 0xe8
      then call_rel32
      else if op == 0xe9
      then jmp_rel32
      else if op == 0xeb
      then jmp_rel8
      else if from_to op 0x70 0x7f
      then jcc_rel8 (op - 0x70)
      else if op == 0x0f
      then extended_step
      else others

  -- Groups, shifts, strings and moves with a ModRM byte.
  unfoldable pub group_step : Bool → Bool → ℕ → Exec F (Unit {0}) → Exec F (Unit {0})
  group_step operand16 rep op others =
      if op == 0xfe
      then inc_dec_rm8
      else if op == 0xff
      then group_ff
      else if op == 0xf6
      then group_f6
      else if op == 0xf7
      then group_f7 operand16
      else if op == 0x69
      then imul_imm true
      else if op == 0x6b
      then imul_imm false
      else if op == 0xc6
      then mov_rm8_imm8
      else if op == 0xc0
      then shift_rm8 true
      else if op == 0xd0
      then shift_rm8 false
      else if op == 0xc1 || op == 0xd1 || op == 0xd3
      then shift_rm operand16 op
      else if op == 0x80
      then alu_rm8_imm8
      else if op == 0x87
      then xchg_rm
      else if from_to op 0xa0 0xa3
      then mov_moffs op
      else if op == 0xa4
      then movs rep false
      else if op == 0xa5
      then movs rep true
      else if op == 0xaa
      then stos rep false
      else if op == 0xab
      then stos rep true
      else if op == 0x8e
      then mov_sreg
      else if op == 0x88
      then mov_rm8_r8
      else if op == 0x8a
      then mov_r8_rm8
      else if op == 0x81
      then alu_rm_imm operand16 true
      else if op == 0x83
      then alu_rm_imm operand16 false
      else if op == 0xc7
      then mov_rm_imm operand16
      else if op == 0x8d
      then lea
      else if op == 0x89
      then mov_rm_r operand16
      else if op == 0x8b
      then mov_r_rm operand16
      else others

  -- Arithmetic and logic on bytes, and on AL and EAX.
  unfoldable pub byte_step : Bool → ℕ → Exec F (Unit {0}) → Exec F (Unit {0})
  byte_step operand16 op others =
      if op == 0x38
      then cmp_rm8_r8
      else if op == 0x84
      then test_rm8_r8
      else if op == 0x0d || op == 0x25 || op == 0x35
      then logic_eax_imm operand16 op
      else if op == 0xa9
      then test_eax_imm32
      else if op == 0xa8
      then test_al_imm8
      else if op == 0x3c
      then cmp_al_imm8
      else if op == 0x00
      then add_rm8_r8
      else if op == 0x02
      then add_r8_rm8
      else if op == 0x04
      then add_al_imm8
      else if op == 0x05
      then add_eax_imm32
      else if op == 0x24
      then and_al_imm8
      else if op == 0x0c
      then or_al_imm8
      else if op == 0x14
      then adc_al_imm8
      else if op == 0x15
      then adc_eax_imm32
      else if op == 0x2d
      then sub_eax_imm32
      else if op == 0x3d
      then cmp_eax_imm32
      else if op == 0x08
      then logic_rm8_r8 bit_or
      else if op == 0x0a
      then logic_r8_rm8 bit_or
      else if op == 0x20
      then logic_rm8_r8 bit_and
      else if op == 0x22
      then logic_r8_rm8 bit_and
      else if op == 0x30
      then logic_rm8_r8 bit_xor
      else if op == 0x3a
      then cmp_r8_rm8
      else others

  -- Arithmetic and logic of an operand and a register.
  unfoldable pub word_step : Bool → ℕ → Exec F (Unit {0}) → Exec F (Unit {0})
  word_step operand16 op others =
      if op == 0x85
      then test_rm_r
      else if op == 0x1a
      then sbb_r8_rm8
      else if op == 0x18
      then sbb_rm8_r8
      else if op == 0x19
      then sbb_rm_r operand16
      else if op == 0x1b
      then sbb_r_rm operand16
      else if op == 0x10
      then adc_rm8_r8
      else if op == 0x12
      then adc_r8_rm8
      else if op == 0x11
      then adc_rm_r
      else if op == 0x13
      then adc_r_rm
      else if op == 0x09
      then logic_rm_r bit_or
      else if op == 0x0b
      then logic_r_rm bit_or
      else if op == 0x21
      then logic_rm_r bit_and
      else if op == 0x23
      then logic_r_rm bit_and
      else if op == 0x2a
      then sub_r_rm
      else if op == 0x01
      then add_rm_r
      else if op == 0x03
      then add_r_rm
      else if op == 0x29
      then sub_rm_r
      else if op == 0x2b
      then sub_r_rm
      else if op == 0x39
      then cmp_rm_r
      else if op == 0x3b
      then cmp_r_rm
      else if op == 0x31
      then xor_rm_r
      else if op == 0x33
      then xor_r_rm
      else others
