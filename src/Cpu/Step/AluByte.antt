-- ===== src/Cpu/Step/AluByte.antt =====
-- internal/i386/cpu.go, cases of `Step`: addition, subtraction, comparison and logic on bytes.
use ish_port_go.Prelude.{ℕ, ◌+◌, ◌==◌, if◌then◌else◌, bit_and, bit_or, bit_xor, u8, unsupported}
use ish_port_go.Cpu.Flags.{set_add_flags_n, set_sub_flags_n, set_logic_flags_n}
use ish_port_go.Cpu.Operand.{ModRm, fetch8, decode_mod_rm}
use ish_port_go.Cpu.Exec.{
  Exec, raise, ◌>>=◌, ◌>>◌, get_reg8, put_reg8, flags_by, get_rm8, put_rm8, add8, sub8,
}

module _ {F : Type 0} where
  -- c.setSubFlagsN(lhs, rhs, lhs - rhs, 8), of bytes
  unfoldable pub compare8 : ℕ → ℕ → Exec F (Unit {0})
  compare8 lhs rhs = flags_by (λ e. set_sub_flags_n e lhs rhs (sub8 lhs rhs) 8)

  unfoldable pub logic8 : ℕ → Exec F (Unit {0})
  logic8 result = flags_by (λ e. set_logic_flags_n e result 8)

  -- 0x38, 0x3A
  unfoldable pub cmp_rm8_r8 : Exec F (Unit {0})
  cmp_rm8_r8 = do m ← decode_mod_rm; lhs ← get_rm8 m; rhs ← get_reg8 m.reg; compare8 lhs rhs

  unfoldable pub cmp_r8_rm8 : Exec F (Unit {0})
  cmp_r8_rm8 = do m ← decode_mod_rm; lhs ← get_rm8 m; rhs ← get_reg8 m.reg; compare8 rhs lhs

  -- The operation of the byte group: its flags, then the write, but not for a comparison.
  unfoldable pub alu8 : ModRm → ℕ → ℕ → Exec F (Unit {0})
  alu8 m lhs imm =
      if m.reg == 0
      then (do flags_by (λ e. set_add_flags_n e lhs imm (add8 lhs imm) 8); put_rm8 m (add8 lhs imm))
      else if m.reg == 1
      then (do logic8 (bit_or lhs imm); put_rm8 m (bit_or lhs imm))
      else if m.reg == 4
      then (do logic8 (bit_and lhs imm); put_rm8 m (bit_and lhs imm))
      else if m.reg == 5
      then (do compare8 lhs imm; put_rm8 m (sub8 lhs imm))
      else if m.reg == 6
      then (do logic8 (bit_xor lhs imm); put_rm8 m (bit_xor lhs imm))
      else if m.reg == 7
      then compare8 lhs imm
      else raise unsupported

  -- 0x80
  unfoldable pub alu_rm8_imm8 : Exec F (Unit {0})
  alu_rm8_imm8 = do m ← decode_mod_rm; imm ← fetch8; lhs ← get_rm8 m; alu8 m lhs imm

  -- 0x84, 0x85, 0xA8, 0xA9
  unfoldable pub test_rm8_r8 : Exec F (Unit {0})
  test_rm8_r8 = do
    m ← decode_mod_rm
    lhs ← get_rm8 m
    rhs ← get_reg8 m.reg
    logic8 (bit_and lhs rhs)

  unfoldable pub test_al_imm8 : Exec F (Unit {0})
  test_al_imm8 = do imm ← fetch8; a ← get_reg8 0; logic8 (bit_and a imm)

  -- 0x3C, 0x3D, 0x2D
  unfoldable pub cmp_al_imm8 : Exec F (Unit {0})
  cmp_al_imm8 = do imm ← fetch8; a ← get_reg8 0; compare8 a imm

  -- 0x04, 0x05
  unfoldable pub add_al_imm8 : Exec F (Unit {0})
  add_al_imm8 = do
    v ← fetch8
    a ← get_reg8 0
    put_reg8 0 (u8 (a + v))
    flags_by (λ e. set_add_flags_n e a v (a + v) 8)

  -- 0x24, 0x0C
  unfoldable pub and_al_imm8 : Exec F (Unit {0})
  and_al_imm8 = do v ← fetch8; a ← get_reg8 0; put_reg8 0 (bit_and a v); logic8 (bit_and a v)

  unfoldable pub or_al_imm8 : Exec F (Unit {0})
  or_al_imm8 = do v ← fetch8; a ← get_reg8 0; put_reg8 0 (bit_or a v); logic8 (bit_or a v)

  -- 0x00, 0x02: the operand in memory or a register is written, or the register of the instruction
  unfoldable pub add_rm8_r8 : Exec F (Unit {0})
  add_rm8_r8 = do
    m ← decode_mod_rm
    lhs ← get_rm8 m
    rhs ← get_reg8 m.reg
    put_rm8 m (u8 (lhs + rhs))
    flags_by (λ e. set_add_flags_n e lhs rhs (lhs + rhs) 8)

  unfoldable pub add_r8_rm8 : Exec F (Unit {0})
  add_r8_rm8 = do
    m ← decode_mod_rm
    lhs ← get_reg8 m.reg
    rhs ← get_rm8 m
    put_reg8 m.reg (u8 (lhs + rhs))
    flags_by (λ e. set_add_flags_n e lhs rhs (lhs + rhs) 8)

  -- 0x08, 0x20 and 0x30 with the operation; 0x0A and 0x22
  unfoldable pub logic_rm8_r8 : (ℕ → ℕ → ℕ) → Exec F (Unit {0})
  logic_rm8_r8 f = do
    m ← decode_mod_rm
    lhs ← get_rm8 m
    rhs ← get_reg8 m.reg
    put_rm8 m (f lhs rhs)
    logic8 (f lhs rhs)

  unfoldable pub logic_r8_rm8 : (ℕ → ℕ → ℕ) → Exec F (Unit {0})
  logic_r8_rm8 f = do
    m ← decode_mod_rm
    lhs ← get_reg8 m.reg
    rhs ← get_rm8 m
    put_reg8 m.reg (f lhs rhs)
    logic8 (f lhs rhs)
