-- ===== src/Cpu/Step/Alu.antt =====
-- internal/i386/cpu.go, cases of `Step`: addition, subtraction, comparison and logic on words.
use ish_port_go.Prelude.{
  ℕ, Bool, ◌==◌, if◌then◌else◌, bit_and, bit_or, bit_xor, add32, sub32, u16, has,
}
use ish_port_go.Cpu.Flags.{
  set_add_flags, set_sub_flags, set_logic_flags, set_add_flags_n, set_logic_flags_n, flag_zf,
  flag_sf,
}
use ish_port_go.Cpu.Operand.{fetch16, fetch32, decode_mod_rm}
use ish_port_go.Cpu.Exec.{Exec, ◌>>=◌, ◌>>◌, get_reg, put_reg, flags_by, get_rm, put_rm}
use ish_port_go.Cpu.Step.Move.{eax, low16}

-- 0x0D, 0x25, 0x35, by the opcode
abbrev pub logic_of : ℕ → ℕ → ℕ → ℕ
logic_of op a imm =
    if op == 0x0d then bit_or a imm else if op == 0x25 then bit_and a imm else bit_xor a imm

module _ {F : Type 0} where
  unfoldable pub test_rm_r : Exec F (Unit {0})
  test_rm_r = do
    m ← decode_mod_rm
    lhs ← get_rm m
    rhs ← get_reg m.reg
    flags_by (λ e. set_logic_flags e (bit_and lhs rhs))

  unfoldable pub test_eax_imm32 : Exec F (Unit {0})
  test_eax_imm32 = do
    imm ← fetch32
    a ← get_reg eax
    flags_by (λ e. set_logic_flags e (bit_and a imm))

  unfoldable pub cmp_eax_imm32 : Exec F (Unit {0})
  cmp_eax_imm32 = do v ← fetch32; a ← get_reg eax; flags_by (λ e. set_sub_flags e a v (sub32 a v))

  unfoldable pub sub_eax_imm32 : Exec F (Unit {0})
  sub_eax_imm32 = do
    v ← fetch32
    a ← get_reg eax
    put_reg eax (sub32 a v)
    flags_by (λ e. set_sub_flags e a v (sub32 a v))

  unfoldable pub logic_eax_imm : Bool → ℕ → Exec F (Unit {0})
  logic_eax_imm operand16 op =
      if operand16
      then (do
        imm ← fetch16
        a ← get_reg eax
        put_reg eax (low16 a (logic_of op (u16 a) imm))
        flags_by (λ e. set_logic_flags_n e (logic_of op (u16 a) imm) 16))
      else (do
        imm ← fetch32
        a ← get_reg eax
        put_reg eax (logic_of op a imm)
        flags_by (λ e. set_logic_flags e (logic_of op a imm)))

  unfoldable pub add_eax_imm32 : Exec F (Unit {0})
  add_eax_imm32 = do
    v ← fetch32
    a ← get_reg eax
    put_reg eax (add32 a v)
    flags_by (λ e. set_add_flags_n e a v (add32 a v) 32)

  -- 0x09, 0x21 and 0x0B, 0x23 with the operation
  unfoldable pub logic_rm_r : (ℕ → ℕ → ℕ) → Exec F (Unit {0})
  logic_rm_r f = do
    m ← decode_mod_rm
    lhs ← get_rm m
    rhs ← get_reg m.reg
    flags_by (λ e. set_logic_flags e (f lhs rhs))
    put_rm m (f lhs rhs)

  unfoldable pub logic_r_rm : (ℕ → ℕ → ℕ) → Exec F (Unit {0})
  logic_r_rm f = do
    m ← decode_mod_rm
    lhs ← get_rm m
    rhs ← get_reg m.reg
    flags_by (λ e. set_logic_flags e (f lhs rhs))
    put_reg m.reg (f lhs rhs)

  -- 0x2A, which works on 32 bits; 0x2B is the same
  unfoldable pub sub_r_rm : Exec F (Unit {0})
  sub_r_rm = do
    m ← decode_mod_rm
    lhs ← get_rm m
    rhs ← get_reg m.reg
    flags_by (λ e. set_sub_flags e rhs lhs (sub32 rhs lhs))
    put_reg m.reg (sub32 rhs lhs)

  -- 0x01, 0x03
  unfoldable pub add_rm_r : Exec F (Unit {0})
  add_rm_r = do
    m ← decode_mod_rm
    rhs ← get_reg m.reg
    lhs ← get_rm m
    flags_by (λ e. set_add_flags e lhs rhs (add32 lhs rhs))
    put_rm m (add32 lhs rhs)

  unfoldable pub add_r_rm : Exec F (Unit {0})
  add_r_rm = do
    m ← decode_mod_rm
    rhs ← get_reg m.reg
    lhs ← get_rm m
    flags_by (λ e. set_add_flags e lhs rhs (add32 lhs rhs))
    put_reg m.reg (add32 lhs rhs)

  -- 0x29, 0x39, 0x3B
  unfoldable pub sub_rm_r : Exec F (Unit {0})
  sub_rm_r = do
    m ← decode_mod_rm
    rhs ← get_reg m.reg
    lhs ← get_rm m
    flags_by (λ e. set_sub_flags e lhs rhs (sub32 lhs rhs))
    put_rm m (sub32 lhs rhs)

  unfoldable pub cmp_rm_r : Exec F (Unit {0})
  cmp_rm_r = do
    m ← decode_mod_rm
    rhs ← get_reg m.reg
    lhs ← get_rm m
    flags_by (λ e. set_sub_flags e lhs rhs (sub32 lhs rhs))

  unfoldable pub cmp_r_rm : Exec F (Unit {0})
  cmp_r_rm = do
    m ← decode_mod_rm
    rhs ← get_reg m.reg
    lhs ← get_rm m
    flags_by (λ e. set_sub_flags e rhs lhs (sub32 rhs lhs))

  -- 0x31, 0x33: ZF and SF are raised once more, where they are raised
  unfoldable pub xor_flags : ℕ → Exec F (Unit {0})
  xor_flags result = do
    flags_by (λ e. set_logic_flags e result)
    flags_by (λ e. if result == 0 then bit_or e flag_zf else e)
    flags_by (λ e. if has result 0x8000_0000 then bit_or e flag_sf else e)

  unfoldable pub xor_rm_r : Exec F (Unit {0})
  xor_rm_r = do
    m ← decode_mod_rm
    rhs ← get_reg m.reg
    lhs ← get_rm m
    xor_flags (bit_xor lhs rhs)
    put_rm m (bit_xor lhs rhs)

  unfoldable pub xor_r_rm : Exec F (Unit {0})
  xor_r_rm = do
    m ← decode_mod_rm
    rhs ← get_reg m.reg
    lhs ← get_rm m
    xor_flags (bit_xor lhs rhs)
    put_reg m.reg (bit_xor lhs rhs)
