-- ===== src/Cpu/X87/Operand.antt =====
-- internal/i386/cpu.go: the forms of `stepX87` that name memory. The ModRM byte is read before.
use ish_port_go.Prelude.{ℕ, ◌%◌, ◌/◌, ◌==◌, if◌then◌else◌, add32, unsupported, u32}
use ish_port_go.Memory.{of_bytes, to_bytes}
use ish_port_go.Cpu.Operand.{decode_mod_rm_byte}
use ish_port_go.Cpu.Exec.{
  Exec, give, raise, ◌>>=◌, get_segment_base, load16, load32, load_bytes, store16, store32,
  store_bytes,
}
use ish_port_go.Cpu.X87.{
  Floats, fpu_push, fpu_pop, fpu_st, fpu_put, from_extended80, extended80, fpu_round,
  get_fpu_control, put_fpu_control,
}

module _ {F : Type 0} where
  -- The address of an operand in memory; a register is refused.
  unfoldable pub operand_address : ℕ → Exec F ℕ
  operand_address modrm = do
    m ← decode_mod_rm_byte modrm
    base ← get_segment_base
    if m.is_reg then raise unsupported else give (add32 m.addr base)

  -- 0xD9 /5 and /7
  unfoldable pub control_word : ℕ → Exec F (Unit {0})
  control_word modrm = do
    addr ← operand_address modrm
    (if (modrm / 8) % 8 == 5
        then (do value ← load16 addr; put_fpu_control value)
        else (do control ← get_fpu_control; store16 addr control))

module _ {F : Type 0} (fl : Floats F) where
  -- 0xDB /0
  unfoldable pub fild_m32 : ℕ → Exec F (Unit {0})
  fild_m32 modrm = do addr ← operand_address modrm; bits ← load32 addr; fpu_push (fl.of_int32 bits)

  -- 0xDB /5
  unfoldable pub fld_m80 : ℕ → Exec F (Unit {0})
  fld_m80 modrm = do
    addr ← operand_address modrm
    bytes ← load_bytes addr 10
    fpu_push (from_extended80 fl bytes)

  -- 0xDB /7
  unfoldable pub fstp_m80 : ℕ → Exec F (Unit {0})
  fstp_m80 modrm = do
    addr ← operand_address modrm
    value ← fpu_pop fl
    store_bytes addr (extended80 fl value)

  -- 0xDB /3
  unfoldable pub fistp_m32 : ℕ → Exec F (Unit {0})
  fistp_m32 modrm = do
    addr ← operand_address modrm
    value ← fpu_pop fl
    control ← get_fpu_control
    store32 addr (u32 (fpu_round fl value control))

  -- 0xDF /7
  unfoldable pub fistp_m64 : ℕ → Exec F (Unit {0})
  fistp_m64 modrm = do
    addr ← operand_address modrm
    value ← fpu_pop fl
    control ← get_fpu_control
    store_bytes addr (to_bytes 8 (fpu_round fl value control))

  -- The operation on ST(0) and a factor or summand that is read before it.
  unfoldable pub apply_to_st0 : (F → F → F) → F → Exec F (Unit {0})
  apply_to_st0 operation operand = do value ← fpu_st fl 0; fpu_put 0 (operation value operand)

  -- 0xD8 /0
  unfoldable pub fadd_m32 : ℕ → Exec F (Unit {0})
  fadd_m32 modrm = do
    addr ← operand_address modrm
    bits ← load32 addr
    apply_to_st0 fl.add (fl.of_bits32 bits)

  -- 0xD8 /1
  unfoldable pub fmul_m32 : ℕ → Exec F (Unit {0})
  fmul_m32 modrm = do
    addr ← operand_address modrm
    bits ← load32 addr
    apply_to_st0 fl.mul (fl.of_bits32 bits)

  -- 0xDC /1
  unfoldable pub fmul_m64 : ℕ → Exec F (Unit {0})
  fmul_m64 modrm = do
    addr ← operand_address modrm
    bytes ← load_bytes addr 8
    apply_to_st0 fl.mul (fl.of_bits64 (of_bytes bytes))

  -- 0xDF /5
  unfoldable pub fild_m64 : ℕ → Exec F (Unit {0})
  fild_m64 modrm = do
    addr ← operand_address modrm
    bytes ← load_bytes addr 8
    fpu_push (fl.of_int64 (of_bytes bytes))

  -- 0xD9 /0
  unfoldable pub fld_m32 : ℕ → Exec F (Unit {0})
  fld_m32 modrm = do addr ← operand_address modrm; bits ← load32 addr; fpu_push (fl.of_bits32 bits)

  -- 0xDD /0
  unfoldable pub fld_m64 : ℕ → Exec F (Unit {0})
  fld_m64 modrm = do
    addr ← operand_address modrm
    bytes ← load_bytes addr 8
    fpu_push (fl.of_bits64 (of_bytes bytes))

  -- 0xDD /2
  unfoldable pub fst_m64 : ℕ → Exec F (Unit {0})
  fst_m64 modrm = do
    addr ← operand_address modrm
    value ← fpu_st fl 0
    store_bytes addr (to_bytes 8 (fl.to_bits64 value))

  -- 0xDD /3
  unfoldable pub fstp_m64 : ℕ → Exec F (Unit {0})
  fstp_m64 modrm = do
    addr ← operand_address modrm
    value ← fpu_pop fl
    store_bytes addr (to_bytes 8 (fl.to_bits64 value))
