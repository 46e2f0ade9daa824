-- ===== src/Cpu/X87/Register.antt =====
-- internal/i386/cpu.go: the forms of `stepX87` that name registers of the x87 stack.
use ish_port_go.Prelude.{
  ℕ, ◌%◌, ◌==◌, not, leb, if◌then◌else◌, get_or, set, ok, err, x87_register, unsupported, bit_and,
  bit_or, and_not, ◌/◌,
}
use ish_port_go.Cpu.Exec.{Exec, raise, ◌>>=◌, ◌>>◌, nothing, get_reg, put_reg}
use ish_port_go.Cpu.X87.{
  Floats, slot, fpu_push, fpu_pop, fpu_st, fpu_put, fpu_compare, get_fpu_status, put_fpu_status,
}

module _ {F : Type 0} (fl : Floats F) where
  -- 0xD9 0xE1
  unfoldable pub fabs : Exec F (Unit {0})
  fabs = do value ← fpu_st fl 0; fpu_put 0 (fl.abs value)

  -- 0xD9 0xFA
  unfoldable pub fsqrt : Exec F (Unit {0})
  fsqrt = do value ← fpu_st fl 0; fpu_put 0 (fl.sqrt value)

  -- 0xD9 0xF8
  unfoldable pub fprem : Exec F (Unit {0})
  fprem = do
    dividend ← fpu_st fl 0
    divisor ← fpu_st fl 1
    fpu_put 0 (fl.fmod dividend divisor)
    status ← get_fpu_status
    put_fpu_status (and_not status 0x0400)

  -- 0xD9 0xE4
  unfoldable pub ftst : Exec F (Unit {0})
  ftst = do value ← fpu_st fl 0; fpu_compare fl value fl.zero

  -- 0xD9 0xC8 to 0xCF
  unfoldable pub fxch : ℕ → Exec F (Unit {0})
  fxch index c =
      let st0 = get_or c.fpu c.fpu_top fl.zero in
      let other = get_or c.fpu (slot c index) fl.zero in
      if leb c.fpu_count index
      then (err x87_register, c)
      else (ok tt, record c { fpu = set (set c.fpu c.fpu_top other) (slot c index) st0 })

  -- 0xD9 0xC0
  unfoldable pub fld_st0 : Exec F (Unit {0})
  fld_st0 = do value ← fpu_st fl 0; fpu_push value

  -- 0xDD 0xD8 to 0xDF
  unfoldable pub fstp_st : ℕ → Exec F (Unit {0})
  fstp_st modrm =
      if modrm == 0xd8
      then (do fpu_pop fl; nothing)
      else if not (modrm == 0xd9)
      then raise unsupported
      else (do value ← fpu_st fl 0; fpu_put 1 value; fpu_pop fl; nothing)

  -- lhs and rhs are read, and the result is put in a register.
  unfoldable pub combine : (F → F → F) → ℕ → ℕ → ℕ → Exec F (Unit {0})
  combine operation lhs_index rhs_index target = do
    lhs ← fpu_st fl lhs_index
    rhs ← fpu_st fl rhs_index
    fpu_put target (operation lhs rhs)

  -- 0xD8 0xC1
  unfoldable pub fadd_st0_st1 : Exec F (Unit {0})
  fadd_st0_st1 = combine fl.add 0 1 0

  -- 0xDC 0xC2
  unfoldable pub fadd_st2_st0 : Exec F (Unit {0})
  fadd_st2_st0 = combine fl.add 2 0 2

  -- 0xDE 0xE2
  unfoldable pub fsubrp : Exec F (Unit {0})
  fsubrp = do combine (λ lhs rhs. fl.sub rhs lhs) 2 0 2; fpu_pop fl; nothing

  -- 0xDE 0xC9
  unfoldable pub fmulp : Exec F (Unit {0})
  fmulp = do combine fl.mul 1 0 1; fpu_pop fl; nothing

  -- 0xDE 0xE9
  unfoldable pub fsubp : Exec F (Unit {0})
  fsubp = do combine fl.sub 1 0 1; fpu_pop fl; nothing

  -- 0xDE 0xC0 to 0xC7
  unfoldable pub faddp : ℕ → Exec F (Unit {0})
  faddp index = do combine fl.add index 0 index; fpu_pop fl; nothing

  -- 0xD8 0xD8 to 0xDF
  unfoldable pub fcomp : ℕ → Exec F (Unit {0})
  fcomp modrm = if not ((modrm / 8) % 8 == 3) then raise unsupported else (do
    lhs ← fpu_st fl 0
    rhs ← fpu_st fl (modrm % 8)
    fpu_compare fl lhs rhs
    fpu_pop fl
    nothing)

module _ {F : Type 0} where
  -- 0xDF 0xE0
  unfoldable pub fnstsw : Exec F (Unit {0})
  fnstsw = do
    status ← get_fpu_status
    eax ← get_reg 0
    put_reg 0 (bit_or (bit_and eax 0xffff_0000) status)
