-- ===== src/Cpu/X87/Step.antt =====
-- internal/i386/cpu.go: `stepX87`. One case is chosen by the opcode and the ModRM byte, in the order of
-- the source: four groups, each before `others`.
use ish_port_go.Prelude.{
  ℕ, ◌/◌, ◌%◌, Bool, ◌&&◌, ◌||◌, not, ◌==◌, if◌then◌else◌, bit_and, unsupported,
}
use ish_port_go.Cpu.Operand.{fetch8}
use ish_port_go.Cpu.Exec.{Exec, raise, ◌>>=◌}
use ish_port_go.Cpu.Step.Cases.{from_to}
use ish_port_go.Cpu.X87.{Floats, fpu_push}
use ish_port_go.Cpu.X87.Register.{
  fabs, fsqrt, fprem, ftst, fnstsw, fxch, fld_st0, fstp_st, fsubrp, fadd_st0_st1, fadd_st2_st0,
  fmulp, fsubp, faddp, fcomp,
}
use ish_port_go.Cpu.X87.Operand.{
  control_word, fild_m32, fld_m80, fstp_m80, fistp_m32, fistp_m64, fadd_m32, fmul_m32, fmul_m64,
  fild_m64, fld_m32, fld_m64, fst_m64, fstp_m64,
}

-- (modrm >> 3) & 7
abbrev pub extension : ℕ → ℕ
extension modrm = (modrm / 8) % 8

abbrev pub names_memory : ℕ → Bool
names_memory modrm = not (bit_and modrm 0xc0 == 0xc0)

module _ {F : Type 0} (fl : Floats F) (op modrm : ℕ) where
  unfoldable pub register_forms : Exec F (Unit {0}) → Exec F (Unit {0})
  register_forms others =
      if op == 0xd9 && modrm == 0xee
      then fpu_push fl.zero
      else if op == 0xd9 && modrm == 0xe8
      then fpu_push fl.one
      else if op == 0xd9 && modrm == 0xe1
      then fabs fl
      else if op == 0xd9 && modrm == 0xfa
      then fsqrt fl
      else if op == 0xd9 && modrm == 0xf8
      then fprem fl
      else if op == 0xd9 && modrm == 0xe4
      then ftst fl
      else if op == 0xdf && modrm == 0xe0
      then fnstsw
      else if op == 0xd9 && from_to modrm 0xc8 0xcf
      then fxch fl (modrm % 8)
      else if op == 0xd9 && modrm == 0xc0
      then fld_st0 fl
      else others

  unfoldable pub convert_forms : Exec F (Unit {0}) → Exec F (Unit {0})
  convert_forms others =
      if op == 0xd9 && (extension modrm == 5 || extension modrm == 7) && names_memory modrm
      then control_word modrm
      else if op == 0xdb && extension modrm == 0 && names_memory modrm
      then fild_m32 fl modrm
      else if op == 0xdb && extension modrm == 5 && names_memory modrm
      then fld_m80 fl modrm
      else if op == 0xdb && extension modrm == 7 && names_memory modrm
      then fstp_m80 fl modrm
      else if op == 0xdb && extension modrm == 3 && names_memory modrm
      then fistp_m32 fl modrm
      else if op == 0xdf && extension modrm == 7 && names_memory modrm
      then fistp_m64 fl modrm
      else others

  unfoldable pub stack_forms : Exec F (Unit {0}) → Exec F (Unit {0})
  stack_forms others =
      if op == 0xdd && from_to modrm 0xd8 0xdf
      then fstp_st fl modrm
      else if op == 0xde && modrm == 0xe2
      then fsubrp fl
      else if op == 0xd8 && modrm == 0xc1
      then fadd_st0_st1 fl
      else if op == 0xdc && modrm == 0xc2
      then fadd_st2_st0 fl
      else if op == 0xde && modrm == 0xc9
      then fmulp fl
      else if op == 0xde && modrm == 0xe9
      then fsubp fl
      else if op == 0xde && from_to modrm 0xc0 0xc7 && extension modrm == 0
      then faddp fl (modrm % 8)
      else if op == 0xd8 && from_to modrm 0xd8 0xdf
      then fcomp fl modrm
      else others

  unfoldable pub memory_forms : Exec F (Unit {0}) → Exec F (Unit {0})
  memory_forms others =
      if op == 0xd8 && extension modrm == 0
      then fadd_m32 fl modrm
      else if op == 0xd8 && extension modrm == 1
      then fmul_m32 fl modrm
      else if op == 0xdc && extension modrm == 1
      then fmul_m64 fl modrm
      else if op == 0xdf && extension modrm == 5
      then fild_m64 fl modrm
      else if op == 0xd9 && extension modrm == 0
      then fld_m32 fl modrm
      else if op == 0xdd && extension modrm == 0
      then fld_m64 fl modrm
      else if op == 0xdd && extension modrm == 2
      then fst_m64 fl modrm
      else if op == 0xdd && extension modrm == 3
      then fstp_m64 fl modrm
      else others

module _ {F : Type 0} (fl : Floats F) where
  unfoldable pub form_of : ℕ → ℕ → Exec F (Unit {0})
  form_of op modrm = register_forms fl op modrm (
      convert_forms fl op modrm
        (stack_forms fl op modrm (memory_forms fl op modrm (raise unsupported))))

  unfoldable pub step_x87 : ℕ → Exec F (Unit {0})
  step_x87 op = do modrm ← fetch8; form_of op modrm
