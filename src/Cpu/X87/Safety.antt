-- ===== src/Cpu/X87/Safety.antt =====
-- The x87 instructions stay within what the guest may write.
pub mod State
use ish_port_go.Prelude.{
  ℕ, ◌<◌, ◌≡◌, refl, arith, Bool, true, false, Result, if◌then◌else◌, length, leb, length-set, ◌∙◌,
  ◌+◌, ◌%◌, Bool-cases, inl, inr, ◌==◌, ◌||◌, length-append, ◌++◌,
}
use ish_port_go.Memory.{to_bytes}
use ish_port_go.Memory.Bytes.{length-to_bytes}
use ish_port_go.Cpu.{Cpu}
use ish_port_go.Cpu.Exec.{Exec, store_bytes}
use ish_port_go.Cpu.Exec.Confines.{
  Confined, Confined-refl, Confined-regs, Confined-x87, Confines, Confines-if, IsStack,
}
use ish_port_go.Cpu.Exec.Primitives.{confining, Confines-store_bytes, Confines-store32}
use ish_port_go.Cpu.X87.{
  Floats, fpu_push, fpu_pop, fpu_st, fpu_put, fpu_compare, extended80, get_fpu_status,
  put_fpu_status, get_fpu_control, put_fpu_control,
}
use ish_port_go.Cpu.X87.Register.{
  fabs, fsqrt, fprem, ftst, fxch, fld_st0, fstp_st, combine, fadd_st0_st1, fadd_st2_st0, fsubrp,
  fmulp, fsubp, faddp, fcomp, fnstsw,
}
use ish_port_go.Cpu.X87.Operand.{
  operand_address, control_word, fild_m32, fld_m80, fstp_m80, fistp_m32, fistp_m64, apply_to_st0,
  fadd_m32, fmul_m32, fmul_m64, fild_m64, fld_m32, fld_m64, fst_m64, fstp_m64,
}
use ish_port_go.Cpu.X87.Step.{
  register_forms, convert_forms, stack_forms, memory_forms, form_of, step_x87,
}
use ish_port_go.Cpu.X87.Safety.State.{
  x87_access, x87_state, fpu_push-Confines, fxch-Confines, fnstsw-Confines, control_word-Confines,
}

module _ {F : Type 0} (fl : Floats F) where
  fabs-Confines : Confines (fabs fl)
  unfolding fabs
  fabs-Confines = search (x87_access) depth 40

  fsqrt-Confines : Confines (fsqrt fl)
  unfolding fsqrt
  fsqrt-Confines = search (x87_access) depth 40

  fprem-Confines : Confines (fprem fl)
  unfolding fprem
  fprem-Confines = search (x87_access) depth 40

  ftst-Confines : Confines (ftst fl)
  unfolding ftst
  ftst-Confines = search (x87_access) depth 40

  fld_st0-Confines : Confines (fld_st0 fl)
  unfolding fld_st0
  fld_st0-Confines = search (x87_access) depth 40

  fstp_st-Confines : (modrm : ℕ) → Confines (fstp_st fl modrm)
  unfolding fstp_st
  fstp_st-Confines modrm = search (x87_access) depth 40

  combine-Confines :
      (operation : F → F → F) (lhs_index : ℕ) (rhs_index : ℕ) (target : ℕ)
      → Confines (combine fl operation lhs_index rhs_index target)
  unfolding combine
  combine-Confines operation lhs_index rhs_index target = search (x87_access) depth 40

  fadd_st0_st1-Confines : Confines (fadd_st0_st1 fl)
  unfolding fadd_st0_st1
  fadd_st0_st1-Confines = search (x87_access, combine-Confines) depth 40

  fadd_st2_st0-Confines : Confines (fadd_st2_st0 fl)
  unfolding fadd_st2_st0
  fadd_st2_st0-Confines = search (x87_access, combine-Confines) depth 40

  fsubrp-Confines : Confines (fsubrp fl)
  unfolding fsubrp
  fsubrp-Confines = search (x87_access, combine-Confines) depth 40

  fmulp-Confines : Confines (fmulp fl)
  unfolding fmulp
  fmulp-Confines = search (x87_access, combine-Confines) depth 40

  fsubp-Confines : Confines (fsubp fl)
  unfolding fsubp
  fsubp-Confines = search (x87_access, combine-Confines) depth 40

  faddp-Confines : (index : ℕ) → Confines (faddp fl index)
  unfolding faddp
  faddp-Confines index = search (x87_access, combine-Confines) depth 40

  fcomp-Confines : (modrm : ℕ) → Confines (fcomp fl modrm)
  unfolding fcomp
  fcomp-Confines modrm = search (x87_access) depth 40

  fild_m32-Confines : (modrm : ℕ) → Confines (fild_m32 fl modrm)
  unfolding fild_m32
  fild_m32-Confines modrm = search (x87_access) depth 40

  fld_m80-Confines : (modrm : ℕ) → Confines (fld_m80 fl modrm)
  unfolding fld_m80
  fld_m80-Confines modrm = search (x87_access) depth 40

  fstp_m80-Confines : (modrm : ℕ) → Confines (fstp_m80 fl modrm)
  unfolding fstp_m80
  fstp_m80-Confines modrm = search (x87_access) depth 40

  fistp_m32-Confines : (modrm : ℕ) → Confines (fistp_m32 fl modrm)
  unfolding fistp_m32
  fistp_m32-Confines modrm = search (x87_access) depth 40

  fistp_m64-Confines : (modrm : ℕ) → Confines (fistp_m64 fl modrm)
  unfolding fistp_m64
  fistp_m64-Confines modrm = search (x87_access) depth 40

  apply_to_st0-Confines :
      (operation : F → F → F) (operand : F) → Confines (apply_to_st0 fl operation operand)
  unfolding apply_to_st0
  apply_to_st0-Confines operation operand = search (x87_access) depth 40

  fadd_m32-Confines : (modrm : ℕ) → Confines (fadd_m32 fl modrm)
  unfolding fadd_m32
  fadd_m32-Confines modrm = search (x87_access, apply_to_st0-Confines) depth 40

  fmul_m32-Confines : (modrm : ℕ) → Confines (fmul_m32 fl modrm)
  unfolding fmul_m32
  fmul_m32-Confines modrm = search (x87_access, apply_to_st0-Confines) depth 40

  fmul_m64-Confines : (modrm : ℕ) → Confines (fmul_m64 fl modrm)
  unfolding fmul_m64
  fmul_m64-Confines modrm = search (x87_access, apply_to_st0-Confines) depth 40

  fild_m64-Confines : (modrm : ℕ) → Confines (fild_m64 fl modrm)
  unfolding fild_m64
  fild_m64-Confines modrm = search (x87_access) depth 40

  fld_m32-Confines : (modrm : ℕ) → Confines (fld_m32 fl modrm)
  unfolding fld_m32
  fld_m32-Confines modrm = search (x87_access) depth 40

  fld_m64-Confines : (modrm : ℕ) → Confines (fld_m64 fl modrm)
  unfolding fld_m64
  fld_m64-Confines modrm = search (x87_access) depth 40

  fst_m64-Confines : (modrm : ℕ) → Confines (fst_m64 fl modrm)
  unfolding fst_m64
  fst_m64-Confines modrm = search (x87_access) depth 40

  fstp_m64-Confines : (modrm : ℕ) → Confines (fstp_m64 fl modrm)
  unfolding fstp_m64
  fstp_m64-Confines modrm = search (x87_access) depth 40

ruleset x87_forms = (
  fabs-Confines, fsqrt-Confines, fprem-Confines, ftst-Confines, fxch-Confines, fld_st0-Confines,
  fstp_st-Confines, fadd_st0_st1-Confines, fadd_st2_st0-Confines, fsubrp-Confines, fmulp-Confines,
  fsubp-Confines, faddp-Confines, fcomp-Confines, fnstsw-Confines, control_word-Confines,
  fild_m32-Confines, fld_m80-Confines, fstp_m80-Confines, fistp_m32-Confines, fistp_m64-Confines,
  fadd_m32-Confines, fmul_m32-Confines, fmul_m64-Confines, fild_m64-Confines, fld_m32-Confines,
  fld_m64-Confines, fst_m64-Confines, fstp_m64-Confines, fpu_push-Confines,
)

module _ {F : Type 0} (fl : Floats F) where
  -- A group stays within when the cases after it do.
  module _ (op modrm : ℕ) (others : Exec F (Unit {0})) (safe : Confines others) where
    register_forms-Confines : Confines (register_forms fl op modrm others)
    unfolding register_forms
    register_forms-Confines = search (Confines-if, x87_forms) depth 40

    convert_forms-Confines : Confines (convert_forms fl op modrm others)
    unfolding convert_forms
    convert_forms-Confines = search (Confines-if, x87_forms) depth 40

    stack_forms-Confines : Confines (stack_forms fl op modrm others)
    unfolding stack_forms
    stack_forms-Confines = search (Confines-if, x87_forms) depth 40

    memory_forms-Confines : Confines (memory_forms fl op modrm others)
    unfolding memory_forms
    memory_forms-Confines = search (Confines-if, x87_forms) depth 40

  form_of-Confines : (op modrm : ℕ) → Confines (form_of fl op modrm)
  unfolding form_of
  form_of-Confines op modrm = search (
    register_forms-Confines, convert_forms-Confines, stack_forms-Confines, memory_forms-Confines,
    confining,
  )

  pub step_x87-Confines : (op : ℕ) → Confines (step_x87 fl op)
  unfolding step_x87
  step_x87-Confines op = search (confining, form_of-Confines)
