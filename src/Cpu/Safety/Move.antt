-- ===== src/Cpu/Safety/Move.antt =====
-- The actions of Cpu/Step/Move stay within what the guest may write.
use ish_port_go.Prelude.{ℕ, Bool}
use ish_port_go.Cpu.Exec.Confines.{Confines}
use ish_port_go.Cpu.Exec.Primitives.{confining}
use ish_port_go.Cpu.Step.Move.{
  mov_r8_imm8, mov_r32_imm32, push_r32, pop_r32, push_imm32, push_imm8, cdq, xchg_eax, ret_near,
  ret_imm16, leave, jump_by, call_rel32, jmp_rel32, jmp_rel8, jcc_rel8, jcc_rel32, mov_rm8_imm8,
  mov_rm_imm, xchg_rm, mov_moffs, mov_sreg, mov_rm8_r8, mov_r8_rm8, mov_rm_r, mov_r_rm, lea,
}

module _ {F : Type 0} where
  pub mov_r8_imm8-Confines : (r : ℕ) → Confines {F = F} (mov_r8_imm8 r)
  unfolding mov_r8_imm8
  mov_r8_imm8-Confines r = search confining depth 40

  pub mov_r32_imm32-Confines : (r : ℕ) → Confines {F = F} (mov_r32_imm32 r)
  unfolding mov_r32_imm32
  mov_r32_imm32-Confines r = search confining depth 40

  pub push_r32-Confines : (r : ℕ) → Confines {F = F} (push_r32 r)
  unfolding push_r32
  push_r32-Confines r = search confining depth 40

  pub pop_r32-Confines : (r : ℕ) → Confines {F = F} (pop_r32 r)
  unfolding pop_r32
  pop_r32-Confines r = search confining depth 40

  pub push_imm32-Confines : Confines {F = F} push_imm32
  unfolding push_imm32
  push_imm32-Confines = search confining depth 40

  pub push_imm8-Confines : Confines {F = F} push_imm8
  unfolding push_imm8
  push_imm8-Confines = search confining depth 40

  pub cdq-Confines : Confines {F = F} cdq
  unfolding cdq
  cdq-Confines = search confining depth 40

  pub xchg_eax-Confines : (r : ℕ) → Confines {F = F} (xchg_eax r)
  unfolding xchg_eax
  xchg_eax-Confines r = search confining depth 40

  pub ret_near-Confines : Confines {F = F} ret_near
  unfolding ret_near
  ret_near-Confines = search confining depth 40

  pub ret_imm16-Confines : Confines {F = F} ret_imm16
  unfolding ret_imm16
  ret_imm16-Confines = search confining depth 40

  pub leave-Confines : Confines {F = F} leave
  unfolding leave
  leave-Confines = search confining depth 40

  pub jump_by-Confines : (rel : ℕ) → Confines {F = F} (jump_by rel)
  unfolding jump_by
  jump_by-Confines rel = search confining depth 40

  pub call_rel32-Confines : Confines {F = F} call_rel32
  unfolding call_rel32
  call_rel32-Confines = search (confining, jump_by-Confines) depth 40

  pub jmp_rel32-Confines : Confines {F = F} jmp_rel32
  unfolding jmp_rel32
  jmp_rel32-Confines = search (confining, jump_by-Confines) depth 40

  pub jmp_rel8-Confines : Confines {F = F} jmp_rel8
  unfolding jmp_rel8
  jmp_rel8-Confines = search (confining, jump_by-Confines) depth 40

  pub jcc_rel8-Confines : (cc_code : ℕ) → Confines {F = F} (jcc_rel8 cc_code)
  unfolding jcc_rel8
  jcc_rel8-Confines cc_code = search (confining, jump_by-Confines) depth 40

  pub jcc_rel32-Confines : (cc_code : ℕ) → Confines {F = F} (jcc_rel32 cc_code)
  unfolding jcc_rel32
  jcc_rel32-Confines cc_code = search (confining, jump_by-Confines) depth 40

  pub mov_rm8_imm8-Confines : Confines {F = F} mov_rm8_imm8
  unfolding mov_rm8_imm8
  mov_rm8_imm8-Confines = search confining depth 40

  pub mov_rm_imm-Confines : (operand16 : Bool) → Confines {F = F} (mov_rm_imm operand16)
  unfolding mov_rm_imm
  mov_rm_imm-Confines operand16 = search confining depth 40

  pub xchg_rm-Confines : Confines {F = F} xchg_rm
  unfolding xchg_rm
  xchg_rm-Confines = search confining depth 40

  pub mov_moffs-Confines : (op : ℕ) → Confines {F = F} (mov_moffs op)
  unfolding mov_moffs
  mov_moffs-Confines op = search confining depth 40

  pub mov_sreg-Confines : Confines {F = F} mov_sreg
  unfolding mov_sreg
  mov_sreg-Confines = search confining depth 40

  pub mov_rm8_r8-Confines : Confines {F = F} mov_rm8_r8
  unfolding mov_rm8_r8
  mov_rm8_r8-Confines = search confining depth 40

  pub mov_r8_rm8-Confines : Confines {F = F} mov_r8_rm8
  unfolding mov_r8_rm8
  mov_r8_rm8-Confines = search confining depth 40

  pub mov_rm_r-Confines : (operand16 : Bool) → Confines {F = F} (mov_rm_r operand16)
  unfolding mov_rm_r
  mov_rm_r-Confines operand16 = search confining depth 40

  pub mov_r_rm-Confines : (operand16 : Bool) → Confines {F = F} (mov_r_rm operand16)
  unfolding mov_r_rm
  mov_r_rm-Confines operand16 = search confining depth 40

  pub lea-Confines : Confines {F = F} lea
  unfolding lea
  lea-Confines = search confining depth 40

pub ruleset move_rules = (
  mov_r8_imm8-Confines, mov_r32_imm32-Confines, push_r32-Confines, pop_r32-Confines,
  push_imm32-Confines, push_imm8-Confines, cdq-Confines, xchg_eax-Confines, ret_near-Confines,
  ret_imm16-Confines, leave-Confines, jump_by-Confines, call_rel32-Confines, jmp_rel32-Confines,
  jmp_rel8-Confines, jcc_rel8-Confines, jcc_rel32-Confines, mov_rm8_imm8-Confines,
  mov_rm_imm-Confines, xchg_rm-Confines, mov_moffs-Confines, mov_sreg-Confines, mov_rm8_r8-Confines,
  mov_r8_rm8-Confines, mov_rm_r-Confines, mov_r_rm-Confines, lea-Confines,
)
