-- ===== src/Cpu/Safety/Bits.antt =====
-- The actions of Cpu/Step/Bits stay within what the guest may write.
use ish_port_go.Prelude.{ℕ, Bool}
use ish_port_go.Cpu.Exec.Confines.{Confines}
use ish_port_go.Cpu.Exec.Primitives.{confining}
use ish_port_go.Cpu.Step.Bits.{
  setcc, bswap, bit_imm8, bit_reg, bit_scan_rm, cmpxchg, imul_r_rm, mov_extend8, mov_extend16,
}

module _ {F : Type 0} where
  pub setcc-Confines : (cc_code : ℕ) → Confines {F = F} (setcc cc_code)
  unfolding setcc
  setcc-Confines cc_code = search confining depth 40

  pub bswap-Confines : (r : ℕ) → Confines {F = F} (bswap r)
  unfolding bswap
  bswap-Confines r = search confining depth 40

  pub bit_imm8-Confines : Confines {F = F} bit_imm8
  unfolding bit_imm8
  bit_imm8-Confines = search confining depth 40

  pub bit_reg-Confines : (op : ℕ) → Confines {F = F} (bit_reg op)
  unfolding bit_reg
  bit_reg-Confines op = search confining depth 40

  pub bit_scan_rm-Confines : (forward : Bool) → Confines {F = F} (bit_scan_rm forward)
  unfolding bit_scan_rm
  bit_scan_rm-Confines forward = search confining depth 40

  pub cmpxchg-Confines : Confines {F = F} cmpxchg
  unfolding cmpxchg
  cmpxchg-Confines = search confining depth 40

  pub imul_r_rm-Confines : Confines {F = F} imul_r_rm
  unfolding imul_r_rm
  imul_r_rm-Confines = search confining depth 40

  pub mov_extend8-Confines : (is_signed : Bool) → Confines {F = F} (mov_extend8 is_signed)
  unfolding mov_extend8
  mov_extend8-Confines is_signed = search confining depth 40

  pub mov_extend16-Confines : (is_signed : Bool) → Confines {F = F} (mov_extend16 is_signed)
  unfolding mov_extend16
  mov_extend16-Confines is_signed = search confining depth 40

pub ruleset bit_rules = (
  setcc-Confines, bswap-Confines, bit_imm8-Confines, bit_reg-Confines, bit_scan_rm-Confines,
  cmpxchg-Confines, imul_r_rm-Confines, mov_extend8-Confines, mov_extend16-Confines,
)
