-- ===== src/Cpu/Safety/Flag.antt =====
-- The actions of Cpu/Step/Flag stay within what the guest may write.
use ish_port_go.Prelude.{ℕ, refl, length-set}
use ish_port_go.Cpu.Exec.Confines.{Confines, Confined-regs}
use ish_port_go.Cpu.Exec.Primitives.{confining}
use ish_port_go.Cpu.Step.Flag.{sahf, clear_flag, set_flag, inc_r32, dec_r32}
use ish_port_go.Cpu.Count.{inc_reg, dec_reg}

module _ {F : Type 0} where
  pub sahf-Confines : Confines {F = F} sahf
  unfolding sahf
  sahf-Confines = search confining depth 40

  pub clear_flag-Confines : (flag : ℕ) → Confines {F = F} (clear_flag flag)
  unfolding clear_flag
  clear_flag-Confines flag = search confining depth 40

  pub set_flag-Confines : (flag : ℕ) → Confines {F = F} (set_flag flag)
  unfolding set_flag
  set_flag-Confines flag = search confining depth 40

  pub inc_r32-Confines : (r : ℕ) → Confines {F = F} (inc_r32 r)
  unfolding inc_r32 inc_reg
  inc_r32-Confines r = record { at = λ c g. Confined-regs c _ refl refl (length-set c.regs r _) }

  pub dec_r32-Confines : (r : ℕ) → Confines {F = F} (dec_r32 r)
  unfolding dec_r32 dec_reg
  dec_r32-Confines r = record { at = λ c g. Confined-regs c _ refl refl (length-set c.regs r _) }

pub ruleset flag_rules =
    (sahf-Confines, clear_flag-Confines, set_flag-Confines, inc_r32-Confines, dec_r32-Confines)
