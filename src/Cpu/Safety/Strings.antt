-- ===== src/Cpu/Safety/Strings.antt =====
-- The actions of Cpu/Step/Strings stay within what the guest may write.
use ish_port_go.Prelude.{ℕ, zero, suc, Bool}
use ish_port_go.Cpu.Exec.{Exec}
use ish_port_go.Cpu.Exec.Confines.{Confines}
use ish_port_go.Cpu.Exec.Primitives.{confining}
use ish_port_go.Cpu.Step.Strings.{
  repeat_count, string_step, move_item, advance, movs_round, movs, stos_round, stos,
}
use ish_port_go.Cpu.Step.Strings.{times}

module _ {F : Type 0} where
  pub repeat_count-Confines : (rep : Bool) → Confines {F = F} (repeat_count rep)
  unfolding repeat_count
  repeat_count-Confines rep = search confining depth 40

  pub string_step-Confines : (wide : Bool) → Confines {F = F} (string_step wide)
  unfolding string_step
  string_step-Confines wide = search confining depth 40

  pub move_item-Confines : (wide : Bool) → Confines {F = F} (move_item wide)
  unfolding move_item
  move_item-Confines wide = search confining depth 40

  pub advance-Confines : (r : ℕ) (by : ℕ) → Confines {F = F} (advance r by)
  unfolding advance
  advance-Confines r by = search confining depth 40

  pub movs_round-Confines : (wide : Bool) (by : ℕ) → Confines {F = F} (movs_round wide by)
  unfolding movs_round
  movs_round-Confines wide by = search (confining, move_item-Confines, advance-Confines) depth 40

  pub times-Confines : (n : ℕ) (body : Exec F (Unit {0})) → Confines body → Confines (times n body)
  unfolding times
  times-Confines zero body safe = search confining
  times-Confines (suc n) body safe = search (confining, times-Confines n)

  pub movs-Confines : (rep : Bool) (wide : Bool) → Confines {F = F} (movs rep wide)
  unfolding movs
  movs-Confines rep wide =
      search
        (
          confining, repeat_count-Confines, string_step-Confines, movs_round-Confines,
          times-Confines,
        )
        depth 40

  pub stos_round-Confines : (wide : Bool) (by : ℕ) → Confines {F = F} (stos_round wide by)
  unfolding stos_round
  stos_round-Confines wide by = search (confining, advance-Confines) depth 40

  pub stos-Confines : (rep : Bool) (wide : Bool) → Confines {F = F} (stos rep wide)
  unfolding stos
  stos-Confines rep wide =
      search
        (
          confining, repeat_count-Confines, string_step-Confines, stos_round-Confines,
          times-Confines,
        )
        depth 40

pub ruleset string_rules = (
  repeat_count-Confines, string_step-Confines, move_item-Confines, advance-Confines,
  movs_round-Confines, movs-Confines, stos_round-Confines, stos-Confines,
)
