-- ===== src/Cpu/Run.antt =====
-- internal/i386/cpu.go: `Step` with the x87 instructions, and `Run`.
pub mod Total
mod Tests
use ish_port_go.Prelude.{
  ℕ, zero, suc, ◌&&◌, ◌||◌, not, ◌==◌, ltb, Bool, true, false, if◌then◌else◌, Option, none, some,
  Result, ok, err, instruction_limit,
}
use ish_port_go.Cpu.{Cpu}
use ish_port_go.Cpu.Exec.{Exec}
use ish_port_go.Cpu.Step.{step}
use ish_port_go.Cpu.X87.{Floats}
use ish_port_go.Cpu.X87.Step.{step_x87}

module _ {F : Type 0} where
  -- The condition of the loop.
  unfoldable pub goes_on : ℕ → Cpu F → Bool
  goes_on max_steps c = not c.halted && (max_steps == 0 || ltb c.steps max_steps)

  -- After the loop.
  unfoldable pub ended : ℕ → Cpu F → Result (Unit {0})
  ended max_steps c = if not c.halted && not (max_steps == 0) then err instruction_limit else ok tt

  -- The rest of the loop after a step, which an error ends.
  unfoldable pub next_round :
      (Cpu F → Option (Result (Unit {0}) × Cpu F))
      → Result (Unit {0}) × Cpu F
      → Option (Result (Unit {0}) × Cpu F)
  next_round rest (ok done, d) = rest d
  next_round rest (err e, d) = some (err e, d)

module _ {F : Type 0} (fl : Floats F) (on_syscall : Option (Exec F (Unit {0}))) where
  unfoldable pub cpu_step : Exec F (Unit {0})
  cpu_step = step (step_x87 fl) on_syscall

  -- `none` means that the fuel ran out.
  unfoldable pub run : ℕ → ℕ → Cpu F → Option (Result (Unit {0}) × Cpu F)
  unfolding goes_on ended next_round
  run zero max_steps c = none
  run (suc fuel) max_steps c = elim (goes_on max_steps c) [
    | false ↦ some (ended max_steps c, c)
    | true ↦ next_round (run fuel max_steps) (cpu_step c)
  ]
