-- ===== src/Cpu/Run/Total.antt =====
-- internal/i386/cpu.go: `Run` with a limit ends, and what it leaves of the guest.
use ish_port_go.Prelude.{
  ℕ, zero, suc, ◌+◌, ◌-◌, ◌%◌, ◌^◌, ◌<◌, ◌≡◌, ◌≢◌, refl, ◌∙◌, arith, Bool, true, false, Bool-cases,
  inl, inr, Option, some, Result, ok, err, length,
}
use mathlib.Core.Path.{subst}
use ish_port_go.Memory.Kept.{
  IsGuarded, IsGuarded-kept, KeepsMemory, KeepsMemory-refl, KeepsMemory-trans,
}
use ish_port_go.Cpu.{Cpu}
use ish_port_go.Cpu.Exec.{Exec}
use ish_port_go.Cpu.Exec.Confines.{IsStack}
use ish_port_go.Cpu.Safety.{Stepped, step-Confines, HandlerConfines}
use ish_port_go.Cpu.X87.{Floats}
use ish_port_go.Cpu.X87.Safety.{step_x87-Confines}
use ish_port_go.Cpu.X87.Step.{step_x87}
use ish_port_go.Cpu.Run.{cpu_step, goes_on, ended, next_round, run}

-- What a run of the loop leaves: the memory but for what is mapped writable, and the x87 registers well
-- formed; where it reports no error the CPU is halted.
pub record Ran {F : Type 0} (c : Cpu F) (r : Result (Unit {0}) × Cpu F) : Type 0 where
  pub memory : KeepsMemory c.mem r.1.mem
  pub regs_count : length r.1.regs ≡ length c.regs
  pub x87 : IsStack c → IsStack r.1
  pub halts : r.0 ≡ ok tt → r.1.halted ≡ true

module _ {F : Type 0} where
  goes_on-inv :
      (max_steps : ℕ) (c : Cpu F)
      → max_steps ≢ 0
      → goes_on max_steps c ≡ true
      → (c.halted ≡ false) × (c.steps < max_steps)
  unfolding goes_on
  goes_on-inv max_steps c limited more = ground (arith, limited)

  ended-halts :
      (max_steps : ℕ) (c : Cpu F) → max_steps ≢ 0 → ended max_steps c ≡ ok tt → c.halted ≡ true
  unfolding ended
  ended-halts max_steps c limited returned = ground (arith, limited)

  -- One round: the step, and what the rest of the loop leaves of its CPU.
  next_round-Ran :
      (rest : Cpu F → Option (Result (Unit {0}) × Cpu F)) (c : Cpu F)
      (p : Result (Unit {0}) × Cpu F)
      → Stepped false c p
      → ((d : Cpu F)
          → KeepsMemory c.mem d.mem
          → d.steps ≡ (c.steps + 1) % 2 ^ 64
          → (r : Result (Unit {0}) × Cpu F) × (rest d ≡ some r) × Ran d r)
      → (r : Result (Unit {0}) × Cpu F) × (next_round rest p ≡ some r) × Ran c r
  unfolding next_round
  next_round-Ran rest c (err e, d) stepped later = (
    (err e, d),
    refl,
    record {
      memory = stepped.memory;
      regs_count = stepped.regs_count;
      x87 = stepped.x87;
      halts = λ returned. absurd (cc (returned));
    },
  )
  next_round-Ran rest c (ok done, d) stepped later =
      let (r, same, ran) = later d stepped.memory (stepped.counted refl refl) in
      (
        r,
        same,
        record {
          memory = KeepsMemory-trans c.mem d.mem r.1.mem stepped.memory ran.memory;
          regs_count = ran.regs_count ∙ stepped.regs_count;
          x87 = λ s. ran.x87 (stepped.x87 s);
          halts = ran.halts;
        },
      )

module _ {F : Type 0} (fl : Floats F) (on_syscall : Option (Exec F (Unit {0})))
    (handler_safe : HandlerConfines on_syscall) where
  cpu_step-Stepped :
      (c : Cpu F) → IsGuarded c.mem → c.halted ≡ false → Stepped false c (cpu_step fl on_syscall c)
  unfolding cpu_step
  cpu_step-Stepped c g running =
      subst (λ (stopped : Bool). Stepped stopped c (cpu_step fl on_syscall c)) running
        (step-Confines (step_x87 fl) (step_x87-Confines fl) on_syscall handler_safe c g)

  -- With a limit on the number of steps, and fuel for the steps that are left to it, `Run` ends. From a
  -- CPU whose memory is protected over a well formed address space it leaves the size of the memory, the
  -- mappings and the number of registers as they were, and every byte that is not mapped writable, and
  -- keeps the x87 registers well formed; where it reports no error the CPU is halted. The x87
  -- instructions are those of the CPU; the handler of system calls is assumed to keep to the same, and
  -- to count no step.
  pub run_total :
      (fuel max_steps : ℕ) (c : Cpu F)
      → max_steps ≢ 0
      → max_steps < 2 ^ 64
      → max_steps - c.steps < fuel
      → IsGuarded c.mem
      → (r : Result (Unit {0}) × Cpu F) × (run fl on_syscall fuel max_steps c ≡ some r) × Ran c r
  unfolding run
  run_total zero max_steps c limited word enough g = absurd (omega arith)
  run_total (suc fuel) max_steps c limited word enough g = elim (Bool-cases (goes_on max_steps c)) [
    | inl more ↦
        let (running, below) = goes_on-inv max_steps c limited more in
        rw (run, more)
          (next_round-Ran (run fl on_syscall fuel max_steps) c (cpu_step fl on_syscall c)
            (cpu_step-Stepped c g running)
            (λ d kept counted.
              run_total fuel max_steps d limited word (omega (arith, counted, below, enough))
                (IsGuarded-kept c.mem d.mem kept g)))
    | inr stops ↦
        rw (run, stops)
          (
            (ended max_steps c, c),
            refl,
            record {
              memory = KeepsMemory-refl c.mem;
              regs_count = refl;
              x87 = λ s. s;
              halts = ended-halts max_steps c limited;
            },
          )
  ]
