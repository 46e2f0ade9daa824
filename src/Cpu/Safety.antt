-- ===== src/Cpu/Safety.antt =====
-- internal/i386/cpu.go: what `Step` may change, for every instruction, prefix and error.
pub mod Move
pub mod AluByte
pub mod Alu
pub mod AluCarry
pub mod Group
pub mod Unary
pub mod Shift
pub mod Bits
pub mod Strings
pub mod Flag
pub mod Prefix
pub mod Dispatch
use ish_port_go.Prelude.{
  ℕ, ◌+◌, ◌%◌, ◌^◌, ◌≡◌, refl, ap, ◌∙◌, Option, none, some, Bool, true, false, ok, err, Result,
  if◌then◌else◌, length,
}
use ish_port_go.Cpu.{Cpu}
use ish_port_go.Cpu.Exec.{Exec, ◌>>=◌, resume}
use ish_port_go.Cpu.Exec.Confines.{Confined, Confines, IsStack}
use ish_port_go.Cpu.Exec.Primitives.{confining}
use ish_port_go.Cpu.Step.{handle_interrupt, interrupt, other_step, execute, active_step, step}
use ish_port_go.Cpu.Step.Prefix.{Opcode, begin, read_opcode, finish}
use ish_port_go.Memory.Kept.{
  IsGuarded, IsGuarded-kept, KeepsMemory, KeepsMemory-refl, KeepsMemory-trans,
}
use Prefix.{begin-Confines, read_opcode-Confines}
use Dispatch.{simple_step-Confines, group_step-Confines, byte_step-Confines, word_step-Confines}

-- A handler of system calls, where there is one, stays within what the guest may write.
abbrev pub HandlerConfines : {F : Type 0} → Option (Exec F (Unit {0})) → Type 0
HandlerConfines none = Unit
HandlerConfines (some handler) = Confines handler

-- What a step leaves: the memory but for what is mapped writable, the number of registers, and the x87
-- registers well formed. A CPU that is not stopped counts the step, if it succeeds.
pub record Stepped {F : Type 0} (stopped : Bool) (c : Cpu F) (r : Result (Unit {0}) × Cpu F)
    : Type 0 where
  pub memory : KeepsMemory c.mem r.1.mem
  pub regs_count : length r.1.regs ≡ length c.regs
  pub x87 : IsStack c → IsStack r.1
  pub counted : stopped ≡ false → r.0 ≡ ok tt → r.1.steps ≡ (c.steps + 1) % 2 ^ 64

module _ {F : Type 0} where
  -- The count comes last, where all before has succeeded.
  finished :
      (c : Cpu F) (r : Result (Unit {0}) × Cpu F)
      → Confined c r.1
      → Stepped false c (resume (λ done. finish) r)
  unfolding resume finish
  finished c (ok done, d) kept = record {
    memory = kept.memory;
    regs_count = kept.regs_count;
    x87 = λ s.
        let t = kept.x87 s in
        record { registers = t.registers; top_small = t.top_small; count_small = t.count_small };
    counted = λ running returned. ap (λ (k : ℕ). (k + 1) % 2 ^ 64) kept.steps;
  }
  finished c (err e, d) kept = record {
    memory = kept.memory;
    regs_count = kept.regs_count;
    x87 = kept.x87;
    counted = λ running returned. absurd (cc (returned));
  }

  -- What comes before keeps the number of steps.
  Stepped-from :
      {A : Type 0} (c : Cpu F) (next : A → Exec F (Unit {0})) (r : Result A × Cpu F)
      → IsGuarded c.mem
      → Confined c r.1
      → ((a : A) (d : Cpu F) → IsGuarded d.mem → Stepped false d (next a d))
      → Stepped false c (resume next r)
  unfolding resume
  Stepped-from c next (ok a, d) g kept later =
      let after = later a d (IsGuarded-kept c.mem d.mem kept.memory g) in
      record {
        memory = KeepsMemory-trans c.mem d.mem (next a d).1.mem kept.memory after.memory;
        regs_count = after.regs_count ∙ kept.regs_count;
        x87 = λ s. after.x87 (kept.x87 s);
        counted = λ running returned.
            after.counted running returned ∙ ap (λ (k : ℕ). (k + 1) % 2 ^ 64) kept.steps;
      }
  Stepped-from c next (err e, d) g kept later = record {
    memory = kept.memory;
    regs_count = kept.regs_count;
    x87 = kept.x87;
    counted = λ running returned. absurd (cc (returned));
  }

  unless-Stepped :
      (c : Cpu F) (stopped : Bool) (next : Result (Unit {0}) × Cpu F)
      → Stepped false c next
      → Stepped stopped c (if stopped then (ok tt, c) else next)
  unless-Stepped c true next safe = record {
    memory = KeepsMemory-refl c.mem;
    regs_count = refl;
    x87 = λ s. s;
    counted = λ running returned. absurd (cc (running));
  }
  unless-Stepped c false next safe = safe

  handle_interrupt-Confines :
      (on_syscall : Option (Exec F (Unit {0}))) (vector : ℕ)
      → HandlerConfines on_syscall
      → Confines (handle_interrupt on_syscall vector)
  unfolding handle_interrupt
  handle_interrupt-Confines none vector safe = search confining
  handle_interrupt-Confines (some handler) vector safe = search confining

  module _ (x87 : ℕ → Exec F (Unit {0})) (x87_safe : (op : ℕ) → Confines (x87 op))
      (on_syscall : Option (Exec F (Unit {0}))) (handler_safe : HandlerConfines on_syscall) where
    interrupt-Confines : Confines (interrupt on_syscall)
    unfolding interrupt
    interrupt-Confines = search (confining, handle_interrupt-Confines)

    other_step-Confines : (op : ℕ) → Confines (other_step x87 on_syscall op)
    unfolding other_step
    other_step-Confines op = search (confining, interrupt-Confines)

    execute-Confines : (code : Opcode) → Confines (execute x87 on_syscall code)
    unfolding execute
    execute-Confines code = search (
      simple_step-Confines, group_step-Confines, byte_step-Confines, word_step-Confines,
      other_step-Confines,
    )

    active_step-Stepped :
        (c : Cpu F) → IsGuarded c.mem → Stepped false c (active_step x87 on_syscall c)
    unfolding active_step ◌>>=◌
    active_step-Stepped c g = Stepped-from c _ (begin c) g (begin-Confines.at c g) (λ start d h.
        Stepped-from d _ (read_opcode start d) h ((read_opcode-Confines start).at d h)
          (λ code e k. finished e (execute x87 on_syscall code e) ((execute-Confines code).at e k)))

    -- Whatever the opcode and its prefixes, and whether it succeeds or fails, a step of a CPU whose
    -- memory is protected over a well formed address space leaves the size of the memory, the mappings
    -- and the number of registers as they were, and every byte that is not mapped writable, and keeps
    -- the x87 registers well formed; if it succeeds on a CPU that is not halted, it counts one step. The
    -- x87 instructions and the handler of system calls are assumed to do the same, and to count no step.
    pub step-Confines : (c : Cpu F) → IsGuarded c.mem → Stepped c.halted c (step x87 on_syscall c)
    unfolding step
    step-Confines c g = unless-Stepped c c.halted _ (active_step-Stepped c g)
