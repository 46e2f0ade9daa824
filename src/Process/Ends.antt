-- ===== src/Process/Ends.antt =====
-- internal/guest/process.go: how a process ends, and what a signal without a handler does.
use ish_port_go.Prelude.{
  ℕ, ◌+◌, ◌%◌, ◌^◌, ◌≡◌, refl, ◌∙◌, Bool, true, false, ◌==◌, if◌then◌else◌, Option, none, some,
  Result, ok, err, Error, privileged_halt,
}
use ish_port_go.Cpu.{Cpu}
use ish_port_go.Signal.{SignalAction, deliver_signal}
use ish_port_go.Signal.Pending.{SignalState, take_pending}
use ish_port_go.Scheduler.{State, ready, running, exited, faulted, blocked}
use ish_port_go.Process.{
  Process, Machine, Runtime, fail, leave, with_kernel, is_ignored, default_action, delivered,
  release, after_step, executed, signalled, active, retried, step_in, step,
}

-- A process that has exited has the code of its kernel, which has exited as well, and one that has failed
-- has an error to report.
pub record IsSound {F : Type 0} (p : Process F) : Type 0 where
  pub exits :
      p.state ≡ exited
      → (p.machine.kernel.has_exited ≡ true) × (p.exit_code ≡ p.machine.kernel.exit_code)
  pub faults : p.state ≡ faulted → (e : Error) × (p.fault ≡ some e)

module _ {F : Type 0} where
  fail-IsSound : (e : Error) (p : Process F) → IsSound (fail e p).1
  unfolding fail
  fail-IsSound e p = record { exits = λ same. absurd (cc (same)); faults = λ same. (e, refl) }

  leave-IsSound : (p : Process F) → p.machine.kernel.has_exited ≡ true → IsSound (leave p).1
  unfolding leave
  leave-IsSound p done = record {
    exits = λ same. (done, refl);
    faults = λ same. absurd (cc (same));
  }

  -- A process in another state has nothing to show.
  other-IsSound :
      (p : Process F) (s : State) → s ≡ p.state → (s ≡ exited → ⊥) → (s ≡ faulted → ⊥) → IsSound p
  other-IsSound p s same not_exited not_faulted = record {
    exits = λ is_exited. absurd (not_exited (cc (is_exited, same)));
    faults = λ is_faulted. absurd (not_faulted (cc (is_faulted, same)));
  }

  running-IsSound : (p : Process F) → running ≡ p.state → IsSound p
  running-IsSound p same = other-IsSound p running same (λ e. cc) (λ e. cc)

  blocked-IsSound : (p : Process F) → blocked ≡ p.state → IsSound p
  blocked-IsSound p same = other-IsSound p blocked same (λ e. cc) (λ e. cc)

  IsSound-if :
      (test : Bool) (this other : Result (Unit {0}) × Process F)
      → (test ≡ true → IsSound this.1)
      → (test ≡ false → IsSound other.1)
      → IsSound (if test then this else other).1
  IsSound-if true this other p q = p refl
  IsSound-if false this other p q = q refl

  release-has_exited :
      (thread : Bool) (m : Machine F) → (release thread m).kernel.has_exited ≡ m.kernel.has_exited
  unfolding release
  release-has_exited true m = refl
  release-has_exited false m = refl

  after_step-IsSound : (p : Process F) → running ≡ p.state → IsSound (after_step p).1
  unfolding after_step
  after_step-IsSound p is_running =
      IsSound-if p.machine.kernel.waits _ _ (λ waits. blocked-IsSound _ refl)
        (λ goes.
          IsSound-if p.machine.kernel.has_exited _ _
            (λ done.
              leave-IsSound (record p { machine = release p.machine.kernel.thread p.machine })
                (release-has_exited p.machine.kernel.thread p.machine ∙ done))
            (λ still.
              IsSound-if p.machine.cpu.halted _ _ (λ halts. fail-IsSound privileged_halt p)
                (λ runs. running-IsSound p is_running)))

  default_action-IsSound :
      (signal : ℕ) (p : Process F) → running ≡ p.state → IsSound (default_action signal p).1
  unfolding default_action
  default_action-IsSound signal p is_running =
      IsSound-if (is_ignored signal) _ _ (λ ignored. running-IsSound p is_running)
        (λ kills.
          leave-IsSound
            (with_kernel
              (record p.machine.kernel { has_exited = true; exit_code = (128 + signal) % 2 ^ 32 })
              p)
            refl)

  delivered-IsSound :
      (p : Process F) (d : Result (Unit {0}) × ℕ × Cpu F)
      → running ≡ p.state
      → IsSound (delivered p d).1
  unfolding delivered
  delivered-IsSound p (ok done, mask, c) is_running = running-IsSound _ is_running
  delivered-IsSound p (err e, mask, c) is_running = fail-IsSound e (record p {
    machine = record p.machine {
      cpu = c;
      kernel = record p.machine.kernel {
        signals = record p.machine.kernel.signals { mask = mask };
      };
    };
  })

module _ {F : Type 0} (r : Runtime F) where
  executed-IsSound :
      (p : Process F) (d : Result (Unit {0}) × Machine F)
      → running ≡ p.state
      → IsSound (executed r p d).1
  unfolding executed
  executed-IsSound p (ok done, m) is_running =
      after_step-IsSound (record p { machine = m; steps = (p.steps + 1) % 2 ^ 64 }) is_running
  executed-IsSound p (err e, m) is_running = fail-IsSound e (record p { machine = m })

  signalled-IsSound :
      (p : Process F) (t : Option (ℕ × SignalAction) × SignalState)
      → running ≡ p.state
      → IsSound (signalled r p t).1
  unfolding signalled
  signalled-IsSound p (none, s) is_running =
      executed-IsSound (with_kernel (record p.machine.kernel { signals = s }) p)
        (r.cpu_step (record p.machine { kernel = record p.machine.kernel { signals = s } }))
        is_running
  signalled-IsSound p (some (signal, action), s) is_running =
      let q = with_kernel (record p.machine.kernel { signals = s }) p in
      IsSound-if (action.handler == 0) _ _ (λ bare. default_action-IsSound signal q is_running)
        (λ handled.
          delivered-IsSound q (deliver_signal r.float_bits s.mask p.machine.cpu signal action)
            is_running)

  active-IsSound : (p : Process F) → IsSound (active r p).1
  unfolding active
  active-IsSound p =
      signalled-IsSound (record p { state = running }) (take_pending p.machine.kernel.signals) refl

  retried-IsSound :
      (p : Process F) (b : Bool × Machine F) → blocked ≡ p.state → IsSound (retried r p b).1
  unfolding retried
  retried-IsSound p (true, m) is_blocked = active-IsSound (record p { machine = m })
  retried-IsSound p (false, m) is_blocked = blocked-IsSound (record p { machine = m }) is_blocked

  by_state-IsSound :
      (p : Process F) (s : State) → s ≡ p.state → IsSound p → IsSound (step_in r s p).1
  unfolding step_in
  by_state-IsSound p exited same sound = sound
  by_state-IsSound p faulted same sound = sound
  by_state-IsSound p blocked same sound = retried-IsSound p (r.try_resume_blocked p.machine) same
  by_state-IsSound p ready same sound = active-IsSound p
  by_state-IsSound p running same sound = active-IsSound p

  -- Whatever the instructions and the system calls do, `Step` keeps it that a process in the state Exited
  -- has the exit code of its kernel, which has exited as well, and that one in the state Faulted has an
  -- error to report.
  pub step-IsSound : (p : Process F) → IsSound p → IsSound (step r p).1
  unfolding step
  step-IsSound p sound = by_state-IsSound p p.state refl sound
