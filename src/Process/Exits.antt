-- ===== src/Process/Exits.antt =====
-- internal/guest/process.go: the end of a process by its exit call.
use ish_port_go.Prelude.{
  ℕ, zero, suc, ◌+◌, ◌%◌, ◌^◌, ◌≡◌, ◌⊎◌, refl, arith, Bool, true, false, none, Result, ok,
}
use ish_port_go.Signal.Pending.{SignalState, take_pending}
use ish_port_go.Scheduler.{ready, running, exited}
use ish_port_go.Descriptors.Inherit.{close_on_exit}
use ish_port_go.Descriptors.Counted.{IsCounted, count}
use ish_port_go.Descriptors.Counted.Sums.{refs, weight}
use ish_port_go.Descriptors.Loops.{close_on_exit-IsCounted}
use ish_port_go.Process.{
  Process, Machine, Runtime, leave, release, after_step, executed, signalled, active, step,
}
use ish_port_go.Process.Signals.{step_in-active}

refs-none : (p : ℕ) (writes : Bool) (n : ℕ) → refs p writes (λ fd. none) n ≡ 0
unfolding refs weight
refs-none p writes zero = refl
refs-none p writes (suc n) = omega (arith, refs-none p writes n)

-- The process has exited with the code, no descriptor is left, and the pipes count the ends elsewhere only.
pub record Released {F : Type 0} (elsewhere : ℕ → Bool → ℕ) (code : ℕ)
    (q : Result (Unit {0}) × Process F) : Type 0 where
  pub answer : q.0 ≡ ok tt
  pub state : q.1.state ≡ exited
  pub exit_code : q.1.exit_code ≡ code
  pub closed : (fd : ℕ) → q.1.machine.kernel.table.fds fd ≡ none
  pub counts :
      (pipe : ℕ) (writes : Bool) → count q.1.machine.world pipe writes ≡ elsewhere pipe writes

module _ {F : Type 0} {elsewhere : ℕ → Bool → ℕ} where
  after_step-Released :
      (p : Process F)
      → p.machine.kernel.waits ≡ false
      → p.machine.kernel.has_exited ≡ true
      → p.machine.kernel.thread ≡ false
      → IsCounted elsewhere p.machine.kernel.table.fds p.machine.kernel.table.bound p.machine.world
      → Released elsewhere p.machine.kernel.exit_code (after_step p)
  unfolding after_step leave release close_on_exit
  after_step-Released p goes exits alone counted =
      let after = close_on_exit-IsCounted p.machine.kernel.table p.machine.world counted in
      rw (after_step, goes, exits, alone)
        (record {
          answer = refl;
          state = refl;
          exit_code = refl;
          closed = λ fd. refl;
          counts = λ pipe writes.
              omega (
                arith,
                after.counts pipe writes,
                refs-none pipe writes p.machine.kernel.table.bound,
              );
        })

  module _ (r : Runtime F) where
    -- A process that is ready or running and has no signal to take executes an instruction that makes its
    -- kernel exit, and is no thread. Where the pipes count its descriptors and those elsewhere, `Step`
    -- reports no error and leaves it exited with the code of the kernel, without descriptors, and every pipe
    -- counts the ends elsewhere only.
    pub step-exits :
        (p : Process F) (s : SignalState) (m : Machine F)
        → (p.state ≡ ready) ⊎ (p.state ≡ running)
        → take_pending p.machine.kernel.signals ≡ (none, s)
        → r.cpu_step (record p.machine { kernel = record p.machine.kernel { signals = s } })
          ≡ (ok tt, m)
        → m.kernel.waits ≡ false
        → m.kernel.has_exited ≡ true
        → m.kernel.thread ≡ false
        → IsCounted elsewhere m.kernel.table.fds m.kernel.table.bound m.world
        → Released elsewhere m.kernel.exit_code (step r p)
    unfolding step active signalled executed
    step-exits p s m is_active taken stepped goes exits alone counted =
        rw (step_in-active r p is_active, active, taken, signalled, stepped, executed)
          (after_step-Released
            (record p { machine = m; state = running; steps = (p.steps + 1) % 2 ^ 64 }) goes exits
            alone counted)
