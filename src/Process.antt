-- ===== src/Process.antt =====
-- internal/guest/process.go: `Process.Step`, over the signals of Signal, the descriptors of Descriptors
-- and a CPU. `CPU.Step` with the system calls of the kernel, and `TryResumeBlocked`, are the parameter
-- `Runtime`: both act on the CPU, the kernel and what kernels share.
pub mod Ends
pub mod Signals
pub mod Exits
mod Tests
use ish_port_go.Prelude.{
  ℕ, ◌+◌, ◌%◌, ◌^◌, Bool, true, false, ◌||◌, not, ◌==◌, if◌then◌else◌, Option, none, some, Result,
  ok, err, Error, privileged_halt,
}
use ish_port_go.Cpu.{Cpu}
use ish_port_go.Signal.{SignalAction, deliver_signal}
use ish_port_go.Signal.Pending.{SignalState, take_pending}
use ish_port_go.Descriptors.{Table, World}
use ish_port_go.Descriptors.Inherit.{close_on_exit}
use ish_port_go.Scheduler.{State, ready, running, exited, faulted, blocked}

-- What `Step` reads and writes of the kernel; `waits` says that one of the three blocked calls is set.
pub record Kernel : Type 0 where
  pub signals : SignalState
  pub table : Table
  pub has_exited : Bool
  pub exit_code : ℕ
  pub thread : Bool
  pub waits : Bool

pub record Machine (F : Type 0) : Type 0 where
  pub cpu : Cpu F
  pub kernel : Kernel
  pub world : World

pub record Process (F : Type 0) : Type 0 where
  pub machine : Machine F
  pub state : State
  pub fault : Option Error
  pub exit_code : ℕ
  pub steps : ℕ

pub record Runtime (F : Type 0) : Type 0 where
  pub cpu_step : Machine F → Result (Unit {0}) × Machine F
  pub try_resume_blocked : Machine F → Bool × Machine F
  pub float_bits : F → ℕ

-- SIGCHLD, SIGURG and SIGWINCH
unfoldable pub is_ignored : ℕ → Bool
is_ignored signal = signal == 17 || signal == 23 || signal == 28

module _ {F : Type 0} where
  -- p.State = Faulted; p.Fault = …; return p.Fault
  unfoldable pub fail : Error → Process F → Result (Unit {0}) × Process F
  fail e p = (err e, record p { state = faulted; fault = some e })

  -- p.State = Exited; p.ExitCode = p.Kernel.ExitCode
  unfoldable pub leave : Process F → Result (Unit {0}) × Process F
  leave p = (ok tt, record p { state = exited; exit_code = p.machine.kernel.exit_code })

  abbrev pub with_kernel : Kernel → Process F → Process F
  with_kernel k p = record p { machine = record p.machine { kernel = k } }

  -- A signal without a handler.
  unfoldable pub default_action : ℕ → Process F → Result (Unit {0}) × Process F
  unfolding is_ignored leave
  default_action signal p =
      if is_ignored signal
      then (ok tt, p)
      else leave (
          with_kernel
            (record p.machine.kernel { has_exited = true; exit_code = (128 + signal) % 2 ^ 32 }) p)

  -- The process with the mask and the CPU that a delivery has left.
  unfoldable pub delivered :
      Process F → Result (Unit {0}) × ℕ × Cpu F → Result (Unit {0}) × Process F
  unfolding fail
  delivered p (ok done, mask, c) = (
    ok tt,
    record p {
      machine = record p.machine {
        cpu = c;
        kernel = record p.machine.kernel {
          signals = record p.machine.kernel.signals { mask = mask };
        };
      };
    },
  )
  delivered p (err e, mask, c) = fail e (record p {
    machine = record p.machine {
      cpu = c;
      kernel = record p.machine.kernel {
        signals = record p.machine.kernel.signals { mask = mask };
      };
    };
  })

  -- `CloseOnExit`, but for a thread.
  unfoldable pub release : Bool → Machine F → Machine F
  release true m = m
  release false m =
      let (table, world) = close_on_exit m.kernel.table m.world in
      record m { kernel = record m.kernel { table = table }; world = world }

  -- What follows an instruction, by what the kernel and the CPU say.
  unfoldable pub after_step : Process F → Result (Unit {0}) × Process F
  unfolding fail leave release
  after_step p =
      if p.machine.kernel.waits
      then (ok tt, record p { state = blocked })
      else if p.machine.kernel.has_exited
      then leave (record p { machine = release p.machine.kernel.thread p.machine })
      else if p.machine.cpu.halted
      then fail privileged_halt p
      else (ok tt, p)

module _ {F : Type 0} (r : Runtime F) where
  -- An instruction, and what follows it.
  unfoldable pub executed :
      Process F → Result (Unit {0}) × Machine F → Result (Unit {0}) × Process F
  unfolding after_step fail
  executed p (err e, m) = fail e (record p { machine = m })
  executed p (ok done, m) = after_step (record p { machine = m; steps = (p.steps + 1) % 2 ^ 64 })

  -- A pending signal comes before the next instruction.
  unfoldable pub signalled :
      Process F → Option (ℕ × SignalAction) × SignalState → Result (Unit {0}) × Process F
  unfolding executed default_action delivered
  signalled p (none, s) =
      executed (with_kernel (record p.machine.kernel { signals = s }) p)
        (r.cpu_step (record p.machine { kernel = record p.machine.kernel { signals = s } }))
  signalled p (some (signal, action), s) =
      let q = with_kernel (record p.machine.kernel { signals = s }) p in
      if action.handler == 0
      then default_action signal q
      else delivered q (deliver_signal r.float_bits s.mask p.machine.cpu signal action)

  unfoldable pub active : Process F → Result (Unit {0}) × Process F
  unfolding signalled
  active p = signalled (record p { state = running }) (take_pending p.machine.kernel.signals)

  -- p.State = Ready, where the blocked call has been completed
  unfoldable pub retried : Process F → Bool × Machine F → Result (Unit {0}) × Process F
  unfolding active
  retried p (false, m) = (ok tt, record p { machine = m })
  retried p (true, m) = active (record p { machine = m })

  -- `return p.Fault`
  abbrev pub fault_of : Option Error → Result (Unit {0})
  fault_of none = ok tt
  fault_of (some e) = err e

  unfoldable pub step_in : State → Process F → Result (Unit {0}) × Process F
  unfolding retried active
  step_in exited p = (ok tt, p)
  step_in faulted p = (fault_of p.fault, p)
  step_in blocked p = retried p (r.try_resume_blocked p.machine)
  step_in ready p = active p
  step_in running p = active p

  unfoldable pub step : Process F → Result (Unit {0}) × Process F
  unfolding step_in
  step p = step_in p.state p
