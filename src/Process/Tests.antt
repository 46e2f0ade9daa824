-- ===== src/Process/Tests.antt =====
-- Steps of a small process with a writing end of a pipe under 0, and the witnesses of the properties.
use ish_port_go.Prelude.{
  ℕ, ◌+◌, ◌≤◌, ◌≡◌, refl, arith, Bool, Bool-cases, inl, inr, true, false, Option, none, some, [],
  ok, if◌then◌else◌, ◌==◌,
}
use ish_port_go.AddressSpace.{AddressSpace}
use ish_port_go.Memory.{Memory}
use ish_port_go.Cpu.{new_cpu}
use ish_port_go.Pipe.{PipeEnd}
use ish_port_go.Signal.{SignalAction}
use ish_port_go.Signal.Pending.{SignalState, first_set, take_pending}
use ish_port_go.Signal.Pending.Lowest.{Takes}
use ish_port_go.Scheduler.{ready}
use ish_port_go.Descriptors.{Handle, pipe_end, Table, World}
use ish_port_go.Descriptors.Counted.{IsCounted, IsOpen, count}
use ish_port_go.Descriptors.Counted.Sums.{refs, weight}
use ish_port_go.Process.{Machine, Process, Runtime, step}
use ish_port_go.Process.Signals.{Signalled, without_pending, step-Signalled}
use ish_port_go.Process.Exits.{Released, step-exits}

abbrev writer : PipeEnd
writer = record { write = true; nonblock = false; closed = false }

abbrev handles : ℕ → Option Handle
handles fd = if fd == 0 then some (pipe_end 0 writer) else none

abbrev table : Table
table = record {
  fds = handles;
  bound = 1;
  closed = λ fd. false;
  cloexec = λ fd. false;
  next_fd = 3;
  has_tty = true;
}

-- Another process has an end of each kind.
abbrev elsewhere : ℕ → Bool → ℕ
elsewhere p writes = if p == 0 then 1 else 0

abbrev world : World
world = record {
  pipes = λ p.
      if p == 0
      then record { bytes = []; readers = 1; writers = 2 }
      else record { bytes = []; readers = 0; writers = 0 };
  next_pipe = 1;
  file_closed = λ f. false;
}

world-counts :
    (p : ℕ) (writes : Bool) → count world p writes ≡ refs p writes handles 1 + elsewhere p writes
unfolding count refs weight
world-counts p true = ground arith
world-counts p false = ground arith

world-fresh : (p : ℕ) (writes : Bool) → 1 ≤ p → count world p writes ≡ 0
unfolding count
world-fresh p true from = ground arith
world-fresh p false from = ground arith

handles-IsOpen : (fd : ℕ) → IsOpen (handles fd)
handles-IsOpen fd = elim (Bool-cases (fd == 0)) [ inl at0 ↦ rw at0 refl | inr apart ↦ rw apart tt ]

table-IsCounted : IsCounted elsewhere handles 1 world
table-IsCounted = record {
  bounded = λ fd above. ground arith;
  are_open = handles-IsOpen;
  counts = world-counts;
  fresh = world-fresh;
}

abbrev action : SignalAction
action = record { handler = 0; restorer = 0; flags = 0; mask = 0 }

abbrev quiet : SignalState
quiet = record { mask = 0; pending = 0; actions = λ k. action }

-- SIGHUP and SIGTERM are pending.
abbrev hung_up : SignalState
hung_up = record { mask = 0; pending = 0x4001; actions = λ k. action }

abbrev nowhere : AddressSpace
nowhere = record { mappings = []; max = 16; next_hint = 0 }

abbrev plain : Memory
plain = record { bytes = []; protected = false; space = nowhere }

abbrev machine : SignalState → Machine ℕ
machine s = record {
  cpu = new_cpu 0 plain;
  kernel = record {
    signals = s;
    table = table;
    has_exited = false;
    exit_code = 0;
    thread = false;
    waits = false;
  };
  world = world;
}

abbrev process : SignalState → Process ℕ
process s = record { machine = machine s; state = ready; fault = none; exit_code = 0; steps = 41 }

-- `exit(7)`
abbrev exit_seven : Machine ℕ → Machine ℕ
exit_seven m = record m { kernel = record m.kernel { has_exited = true; exit_code = 7 } }

-- Every instruction is `exit(7)`, and a blocked call never completes.
abbrev runtime : Runtime ℕ
runtime = record {
  cpu_step = λ m. (ok tt, exit_seven m);
  try_resume_blocked = λ m. (false, m);
  float_bits = λ x. x;
}

take_quiet : take_pending quiet ≡ (none, quiet)
unfolding take_pending first_set
take_quiet = refl

hung_up-Takes : Takes hung_up 0
hung_up-Takes = (refl, refl)

step-Signalled_example :
    Signalled
      (λ x. x)
      1
      (without_pending 0 hung_up)
      (process hung_up)
      (step runtime (process hung_up))
step-Signalled_example =
    step-Signalled runtime 0 (process hung_up) (inl refl) (omega arith) hung_up-Takes
      (λ j below. absurd (omega (arith, below)))

step-exits_example : Released elsewhere 7 (step runtime (process quiet))
step-exits_example =
    step-exits runtime (process quiet) quiet (exit_seven (machine quiet)) (inl refl) take_quiet refl
      refl refl refl table-IsCounted
