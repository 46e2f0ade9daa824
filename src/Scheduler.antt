-- ===== src/Scheduler.antt =====
-- internal/guest/scheduler.go: the tasks of the guest, by process id: `fork`, `clone`, `wait4` and
-- `Step`. What the scheduler reads and writes of a process stands in its record; its image, its
-- kernel and its files are a world that the record `Machine` acts on.
pub mod Moves
pub mod Invariant
pub mod Reaping
pub mod Runs
pub mod Once
pub mod Progress
mod Tests
use ish_port_go.Prelude.{
  ℕ, ◌+◌, ◌*◌, ◌%◌, ◌^◌, Bool, true, false, ◌&&◌, ◌||◌, not, ◌==◌, ltb, if◌then◌else◌, List, [],
  ◌∷◌, ◌++◌, Option, none, some, Result, ok, err, not_runnable, bit_and, has, add32,
}
use ish_port_go.Prelude.Int.{ℤ, pos, negsuc}

-- `State` of internal/guest/process.go
pub data State : Type 0 where
  ready running exited faulted blocked : State

abbrev pub is_exited : State → Bool
is_exited exited = true
is_exited _ = false

abbrev pub is_blocked : State → Bool
is_blocked blocked = true
is_blocked _ = false

pub record Process : Type 0 where
  pub pid : ℕ
  pub parent_pid : ℕ
  pub state : State
  pub exit_code : ℕ

pub record Task : Type 0 where
  pub process : Process
  pub reaped : Bool

pub record Scheduler (W : Type 0) : Type 0 where
  pub tasks : ℕ → Option Task
  pub next_pid : ℕ
  pub order : List ℕ
  pub steps : ℕ
  pub world : W

-- What the scheduler asks of internal/guest/process.go and internal/kernel/syscall.go:
-- `CloneForFork` and `CloneForThread` for a new process id, a 32-bit write to the memory of a process,
-- and `BlockWait4`.
pub record Machine (W : Type 0) : Type 0 where
  pub clone_for_fork : ℕ → ℕ → W → W
  pub clone_for_thread : ℕ → ℕ → ℕ → ℕ → W → W
  pub write_word : ℕ → ℕ → ℕ → W → Result W
  pub block_wait4 : ℕ → ℕ → ℕ → ℕ → W → W

-- s.tasks[pid] = t
abbrev pub assign : (ℕ → Option Task) → ℕ → Task → ℕ → Option Task
assign tasks pid t k = if k == pid then some t else tasks k

abbrev pub clone_parent_settid : ℕ
clone_parent_settid = 0x0010_0000

abbrev pub clone_child_settid : ℕ
clone_child_settid = 0x0100_0000

-- EAGAIN, ECHILD and EFAULT, negated
abbrev pub again_reply : ℤ
again_reply = negsuc 10

abbrev pub child_reply : ℤ
child_reply = negsuc 9

abbrev pub fault_reply : ℤ
fault_reply = negsuc 13

-- The process that `CloneForFork` and `CloneForThread` return, as `fork` and `clone` enlist it.
abbrev pub child_of : ℕ → ℕ → Process
child_of pid parent = record { pid = pid; parent_pid = parent; state = ready; exit_code = 0 }

module _ {W : Type 0} where
  -- `NewScheduler`
  unfoldable pub new_scheduler : Process → W → Scheduler W
  new_scheduler root w =
      let pid = if root.pid == 0 then 1 else root.pid in
      record {
        tasks = λ k.
            if k == pid
            then some (record { process = record root { pid = pid }; reaped = false })
            else none;
        next_pid = add32 pid 1;
        order = pid ∷ [];
        steps = 0;
        world = w;
      }

  -- A new task, at the end of the order.
  unfoldable pub enlist : ℕ → Process → Scheduler W → Scheduler W
  enlist pid child s = record s {
    tasks = assign s.tasks pid (record { process = child; reaped = false });
    order = s.order ++ pid ∷ [];
  }

  -- A process id taken, and the world with a new image under it.
  abbrev pub taken : Scheduler W → W → Scheduler W
  taken s w = record s { next_pid = add32 s.next_pid 1; world = w }

module _ {W : Type 0} (m : Machine W) where
  unfoldable pub fork_task : Task → Scheduler W → Result ℕ × Scheduler W
  unfolding enlist
  fork_task parent s = if is_exited parent.process.state then (err not_runnable, s) else (
    ok s.next_pid,
    enlist s.next_pid (child_of s.next_pid parent.process.pid)
        (taken s (m.clone_for_fork parent.process.pid s.next_pid s.world)),
  )

  unfoldable pub fork : ℕ → Scheduler W → Result ℕ × Scheduler W
  unfolding fork_task
  fork parent s = elim (s.tasks parent) [ none ↦ (err not_runnable, s) | some t ↦ fork_task t s ]

  -- A process id written to memory where a flag asks for it and there is an address.
  unfoldable pub set_tid : Bool → ℕ → ℕ → ℕ → W → Result W
  set_tid asked owner addr pid w =
      if asked && not (addr == 0) then m.write_word owner addr pid w else ok w

  -- What follows the writes of `clone`: after a failed one the process id is taken and no task made.
  unfoldable pub clone_written :
      ℕ → ℕ → ℕ → Scheduler W → Result W → (W → Result W) → Result ℕ × Scheduler W
  unfolding enlist
  clone_written parent flags pid s (err e) second = (err e, s)
  clone_written parent flags pid s (ok w) second = elim (second w) [
    | err e ↦ (err e, record s { world = w })
    | ok v ↦ (ok pid, enlist pid (child_of pid parent) (record s { world = v }))
  ]

  unfoldable pub clone_task : ℕ → ℕ → ℕ → ℕ → ℕ → ℕ → Task → Scheduler W → Result ℕ × Scheduler W
  unfolding clone_written set_tid
  clone_task parent flags child_stack parent_tid child_tid tls t s =
      if is_exited t.process.state
      then (err not_runnable, s)
      else (let pid = s.next_pid in
          let w = m.clone_for_thread parent pid child_stack tls s.world in
          clone_written parent flags pid (taken s w)
            (set_tid (has flags clone_parent_settid) parent parent_tid pid w)
            (set_tid (has flags clone_child_settid) pid child_tid pid))

  unfoldable pub clone : ℕ → ℕ → ℕ → ℕ → ℕ → ℕ → Scheduler W → Result ℕ × Scheduler W
  unfolding clone_task
  clone parent flags child_stack parent_tid child_tid tls s = elim (s.tasks parent) [
    | none ↦ (err not_runnable, s)
    | some t ↦ clone_task parent flags child_stack parent_tid child_tid tls t s
  ]

  -- task.Reaped = true
  unfoldable pub reap : ℕ → Task → Scheduler W → ℤ × Scheduler W
  reap pid t s =
      (pos t.process.pid, record s { tasks = assign s.tasks pid (record t { reaped = true }) })

  -- A child that `wait4` asks for, of the process id `requested` where that is positive.
  unfoldable pub is_awaited : ℕ → ℕ → Task → Bool
  is_awaited parent requested t =
      not t.reaped
      && (t.process.parent_pid == parent
          && not ((ltb 0 requested && ltb requested (2 ^ 31)) && not (requested == t.process.pid)))

  unfoldable pub wait_exited : ℕ → ℕ → ℕ → Task → Scheduler W → ℤ × Scheduler W
  unfolding reap
  wait_exited parent status_addr pid t s =
      if status_addr == 0
      then reap pid t s
      else elim (m.write_word parent status_addr (bit_and t.process.exit_code 0xff * 2 ^ 8)
          s.world) [ ok w ↦ reap pid t (record s { world = w }) | err e ↦ (fault_reply, s) ]

  -- What is done with the first child in the order that is asked for.
  unfoldable pub wait_child : ℕ → ℕ → ℕ → ℕ → ℕ → Task → Scheduler W → ℤ × Scheduler W
  unfolding wait_exited
  wait_child parent requested status_addr options pid t s =
      if is_exited t.process.state
      then wait_exited parent status_addr pid t s
      else if has options 1
      then (pos 0, s)
      else (
        again_reply,
        record s { world = m.block_wait4 parent requested status_addr options s.world },
      )

  -- The loop of `wait4`; the order is that of the scheduler.
  unfoldable pub wait_loop : ℕ → ℕ → ℕ → ℕ → List ℕ → Scheduler W → ℤ × Scheduler W
  unfolding is_awaited wait_child
  wait_loop parent requested status_addr options [] s = (child_reply, s)
  wait_loop parent requested status_addr options (pid ∷ pids) s =
      let rest = wait_loop parent requested status_addr options pids s in
      elim (s.tasks pid) [
        | none ↦ rest
        | some t ↦
            if is_awaited parent requested t
            then wait_child parent requested status_addr options pid t s
            else rest
      ]

  unfoldable pub wait4 : ℕ → ℕ → ℕ → ℕ → Scheduler W → ℤ × Scheduler W
  unfolding wait_loop
  wait4 parent requested status_addr options s =
      wait_loop parent requested status_addr options s.order s

-- `TryResumeBlocked` and `Process.Step` of a process, which may call back `fork`, `clone` and `wait4`.
pub record Runner (W : Type 0) : Type 0 where
  pub try_resume : ℕ → Scheduler W → Bool × Scheduler W
  pub run : ℕ → Scheduler W → Result (Unit {0}) × Scheduler W

module _ {W : Type 0} (r : Runner W) where
  unfoldable pub set_state : ℕ → State → Scheduler W → Scheduler W
  set_state pid st s = elim (s.tasks pid) [
    | none ↦ s
    | some t ↦ record s {
      tasks = assign s.tasks pid (record t { process = record t.process { state = st } });
    }
  ]

  unfoldable pub ran : Result (Unit {0}) × Scheduler W → Result Bool × Scheduler W
  ran (ok done, s) = (ok true, record s { steps = (s.steps + 1) % 2 ^ 64 })
  ran (err e, s) = (err e, s)

  unfoldable pub run_task : ℕ → Scheduler W → Result Bool × Scheduler W
  unfolding ran
  run_task pid s = ran (r.run pid s)

  -- A task that waits is tried, and the loop goes on where it still waits.
  unfoldable pub resumed :
      ℕ → (Scheduler W → Result Bool × Scheduler W) → Bool × Scheduler W → Result Bool × Scheduler W
  unfolding run_task set_state
  resumed pid next (true, s) = run_task pid (set_state pid ready s)
  resumed pid next (false, s) = next s

  unfoldable pub step_loop : List ℕ → Scheduler W → Result Bool × Scheduler W
  unfolding run_task resumed
  step_loop [] s = (ok false, s)
  step_loop (pid ∷ pids) s = elim (s.tasks pid) [
    | none ↦ step_loop pids s
    | some t ↦
        if t.reaped || is_exited t.process.state
        then step_loop pids s
        else if is_blocked t.process.state
        then resumed pid (step_loop pids) (r.try_resume pid s)
        else run_task pid s
  ]

  -- `Step` of the scheduler.
  unfoldable pub step : Scheduler W → Result Bool × Scheduler W
  unfolding step_loop
  step s = step_loop s.order s
