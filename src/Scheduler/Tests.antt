-- ===== src/Scheduler/Tests.antt =====
-- Runs of the scheduler, and the witnesses of its properties.
use ish_port_go.Prelude.{ℕ, ◌≡◌, ◌≢◌, refl, arith, true, false, some, [], ◌∷◌, ok}
use ish_port_go.Prelude.Int.{pos}
use ish_port_go.Scheduler.{
  ready, exited, Process, Task, Scheduler, Machine, Runner, new_scheduler, enlist, fork, fork_task,
  is_awaited, reap, wait_exited, wait_child, wait_loop, wait4, step, step_loop, run_task, ran,
  assign,
}
use ish_port_go.Scheduler.Moves.{Reaches, arrived, onward, forks, waits, works, IsValid, worked}
use ish_port_go.Scheduler.Invariant.{Reaches-IsValid, new_scheduler-IsValid}
use ish_port_go.Scheduler.Runs.{step-IsValid}
use ish_port_go.Scheduler.Reaping.{Reaped, wait4-Reaped}
use ish_port_go.Scheduler.Once.{wait4_once}
use ish_port_go.Scheduler.Progress.{step-runs}

-- A world of nothing.
abbrev idle : Machine (Unit {0})
idle = record {
  clone_for_fork = λ parent pid w. w;
  clone_for_thread = λ parent pid stack tls w. w;
  write_word = λ owner addr v w. ok w;
  block_wait4 = λ parent requested status_addr options w. w;
}

abbrev runs_nothing : Runner (Unit {0})
runs_nothing = record { try_resume = λ pid s. (false, s); run = λ pid s. (ok tt, s) }

abbrev root : Process
root = record { pid = 0; parent_pid = 0; state = ready; exit_code = 0 }

abbrev begun : Scheduler (Unit {0})
begun = new_scheduler root tt

abbrev one_child : Scheduler (Unit {0})
one_child = (fork idle 1 begun).1

abbrev two_children : Scheduler (Unit {0})
two_children = (fork idle 1 one_child).1

abbrev child : ℕ → Task
child pid = record {
  process = record { pid = pid; parent_pid = 1; state = ready; exit_code = 0 };
  reaped = false;
}

-- The younger child has exited with code 7, the older one runs.
abbrev younger_done : Scheduler (Unit {0})
younger_done = record two_children {
  tasks = λ k. assign two_children.tasks 3 (worked (child 3) exited 7) k;
}

abbrev both_done : Scheduler (Unit {0})
both_done = record younger_done {
  tasks = λ k. assign younger_done.tasks 2 (worked (child 2) exited 0) k;
}

begun-IsValid : IsValid begun
begun-IsValid = new_scheduler-IsValid root tt (omega arith)

both_done-reached : Reaches idle begun both_done
unfolding new_scheduler fork fork_task enlist
both_done-reached = onward _ _ _ (forks begun 1 (omega arith)) (
    onward _ _ _ (forks one_child 1 (omega arith)) (
      onward _ _ _ (works two_children 3 (child 3) exited 7 refl)
        (onward _ _ _ (works younger_done 2 (child 2) exited 0 refl) (arrived both_done))))

both_done-IsValid : IsValid both_done
both_done-IsValid = Reaches-IsValid idle begun both_done both_done-reached begun-IsValid

-- The younger child is reaped when it is asked for by its id.
abbrev younger_reaped : Scheduler (Unit {0})
younger_reaped = record both_done {
  tasks =
      assign both_done.tasks 3
        (record { process = (worked (child 3) exited 7).process; reaped = true });
}

abbrev both_reaped : Scheduler (Unit {0})
both_reaped = record younger_reaped {
  tasks =
      assign younger_reaped.tasks 2
        (record { process = (worked (child 2) exited 0).process; reaped = true });
}

wait4-Reaped_example : Reaped idle 1 3 0 0 both_done younger_reaped 3
unfolding wait4 wait_loop is_awaited wait_child wait_exited reap new_scheduler fork fork_task enlist
wait4-Reaped_example =
    wait4-Reaped idle 1 3 0 0 both_done younger_reaped 3 both_done-IsValid (omega arith) refl

-- The ids of the two children, by number.
abbrev younger : ℕ
younger = 3

abbrev older : ℕ
older = 2

wait4_once_example : younger ≢ older
unfolding wait4 wait_loop is_awaited wait_child wait_exited reap new_scheduler fork fork_task enlist
wait4_once_example =
    wait4_once idle both_done younger_reaped younger_reaped both_reaped 1 3 0 0 3 1 0xffff_ffff 0 0
      2 both_done-IsValid (omega arith) refl (arrived younger_reaped) (omega arith) refl

-- With no id asked for, the older child that runs hides the younger one that has exited.
wait4-hidden : (wait4 idle 1 0xffff_ffff 0 1 younger_done).0 ≡ pos 0
unfolding wait4 wait_loop is_awaited wait_child wait_exited reap new_scheduler fork fork_task enlist
wait4-hidden = refl

step-runs_example : (step runs_nothing younger_done).0 ≢ ok false
unfolding new_scheduler fork fork_task enlist
step-runs_example =
    step-runs runs_nothing (record { quiet = λ pid s e. refl }) (1 ∷ []) (3 ∷ []) 2 younger_done
      refl (record { task = child 2; found = refl; skipped = refl; waiting = refl })

-- A process that waits for its children whenever it runs.
abbrev waits_always : Runner (Unit {0})
waits_always = record {
  try_resume = λ pid s. (false, s);
  run = λ pid s. (ok tt, (wait4 idle pid 0 0 1 s).1);
}

step-reaps :
    (step waits_always both_done).1.tasks 2
    ≡ some (record { process = (worked (child 2) exited 0).process; reaped = true })
unfolding step step_loop run_task ran wait4 wait_loop is_awaited wait_child wait_exited reap
    new_scheduler fork fork_task enlist
step-reaps = refl

step-IsValid_example : IsValid (step waits_always both_done).1
step-IsValid_example =
    step-IsValid idle waits_always
      (record {
        runs = λ pid s. onward _ _ _ (waits s pid 0 0 1) (arrived (wait4 idle pid 0 0 1 s).1);
        resumes = λ pid s. arrived s;
      })
      both_done both_done-IsValid
