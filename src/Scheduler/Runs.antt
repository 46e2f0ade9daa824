-- ===== src/Scheduler/Runs.antt =====
-- `Step` of the scheduler as a run of the steps of Scheduler/Moves.
use ish_port_go.Prelude.{
  ℕ, ◌+◌, ◌%◌, ◌^◌, ◌≡◌, refl, Bool, true, false, ◌||◌, List, [], ◌∷◌, Option, none, some, Result,
  ok, err, if◌then◌else◌,
}
use ish_port_go.Scheduler.{
  State, ready, Task, Scheduler, Machine, Runner, is_exited, is_blocked, set_state, assign, ran,
  run_task, resumed, step_loop, step,
}
use ish_port_go.Scheduler.Moves.{Moves, works, turns, Reaches, arrived, onward, IsValid}
use ish_port_go.Scheduler.Invariant.{Reaches-IsValid}

-- A process that runs, or that is tried, only forks, clones, waits and works.
pub record RunsBy {W : Type 0} (m : Machine W) (r : Runner W) : Type 0 where
  pub runs : (pid : ℕ) (s : Scheduler W) → Reaches m s (r.run pid s).1
  pub resumes : (pid : ℕ) (s : Scheduler W) → Reaches m s (r.try_resume pid s).1

module _ {W : Type 0} (m : Machine W) where
  Reaches-trans : (s t u : Scheduler W) → Reaches m s t → Reaches m t u → Reaches m s u
  Reaches-trans _ _ u (arrived s) q = q
  Reaches-trans _ _ u (onward s t v move rest) q = onward s t u move (Reaches-trans t v u rest q)

  once : (s t : Scheduler W) → Moves m s t → Reaches m s t
  once s t move = onward s t t move (arrived t)

  module _ (r : Runner W) (law : RunsBy m r) where
    ran-Reaches :
        (s : Scheduler W) (x : Result (Unit {0}) × Scheduler W)
        → Reaches m s x.1
        → Reaches m s (ran r x).1
    unfolding ran
    ran-Reaches s (ok done, t) p =
        Reaches-trans s t _ p (once t _ (turns t t.world ((t.steps + 1) % 2 ^ 64)))
    ran-Reaches s (err e, t) p = p

    run_task-Reaches : (pid : ℕ) (s : Scheduler W) → Reaches m s (run_task r pid s).1
    unfolding run_task
    run_task-Reaches pid s = ran-Reaches s (r.run pid s) (law.runs pid s)

    set_found-Reaches :
        (pid : ℕ) (st : State) (s : Scheduler W) (o : Option Task)
        → s.tasks pid ≡ o
        → Reaches m s (elim o as (λ x. Scheduler W) [
          | none ↦ s
          | some t ↦ record s {
            tasks = assign s.tasks pid (record t { process = record t.process { state = st } });
          }
        ])
    set_found-Reaches pid st s none found = arrived s
    set_found-Reaches pid st s (some t) found =
        once s _ (works s pid t st t.process.exit_code found)

    set_state-Reaches :
        (pid : ℕ) (st : State) (s : Scheduler W) → Reaches m s (set_state r pid st s)
    unfolding set_state
    set_state-Reaches pid st s = set_found-Reaches pid st s (s.tasks pid) refl

    resumed-Reaches :
        (pid : ℕ) (s : Scheduler W) (next : Scheduler W → Result Bool × Scheduler W)
        → (x : Bool × Scheduler W) → Reaches m s x.1
        → ((t : Scheduler W) → Reaches m t (next t).1)
        → Reaches m s (resumed r pid next x).1
    unfolding resumed
    resumed-Reaches pid s next (true, t) p q = Reaches-trans s t _ p (
        Reaches-trans t (set_state r pid ready t) _ (set_state-Reaches pid ready t)
          (run_task-Reaches pid (set_state r pid ready t)))
    resumed-Reaches pid s next (false, t) p q = Reaches-trans s t _ p (q t)

    if-Reaches :
        (s : Scheduler W) (test : Bool) (p q : Result Bool × Scheduler W)
        → Reaches m s p.1
        → Reaches m s q.1
        → Reaches m s (if test then p else q).1
    if-Reaches s true p q this other = this
    if-Reaches s false p q this other = other

    option-Reaches :
        (s : Scheduler W) (o : Option Task) (p : Result Bool × Scheduler W)
        → (q : Task → Result Bool × Scheduler W) → Reaches m s p.1
        → ((t : Task) → Reaches m s (q t).1)
        → Reaches m s (elim o as (λ x. Result Bool × Scheduler W) [ none ↦ p | some t ↦ q t ]).1
    option-Reaches s none p q this other = this
    option-Reaches s (some t) p q this other = other t

    step_loop-Reaches : (pids : List ℕ) (s : Scheduler W) → Reaches m s (step_loop r pids s).1
    unfolding step_loop
    step_loop-Reaches [] s = arrived s
    step_loop-Reaches (pid ∷ pids) s =
        option-Reaches s (s.tasks pid) _ _ (step_loop-Reaches pids s) (λ t.
          if-Reaches s (t.reaped || is_exited t.process.state) _ _ (step_loop-Reaches pids s) (
            if-Reaches s (is_blocked t.process.state) _ _
              (resumed-Reaches pid s (step_loop r pids) (r.try_resume pid s) (law.resumes pid s)
                (λ u. step_loop-Reaches pids u))
              (run_task-Reaches pid s)))

    -- As long as process ids are left, where a process that runs or is tried only forks, clones, waits
    -- and works, `Step` keeps the invariant of the scheduler, on success and on failure: its order
    -- lists each process id once and below the next one, and each task stands under its own id.
    pub step-IsValid : (s : Scheduler W) → IsValid s → IsValid (step r s).1
    unfolding step
    step-IsValid s v = Reaches-IsValid m s (step r s).1 (step_loop-Reaches s.order s) v
