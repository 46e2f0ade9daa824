-- ===== src/Scheduler/Progress.antt =====
-- `Step` makes progress while a task can run.
use ish_port_go.Prelude.{
  ℕ, ◌≡◌, ◌≢◌, refl, ap, ◌∙◌, Bool, true, false, ◌||◌, List, [], ◌∷◌, ◌++◌, Option, some, Result,
  ok, err, Bool-cases, Option-cases, inl, inr,
}
use ish_port_go.Scheduler.{
  Task, Scheduler, Runner, is_exited, is_blocked, ran, run_task, resumed, step_loop, step,
}

-- A process that still waits after it was tried has changed no task.
pub record WaitsQuietly {W : Type 0} (r : Runner W) : Type 0 where
  pub quiet :
      (pid : ℕ) (s : Scheduler W)
      → (r.try_resume pid s).0 ≡ false
      → (r.try_resume pid s).1.tasks ≡ s.tasks

-- The task stands under the id and can run at once.
pub record CanRun {W : Type 0} (s : Scheduler W) (pid : ℕ) : Type 0 where
  pub task : Task
  pub found : s.tasks pid ≡ some task
  pub skipped : (task.reaped || is_exited task.process.state) ≡ false
  pub waiting : is_blocked task.process.state ≡ false

module _ {W : Type 0} (r : Runner W) (law : WaitsQuietly r) where
  ran-runs : (x : Result (Unit {0}) × Scheduler W) → ¬ ((ran r x).0 ≡ ok false)
  unfolding ran
  ran-runs (ok done, s) e = cc
  ran-runs (err x, s) e = cc

  CanRun-tasks : (s t : Scheduler W) (pid : ℕ) → t.tasks ≡ s.tasks → CanRun s pid → CanRun t pid
  CanRun-tasks s t pid same can = record {
    task = can.task;
    found = ap (λ (f : ℕ → Option Task). f pid) same ∙ can.found;
    skipped = can.skipped;
    waiting = can.waiting;
  }

  resumed-runs :
      (pid first : ℕ) (s : Scheduler W) (next : Scheduler W → Result Bool × Scheduler W)
      (x : Bool × Scheduler W)
      → (x.0 ≡ false → ¬ ((next x.1).0 ≡ ok false))
      → ¬ ((resumed r first next x).0 ≡ ok false)
  unfolding resumed run_task
  resumed-runs pid first s next (true, t) later = ran-runs _
  resumed-runs pid first s next (false, t) later = later refl

  step_loop-runs :
      (before after : List ℕ) (pid : ℕ) (s : Scheduler W)
      → CanRun s pid
      → ¬ ((step_loop r (before ++ pid ∷ after) s).0 ≡ ok false)
  unfolding step_loop run_task
  step_loop-runs [] after pid s can e =
      ran-runs _ (rw can.waiting at (rw can.skipped at (rw (step_loop, can.found) at e)))
  step_loop-runs (x ∷ before) after pid s can e = elim (Option-cases (s.tasks x)) [
    | inl absent ↦ step_loop-runs before after pid s can (rw (step_loop, absent) at e)
    | inr (t, found) ↦ elim (Bool-cases (t.reaped || is_exited t.process.state)) [
      | inl gone ↦ step_loop-runs before after pid s can (rw gone at (rw (step_loop, found) at e))
      | inr there ↦ elim (Bool-cases (is_blocked t.process.state)) [
        | inl waits ↦
            resumed-runs pid x s (step_loop r (before ++ pid ∷ after)) (r.try_resume x s)
              (λ still.
                let s' = (r.try_resume x s).1 in
                step_loop-runs before after pid s'
                  (CanRun-tasks s s' pid (law.quiet x s still) can))
              (rw waits at (rw there at (rw (step_loop, found) at e)))
        | inr ready ↦ ran-runs _ (rw ready at (rw there at (rw (step_loop, found) at e)))
      ]
    ]
  ]

  -- Where the order has a task that can run at once, `Step` never reports that nothing is left to do:
  -- it has run a task, or a task has failed. A process that still waits after it was tried is taken to
  -- have changed no task.
  pub step-runs :
      (before after : List ℕ) (pid : ℕ) (s : Scheduler W)
      → s.order ≡ before ++ pid ∷ after
      → CanRun s pid
      → (step r s).0 ≢ ok false
  unfolding step
  step-runs before after pid s listed can e = step_loop-runs before after pid s can (rw⁻¹ listed e)
