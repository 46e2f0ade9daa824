-- ===== src/Scheduler/Invariant.antt =====
-- Every operation of the scheduler keeps the invariant of its tasks, and what has been reaped.
use ish_port_go.Prelude.{
  ℕ, suc, add32, ◌+◌, ◌^◌, ◌<◌, ◌≡◌, refl, sym, ap, ◌∙◌, arith, Bool, true, false, List, [], ◌∷◌,
  Option, none, some, Result, Error, ok, err, if◌then◌else◌, has, inl, inr, ◌==◌,
}
use ish_port_go.Scheduler.{
  Process, Task, Scheduler, Machine, new_scheduler, taken, is_exited, fork, fork_task, set_tid,
  clone, clone_task, clone_written, reap, is_awaited, wait_exited, wait_child, wait_loop, wait4,
  clone_parent_settid, clone_child_settid,
}
use ish_port_go.Scheduler.Moves.{
  Moves, forks, clones, waits, works, turns, Reaches, arrived, onward, IsValid, Keeps, Keeps-refl,
  Keeps-trans, Keeps-turn, Keeps-taken, Keeps-assign, Keeps-enlist, worked, assign-cases,
}

no_task : (t : Task) → ¬ (none ≡ some t)
no_task t e = cc

module _ {W : Type 0} where
  module _ {A : Type 0} (s : Scheduler W) where
    Keeps-if :
        (test : Bool) (p q : A × Scheduler W)
        → Keeps s p.1
        → Keeps s q.1
        → Keeps s (if test then p else q).1
    Keeps-if true p q this other = this
    Keeps-if false p q this other = other

    Keeps-option :
        (o : Option Task) (p : A × Scheduler W) (q : Task → A × Scheduler W)
        → Keeps s p.1
        → ((t : Task) → o ≡ some t → Keeps s (q t).1)
        → Keeps s (elim o as (λ x. A × Scheduler W) [ none ↦ p | some t ↦ q t ]).1
    Keeps-option none p q this other = this
    Keeps-option (some t) p q this other = other t refl

    Keeps-result :
        (r : Result W) (p : W → A × Scheduler W) (q : Error → A × Scheduler W)
        → ((w : W) → Keeps s (p w).1)
        → ((e : Error) → Keeps s (q e).1)
        → Keeps s (elim r as (λ x. A × Scheduler W) [ ok w ↦ p w | err e ↦ q e ]).1
    Keeps-result (ok w) p q this other = this w
    Keeps-result (err e) p q this other = other e

  -- A new scheduler has one task, under the id of the root or 1.
  pub new_scheduler-IsValid :
      (root : Process) (w : W) → root.pid + 1 < 2 ^ 32 → IsValid (new_scheduler root w)
  unfolding new_scheduler
  new_scheduler-IsValid root w left =
      let pid = if root.pid == 0 then 1 else root.pid in
      let first : Task = record { process = record root { pid = pid }; reaped = false } in
      let bounds : (0 < pid) × (pid + 1 < 2 ^ 32) = ground arith in
      let next : add32 pid 1 ≡ suc pid = omega (arith, bounds.1) in
      record {
        some_left = omega (arith, next);
        ordered = (omega arith, omega (arith, next), omega (arith, next));
        keyed = λ k t e. elim (assign-cases (λ _. none) pid first k t e) [
          | inl (at, new) ↦ (
            ap (λ (y : Task). y.process.pid) new ∙ sym at,
            omega (arith, bounds.0, at),
            omega (arith, next, at),
          )
          | inr (off, old) ↦ absurd (no_task t old)
        ];
      }

  module _ (m : Machine W) where
    fork-Keeps :
        (parent : ℕ) (s : Scheduler W) → s.next_pid + 1 < 2 ^ 31 → Keeps s (fork m parent s).1
    unfolding fork fork_task
    fork-Keeps parent s left = Keeps-option s (s.tasks parent) _ _ (Keeps-refl s) (λ t found.
        Keeps-if s (is_exited t.process.state) _ _ (Keeps-refl s)
          (Keeps-enlist s t.process.pid _ left))

    clone_written-Keeps :
        (parent flags : ℕ) (s : Scheduler W) (w : W) (first : Result W) (second : W → Result W)
        → s.next_pid + 1 < 2 ^ 31
        → Keeps s (clone_written m parent flags s.next_pid (taken s w) first second).1
    unfolding clone_written
    clone_written-Keeps parent flags s w (err e) second left = Keeps-taken s w left
    clone_written-Keeps parent flags s w (ok v) second left =
        Keeps-result s (second v) _ _ (λ u. Keeps-enlist s parent u left)
          (λ e. Keeps-taken s v left)

    clone-Keeps :
        (parent flags stack parent_tid child_tid tls : ℕ) (s : Scheduler W)
        → s.next_pid + 1 < 2 ^ 31
        → Keeps s (clone m parent flags stack parent_tid child_tid tls s).1
    unfolding clone clone_task
    clone-Keeps parent flags stack parent_tid child_tid tls s left =
        Keeps-option s (s.tasks parent) _ _ (Keeps-refl s) (λ t found.
          Keeps-if s (is_exited t.process.state) _ _ (Keeps-refl s) (
            let w = m.clone_for_thread parent s.next_pid stack tls s.world in
            clone_written-Keeps parent flags s w
              (set_tid m (has flags clone_parent_settid) parent parent_tid s.next_pid w)
              (set_tid m (has flags clone_child_settid) s.next_pid child_tid s.next_pid) left))

    wait_exited-Keeps :
        (parent status_addr pid : ℕ) (t : Task) (s : Scheduler W)
        → s.tasks pid ≡ some t
        → Keeps s (wait_exited m parent status_addr pid t s).1
    unfolding wait_exited reap
    wait_exited-Keeps parent status_addr pid t s found =
        Keeps-if s (status_addr == 0) _ _ (Keeps-assign s pid t _ s.world found refl (λ e. refl)) (
          Keeps-result s _ _ _ (λ w. Keeps-assign s pid t _ w found refl (λ e. refl))
            (λ e. Keeps-refl s))

    wait_loop-Keeps :
        (parent requested status_addr options : ℕ) (pids : List ℕ) (s : Scheduler W)
        → Keeps s (wait_loop m parent requested status_addr options pids s).1
    unfolding wait_loop wait_child
    wait_loop-Keeps parent requested status_addr options [] s = Keeps-refl s
    wait_loop-Keeps parent requested status_addr options (pid ∷ pids) s =
        let rest = wait_loop-Keeps parent requested status_addr options pids s in
        Keeps-option s (s.tasks pid) _ _ rest (λ t found.
          Keeps-if s (is_awaited m parent requested t) _ _
            (Keeps-if s (is_exited t.process.state) _ _
              (wait_exited-Keeps parent status_addr pid t s found)
              (Keeps-if s (has options 1) _ _ (Keeps-refl s) (Keeps-turn s _ s.steps)))
            rest)

    pub wait4-Keeps :
        (parent requested status_addr options : ℕ) (s : Scheduler W)
        → Keeps s (wait4 m parent requested status_addr options s).1
    unfolding wait4
    wait4-Keeps parent requested status_addr options s =
        wait_loop-Keeps parent requested status_addr options s.order s

    Moves-Keeps : (s t : Scheduler W) → Moves m s t → Keeps s t
    Moves-Keeps _ _ (forks s parent left) = fork-Keeps parent s left
    Moves-Keeps _ _ (clones s parent flags stack parent_tid child_tid tls left) =
        clone-Keeps parent flags stack parent_tid child_tid tls s left
    Moves-Keeps _ _ (waits s parent requested status_addr options) =
        wait4-Keeps parent requested status_addr options s
    Moves-Keeps _ _ (works s pid t st code found) =
        Keeps-assign s pid t (worked t st code) s.world found refl (λ e. e)
    Moves-Keeps _ _ (turns s w n) = Keeps-turn s w n

    pub Reaches-Keeps : (s t : Scheduler W) → Reaches m s t → Keeps s t
    Reaches-Keeps _ _ (arrived s) = Keeps-refl s
    Reaches-Keeps _ _ (onward s t u move rest) =
        Keeps-trans s t u (Moves-Keeps s t move) (Reaches-Keeps t u rest)

    -- From a scheduler whose order lists each process id once and below the next one, and whose tasks
    -- stand under their own ids, any run of forks, clones, waits and work leads to such a scheduler.
    pub Reaches-IsValid : (s t : Scheduler W) → Reaches m s t → IsValid s → IsValid t
    Reaches-IsValid s t run v = (Reaches-Keeps s t run).valid v
