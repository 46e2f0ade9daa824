-- ===== src/Scheduler/Reaping.antt =====
-- What `wait4` returns a process id for.
use ish_port_go.Prelude.{
  ℕ, ◌^◌, ◌≤◌, ◌⊎◌, refl, ◌<◌, ◌≡◌, sym, ap, ◌∙◌, arith, Bool, true, false, List, [], ◌∷◌, some,
  Result, ok, err, if◌then◌else◌, has, ◌==◌, inl, inr, Bool-cases, Option-cases,
}
use ish_port_go.Prelude.Int.{ℤ, pos, negsuc}
use ish_port_go.Scheduler.{
  State, ready, running, exited, faulted, blocked, Task, Scheduler, Machine, is_exited, again_reply,
  fault_reply, assign, reap, is_awaited, wait_exited, wait_child, wait_loop, wait4,
}
use ish_port_go.Scheduler.Moves.{IsValid}

pos_inj : (a b : ℕ) → pos a ≡ pos b → a ≡ b
pos_inj a b e = cc

negative : {k : ℕ} (id : ℕ) → ¬ (negsuc k ≡ pos id)
negative id e = cc

module _ {W : Type 0} where
  -- A child that is alive gives no positive reply.
  not_positive :
      (test : Bool) (id : ℕ) (s d b : Scheduler W)
      → 0 < id
      → ¬ (if◌then◌else◌ {A = ℤ × Scheduler W} test (pos 0, s) (again_reply, b) ≡ (pos id, d))
  not_positive true id s d b positive e =
      omega (arith, positive, pos_inj 0 id (ap (λ (r : ℤ × Scheduler W). r.0) e))
  not_positive false id s d b positive e = negative id (ap (λ (r : ℤ × Scheduler W). r.0) e)

exited_state : (s : State) → is_exited s ≡ true → s ≡ exited
exited_state exited h = refl
exited_state ready h = absurd cc
exited_state running h = absurd cc
exited_state faulted h = absurd cc
exited_state blocked h = absurd cc

module _ {W : Type 0} (m : Machine W) (parent requested status_addr options : ℕ) where
  -- What the test on a task says: a negative `requested` is one from 2 ^ 31 on.
  is_awaited-own :
      (t : Task) → is_awaited m parent requested t ≡ true → t.process.parent_pid ≡ parent
  unfolding is_awaited
  is_awaited-own t awaited = ground (arith, awaited)

  is_awaited-unreaped : (t : Task) → is_awaited m parent requested t ≡ true → t.reaped ≡ false
  unfolding is_awaited
  is_awaited-unreaped t awaited = ground (arith, awaited)

  is_awaited-asked :
      (t : Task)
      → is_awaited m parent requested t ≡ true
      → (requested ≡ 0) ⊎ (2 ^ 31 ≤ requested) ⊎ (requested ≡ t.process.pid)
  unfolding is_awaited
  is_awaited-asked t awaited = ground (arith, awaited)

  -- What a positive reply tells: the task under the id was a child that had exited, that was asked
  -- for and had not been reaped, and it is reaped now.
  pub record Reaped (s t : Scheduler W) (pid : ℕ) : Type 0 where
    pub task : Task
    pub found : s.tasks pid ≡ some task
    pub own : task.process.parent_pid ≡ parent
    pub unreaped : task.reaped ≡ false
    pub asked : (requested ≡ 0) ⊎ (2 ^ 31 ≤ requested) ⊎ (requested ≡ pid)
    pub done : task.process.state ≡ exited
    pub now : t.tasks ≡ assign s.tasks pid (record task { reaped = true })
    pub same : (t.order ≡ s.order) × (t.next_pid ≡ s.next_pid)

  module _ (s d : Scheduler W) (pid id : ℕ) (t : Task) (found : s.tasks pid ≡ some t)
      (own : t.process.pid ≡ pid) (awaited : is_awaited m parent requested t ≡ true) where
    reap-Reaped :
        (w : W)
        → is_exited t.process.state ≡ true
        → reap m pid t (record s { world = w }) ≡ (pos id, d)
        → Reaped s d id
    unfolding reap
    reap-Reaped w done e =
        let id_is : id ≡ pid =
          pos_inj id t.process.pid (sym (ap (λ (r : ℤ × Scheduler W). r.0) e)) ∙ own in
        let d_is = sym (ap (λ (r : ℤ × Scheduler W). r.1) e) in
        rw id_is (record {
          task = t;
          found = found;
          own = is_awaited-own t awaited;
          unreaped = is_awaited-unreaped t awaited;
          asked = rw own at (is_awaited-asked t awaited);
          done = exited_state t.process.state done;
          now = ap (λ (x : Scheduler W). x.tasks) d_is;
          same =
              (ap (λ (x : Scheduler W). x.order) d_is, ap (λ (x : Scheduler W). x.next_pid) d_is);
        })

    written-Reaped :
        (r : Result W)
        → is_exited t.process.state ≡ true
        → (elim r as (λ x. ℤ × Scheduler W) [
          | ok w ↦ reap m pid t (record s { world = w })
          | err e ↦ (fault_reply, s)
        ])
          ≡ (pos id, d)
        → Reaped s d id
    written-Reaped (ok w) done e = reap-Reaped w done e
    written-Reaped (err x) done e = absurd (negative id (ap (λ (r : ℤ × Scheduler W). r.0) e))

    wait_exited-Reaped :
        is_exited t.process.state ≡ true
        → wait_exited m parent status_addr pid t s ≡ (pos id, d)
        → Reaped s d id
    unfolding wait_exited
    wait_exited-Reaped done e = elim (Bool-cases (status_addr == 0)) [
      | inl no_addr ↦ reap-Reaped s.world done (rw no_addr at e)
      | inr addr ↦ written-Reaped _ done (rw addr at e)
    ]

    wait_child-Reaped :
        0 < id
        → wait_child m parent requested status_addr options pid t s ≡ (pos id, d)
        → Reaped s d id
    unfolding wait_child
    wait_child-Reaped positive e = elim (Bool-cases (is_exited t.process.state)) [
      | inl done ↦ wait_exited-Reaped done (rw done at e)
      | inr alive ↦ absurd (not_positive (has options 1) id s d _ positive (rw alive at e))
    ]

  wait_loop-Reaped :
      (pids : List ℕ) (s d : Scheduler W) (id : ℕ)
      → IsValid s
      → 0 < id
      → wait_loop m parent requested status_addr options pids s ≡ (pos id, d)
      → Reaped s d id
  unfolding wait_loop
  wait_loop-Reaped [] s d id v positive e =
      absurd (negative id (ap (λ (r : ℤ × Scheduler W). r.0) e))
  wait_loop-Reaped (pid ∷ pids) s d id v positive e = elim (Option-cases (s.tasks pid)) [
    | inl absent ↦ wait_loop-Reaped pids s d id v positive (rw (wait_loop, absent) at e)
    | inr (t, found) ↦ elim (Bool-cases (is_awaited m parent requested t)) [
      | inl awaited ↦
          wait_child-Reaped s d pid id t found (v.keyed pid t found).0 awaited positive
            (rw awaited at (rw (wait_loop, found) at e))
      | inr other ↦
          wait_loop-Reaped pids s d id v positive (rw other at (rw (wait_loop, found) at e))
    ]
  ]

  -- In a valid scheduler a positive reply of `wait4` is the id of a task that has the caller as its
  -- parent, had exited and had not been reaped, and it is the id asked for, where that is from 1 to
  -- 2 ^ 31 - 1; the call marks that task as reaped and leaves the others, the order and the next process
  -- id as they were.
  pub wait4-Reaped :
      (s d : Scheduler W) (id : ℕ)
      → IsValid s
      → 0 < id
      → wait4 m parent requested status_addr options s ≡ (pos id, d)
      → Reaped s d id
  unfolding wait4
  wait4-Reaped s d id v positive e = wait_loop-Reaped s.order s d id v positive e
