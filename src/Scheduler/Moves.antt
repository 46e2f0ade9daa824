-- ===== src/Scheduler/Moves.antt =====
-- What can happen to the scheduler, as a step relation, and the invariant of its tasks.
use ish_port_go.Prelude.{
  ℕ, suc, ◌+◌, ◌^◌, ◌≤◌, ◌<◌, ◌≡◌, ◌≢◌, ◌⊎◌, refl, sym, ap, ◌∙◌, arith, true, false, List, [], ◌∷◌,
  ◌++◌, Option, some, add32, ◌==◌, inl, inr, Bool-cases,
}
use ish_port_go.Scheduler.{
  State, Task, Scheduler, Machine, assign, enlist, taken, child_of, fork, clone, wait4,
}

-- The process with another state and exit code.
abbrev pub worked : Task → State → ℕ → Task
worked t st code = record t { process = record t.process { state = st; exit_code = code } }

module _ {W : Type 0} (m : Machine W) where
  -- A call back from a process, a process that changes, or a change of the world.
  -- A call takes a process id only while there are some left.
  pub data Moves : Scheduler W → Scheduler W → Type 0 where
    forks : (s : Scheduler W) (parent : ℕ) → s.next_pid + 1 < 2 ^ 31 → Moves s (fork m parent s).1
    clones :
        (s : Scheduler W) (parent flags stack parent_tid child_tid tls : ℕ)
        → s.next_pid + 1 < 2 ^ 31
        → Moves s (clone m parent flags stack parent_tid child_tid tls s).1
    waits :
        (s : Scheduler W) (parent requested status_addr options : ℕ)
        → Moves s (wait4 m parent requested status_addr options s).1
    works :
        (s : Scheduler W) (pid : ℕ) (t : Task) (st : State) (code : ℕ)
        → s.tasks pid ≡ some t
        → Moves s (record s { tasks = assign s.tasks pid (worked t st code) })
    turns : (s : Scheduler W) (w : W) (n : ℕ) → Moves s (record s { world = w; steps = n })

  pub data Reaches : Scheduler W → Scheduler W → Type 0 where
    arrived : (s : Scheduler W) → Reaches s s
    onward : (s t u : Scheduler W) → Moves s t → Reaches t u → Reaches s u

-- The ids of a list go up, from `lo` to below `hi`.
abbrev pub Ascending : ℕ → ℕ → List ℕ → Type 0
Ascending lo hi [] = lo ≤ hi
Ascending lo hi (x ∷ xs) = (lo ≤ x) × (x < hi) × Ascending (suc x) hi xs

-- The order lists the ids that were given out, each once; a task stands under its own id.
pub record IsValid {W : Type 0} (s : Scheduler W) : Type 0 where
  pub some_left : 0 < s.next_pid
  pub ordered : Ascending 0 s.next_pid s.order
  pub keyed :
      (k : ℕ) (t : Task) → s.tasks k ≡ some t → (t.process.pid ≡ k) × (0 < k) × (k < s.next_pid)

Ascending-append :
    (lo hi : ℕ) (xs : List ℕ) → Ascending lo hi xs → Ascending lo (suc hi) (xs ++ hi ∷ [])
Ascending-append lo hi [] p = (p, omega arith, omega arith)
Ascending-append lo hi (x ∷ xs) p = (p.0, omega arith, Ascending-append (suc x) hi xs p.2)

Ascending-next : (lo hi : ℕ) (xs : List ℕ) → Ascending lo hi xs → Ascending lo (suc hi) xs
Ascending-next lo hi [] p = omega arith
Ascending-next lo hi (x ∷ xs) p = (p.0, omega arith, Ascending-next (suc x) hi xs p.2)

pub some_inj : {A : Type 0} (a b : A) → some a ≡ some b → a ≡ b
some_inj a b e = cc

-- What stands under an id after an assignment.
pub assign-cases :
    (tasks : ℕ → Option Task) (pid : ℕ) (t : Task) (k : ℕ) (u : Task)
    → assign tasks pid t k ≡ some u
    → ((k ≡ pid) × (u ≡ t)) ⊎ ((k ≢ pid) × (tasks k ≡ some u))
assign-cases tasks pid t k u e = elim (Bool-cases (k == pid)) [
  | inl same ↦ inl (ground arith, some_inj u t (sym e ∙ rw same refl))
  | inr there ↦ inr (ground arith, rw there at e)
]

-- The invariant is kept, and so is what has been reaped.
pub record Keeps {W : Type 0} (s t : Scheduler W) : Type 0 where
  pub valid : IsValid s → IsValid t
  pub reaped :
      IsValid s
      → (k : ℕ) (a : Task) → s.tasks k ≡ some a
      → a.reaped ≡ true
      → (b : Task) × (t.tasks k ≡ some b) × (b.reaped ≡ true)

module _ {W : Type 0} where
  pub Keeps-refl : (s : Scheduler W) → Keeps s s
  Keeps-refl s = record { valid = λ v. v; reaped = λ v k a e r. (a, e, r) }

  pub Keeps-trans : (s t u : Scheduler W) → Keeps s t → Keeps t u → Keeps s u
  Keeps-trans s t u p q = record {
    valid = λ v. q.valid (p.valid v);
    reaped = λ v k a e r.
        let (b, found, done) = p.reaped v k a e r in q.reaped (p.valid v) k b found done;
  }

  pub Keeps-turn : (s : Scheduler W) (w : W) (n : ℕ) → Keeps s (record s { world = w; steps = n })
  Keeps-turn s w n = record {
    valid = λ v. record { some_left = v.some_left; ordered = v.ordered; keyed = v.keyed };
    reaped = λ v k a e r. (a, e, r);
  }

  pub Keeps-taken : (s : Scheduler W) (w : W) → s.next_pid + 1 < 2 ^ 31 → Keeps s (taken s w)
  Keeps-taken s w left =
      let next : add32 s.next_pid 1 ≡ suc s.next_pid = omega arith in
      record {
        valid = λ v. record {
          some_left = omega (arith, next);
          ordered = rw next (Ascending-next 0 s.next_pid s.order v.ordered);
          keyed = λ k t e. let at = v.keyed k t e in (at.0, at.1, omega (arith, next, at.2));
        };
        reaped = λ v k a e r. (a, e, r);
      }

  pub Keeps-assign :
      (s : Scheduler W) (pid : ℕ) (t u : Task) (w : W)
      → s.tasks pid ≡ some t
      → u.process.pid ≡ t.process.pid
      → (t.reaped ≡ true → u.reaped ≡ true)
      → Keeps s (record s { tasks = assign s.tasks pid u; world = w })
  Keeps-assign s pid t u w found same stays = record {
    valid = λ v. record {
      some_left = v.some_left;
      ordered = v.ordered;
      keyed = λ k x e. elim (assign-cases s.tasks pid u k x e) [
        | inl (at, new) ↦
            (let base = v.keyed pid t found in
              (
                ap (λ (y : Task). y.process.pid) new ∙ same ∙ base.0 ∙ sym at,
                omega (arith, base.1, at),
                omega (arith, base.2, at),
              ))
        | inr (off, old) ↦ v.keyed k x old
      ];
    };
    reaped = λ v k a e r. elim (Bool-cases (k == pid)) [
      | inl at ↦ (
        u,
        rw at refl,
        stays (
            let id : k ≡ pid = ground arith in
            ap (λ (y : Task). y.reaped) (some_inj t a (sym found ∙ ap s.tasks (sym id) ∙ e)) ∙ r),
      )
      | inr off ↦ (a, rw off e, r)
    ];
  }

  pub Keeps-enlist :
      (s : Scheduler W) (parent : ℕ) (w : W)
      → s.next_pid + 1 < 2 ^ 31
      → Keeps s (enlist s.next_pid (child_of s.next_pid parent) (taken s w))
  unfolding enlist
  Keeps-enlist s parent w left =
      let next : add32 s.next_pid 1 ≡ suc s.next_pid = omega arith in
      let child : Task = record { process = child_of s.next_pid parent; reaped = false } in
      record {
        valid = λ v. record {
          some_left = omega (arith, next);
          ordered = rw next (Ascending-append 0 s.next_pid s.order v.ordered);
          keyed = λ k x e. elim (assign-cases s.tasks s.next_pid child k x e) [
            | inl (at, new) ↦ (
              ap (λ (y : Task). y.process.pid) new ∙ sym at,
              omega (arith, v.some_left, at),
              omega (arith, next, at),
            )
            | inr (off, old) ↦
                (let base = v.keyed k x old in (base.0, base.1, omega (arith, next, base.2)))
          ];
        };
        reaped = λ v k a e r.
            let off : (k == s.next_pid) ≡ false = ground (arith, (v.keyed k a e).2) in
            (a, rw off e, r);
      }
