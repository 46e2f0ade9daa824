-- ===== src/Scheduler/Once.antt =====
-- A child is reaped once.
use ish_port_go.Prelude.{ℕ, ◌<◌, ◌≡◌, ◌≢◌, refl, sym, ap, ◌∙◌, true, Option, some, ==_refl}
use ish_port_go.Prelude.Int.{pos}
use ish_port_go.Scheduler.{Task, Scheduler, Machine, wait4}
use ish_port_go.Scheduler.Moves.{Reaches, IsValid, some_inj}
use ish_port_go.Scheduler.Invariant.{Reaches-Keeps, wait4-Keeps}
use ish_port_go.Scheduler.Reaping.{wait4-Reaped}

module _ {W : Type 0} (m : Machine W) where
  -- Once `wait4` has returned the id of a child, no later call of `wait4`, of any process and after
  -- any run of forks, clones, waits and work in which the process ids stay below 2 ^ 31, returns that id
  -- again.
  pub wait4_once :
      (s d u e : Scheduler W) (parent requested status_addr options id : ℕ)
      (parent' requested' status_addr' options' id' : ℕ)
      → IsValid s
      → 0 < id
      → wait4 m parent requested status_addr options s ≡ (pos id, d)
      → Reaches m d u
      → 0 < id'
      → wait4 m parent' requested' status_addr' options' u ≡ (pos id', e)
      → id ≢ id'
  wait4_once s d u e parent requested status_addr options id parent' requested' status_addr'
        options' id' v positive first run positive' second =
      λ same.
        let before = wait4-Reaped m parent requested status_addr options s d id v positive first in
        let after = (wait4-Keeps m parent requested status_addr options s).valid v in
        let valid : IsValid d = rw first at after in
        let held : d.tasks id ≡ some (record before.task { reaped = true }) =
          ap (λ (f : ℕ → Option Task). f id) before.now ∙ rw (==_refl id) refl in
        let (b, kept, gone) = (Reaches-Keeps m d u run).reaped valid id _ held refl in
        let again =
          wait4-Reaped m parent' requested' status_addr' options' u e id'
            ((Reaches-Keeps m d u run).valid valid) positive' second in
        let one : b ≡ again.task =
          some_inj b again.task (sym kept ∙ ap u.tasks same ∙ again.found) in
        absurd (cc (ap (λ (t : Task). t.reaped) (sym one) ∙ gone, again.unreaped))
