-- ===== src/Process/Signals.antt =====
-- internal/guest/process.go: what `Step` does where a signal is pending and not blocked.
use ish_port_go.Prelude.{
  ℕ, suc, ◌+◌, ◌^◌, ◌<◌, ◌≡◌, ◌≢◌, ◌⊎◌, refl, ap, sym, arith, true, false, ◌==◌, Bool-cases,
  lt-or-ge, inl, inr, some, Result, ok, err, Error,
}
use mathlib.Core.Path.{subst}
use ish_port_go.Cpu.{Cpu}
use ish_port_go.Signal.{SignalAction, deliver_signal}
use ish_port_go.Signal.Pending.{SignalState, and_not64, take_pending}
use ish_port_go.Signal.Pending.Lowest.{Takes, take_pending_lem}
use ish_port_go.Scheduler.{ready, running, exited, faulted}
use ish_port_go.Process.{
  Process, Runtime, leave, fail, with_kernel, is_ignored, default_action, delivered, signalled,
  active, step_in, step,
}

-- SIGCHLD, SIGURG and SIGWINCH do nothing by default.
abbrev pub IsHarmless : ℕ → Type 0
IsHarmless signal = (signal ≡ 17) ⊎ (signal ≡ 23) ⊎ (signal ≡ 28)

-- No handler, and a signal that does nothing: the process runs on.
pub record RunsOn {F : Type 0} (signal : ℕ) (action : SignalAction) (p : Process F)
    (q : Result (Unit {0}) × Process F) : Type 0 where
  pub bare : action.handler ≡ 0
  pub harmless : IsHarmless signal
  pub answer : q.0 ≡ ok tt
  pub state : q.1.state ≡ running
  pub cpu : q.1.machine.cpu ≡ p.machine.cpu

-- No handler, and any other signal: the process has exited.
pub record IsKilled {F : Type 0} (signal : ℕ) (action : SignalAction) (p : Process F)
    (q : Result (Unit {0}) × Process F) : Type 0 where
  pub bare : action.handler ≡ 0
  pub harmful : ¬ IsHarmless signal
  pub answer : q.0 ≡ ok tt
  pub state : q.1.state ≡ exited
  pub cpu : q.1.machine.cpu ≡ p.machine.cpu
  pub has_exited : q.1.machine.kernel.has_exited ≡ true
  pub exit_code : q.1.exit_code ≡ 128 + signal

-- A handler, and its frame has been built: the process runs on in the handler.
pub record Enters {F : Type 0} (float_bits : F → ℕ) (signal : ℕ) (action : SignalAction)
    (p : Process F) (q : Result (Unit {0}) × Process F) : Type 0 where
  pub handled : action.handler ≢ 0
  pub answer : q.0 ≡ ok tt
  pub state : q.1.state ≡ running
  pub delivery :
      deliver_signal float_bits p.machine.kernel.signals.mask p.machine.cpu signal action
      ≡ (ok tt, q.1.machine.kernel.signals.mask, q.1.machine.cpu)

-- A handler, and its frame could not be built: the process has failed with that error.
pub record Faults {F : Type 0} (float_bits : F → ℕ) (signal : ℕ) (action : SignalAction)
    (p : Process F) (q : Result (Unit {0}) × Process F) : Type 0 where
  pub handled : action.handler ≢ 0
  pub error : Error
  pub answer : q.0 ≡ err error
  pub state : q.1.state ≡ faulted
  pub fault : q.1.fault ≡ some error
  pub delivery :
      deliver_signal float_bits p.machine.kernel.signals.mask p.machine.cpu signal action
      ≡ (err error, q.1.machine.kernel.signals.mask, q.1.machine.cpu)

-- The signal is taken, no instruction runs, the descriptors and the pipes are as they were, and the
-- process goes on, ends, enters the handler or fails.
pub record Signalled {F : Type 0} (float_bits : F → ℕ) (signal : ℕ) (s : SignalState)
    (p : Process F) (q : Result (Unit {0}) × Process F) : Type 0 where
  pub pending : q.1.machine.kernel.signals.pending ≡ s.pending
  pub actions : q.1.machine.kernel.signals.actions ≡ s.actions
  pub table : q.1.machine.kernel.table ≡ p.machine.kernel.table
  pub world : q.1.machine.world ≡ p.machine.world
  pub steps : q.1.steps ≡ p.steps
  pub outcome :
      RunsOn signal (s.actions signal) p q
      ⊎ IsKilled signal (s.actions signal) p q
      ⊎ Enters float_bits signal (s.actions signal) p q
      ⊎ Faults float_bits signal (s.actions signal) p q

is_ignored-IsHarmless : (signal : ℕ) → is_ignored signal ≡ true → IsHarmless signal
unfolding is_ignored
is_ignored-IsHarmless signal e = ground (arith, e)

not_ignored_lem : (signal : ℕ) → is_ignored signal ≡ false → ¬ IsHarmless signal
unfolding is_ignored
not_ignored_lem signal e (inl same) = ground (arith, e)
not_ignored_lem signal e (inr (inl same)) = ground (arith, e)
not_ignored_lem signal e (inr (inr same)) = ground (arith, e)

module _ {F : Type 0} (float_bits : F → ℕ) where
  -- The process that has taken the signal and runs.
  abbrev taking : SignalState → Process F → Process F
  taking s p = with_kernel (record p.machine.kernel { signals = s }) (record p { state = running })

  default_action-Signalled :
      (signal : ℕ) (s : SignalState) (p : Process F)
      → signal < 2 ^ 31
      → (s.actions signal).handler ≡ 0
      → Signalled float_bits signal s p (default_action signal (taking s p))
  unfolding default_action leave
  default_action-Signalled signal s p small bare = elim (Bool-cases (is_ignored signal)) [
    | inl hushed ↦
        rw (default_action, hushed)
          (record {
            pending = refl;
            actions = refl;
            table = refl;
            world = refl;
            steps = refl;
            outcome = inl (record {
              bare = bare;
              harmless = is_ignored-IsHarmless signal hushed;
              answer = refl;
              state = refl;
              cpu = refl;
            });
          })
    | inr kills ↦
        rw (default_action, kills)
          (record {
            pending = refl;
            actions = refl;
            table = refl;
            world = refl;
            steps = refl;
            outcome = inr (
                inl (record {
                  bare = bare;
                  harmful = not_ignored_lem signal kills;
                  answer = refl;
                  state = refl;
                  cpu = refl;
                  has_exited = refl;
                  exit_code = omega (arith, small);
                }));
          })
  ]

  delivered-Signalled :
      (signal : ℕ) (s : SignalState) (p : Process F) (d : Result (Unit {0}) × ℕ × Cpu F)
      → (s.actions signal).handler ≢ 0
      → deliver_signal float_bits p.machine.kernel.signals.mask p.machine.cpu signal
          (s.actions signal)
        ≡ d
      → Signalled float_bits signal s p (delivered (taking s p) d)
  unfolding delivered fail
  delivered-Signalled signal s p (ok done, mask, c) handled e = record {
    pending = refl;
    actions = refl;
    table = refl;
    world = refl;
    steps = refl;
    outcome =
        inr (inr (inl (record { handled = handled; answer = refl; state = refl; delivery = e })));
  }
  delivered-Signalled signal s p (err x, mask, c) handled e = record {
    pending = refl;
    actions = refl;
    table = refl;
    world = refl;
    steps = refl;
    outcome = inr (
        inr (
          inr (record {
            handled = handled;
            error = x;
            answer = refl;
            state = refl;
            fault = refl;
            delivery = e;
          })));
  }

-- The signal `suc i` no longer pends.
abbrev pub without_pending : ℕ → SignalState → SignalState
without_pending i s = record s { pending = and_not64 s.pending (2 ^ i) }

take_pending_lowest :
    (s : SignalState) (i : ℕ)
    → i < 64
    → Takes s i
    → ((j : ℕ) → j < i → ¬ Takes s j)
    → take_pending s
      ≡ (some (suc i, s.actions (suc i)), record s { pending = and_not64 s.pending (2 ^ i) })
take_pending_lowest s i small takes lowest = elim (take_pending_lem s) [
  | inl (none_taken, idle) ↦ absurd (idle i small takes)
  | inr (k, bound, taken, takes_k, lowest_k) ↦ elim (lt-or-ge k i) [
    | inl below ↦ absurd (lowest k below takes_k)
    | inr above ↦ elim (lt-or-ge i k) [
      | inl under ↦ absurd (lowest_k i under takes)
      | inr over ↦
          (let same : k ≡ i = omega (arith, above, over) in
            subst
              (λ (n : ℕ). take_pending s ≡ (
                some (suc n, s.actions (suc n)),
                record s { pending = and_not64 s.pending (2 ^ n) },
              ))
              same taken)
    ]
  ]
]

module _ {F : Type 0} (r : Runtime F) where
  pub step_in-active :
      (p : Process F) → (p.state ≡ ready) ⊎ (p.state ≡ running) → step_in r p.state p ≡ active r p
  unfolding step_in
  step_in-active p (inl is_ready) = ap (λ s. step_in r s p) is_ready
  step_in-active p (inr is_running) = ap (λ s. step_in r s p) is_running

  signalled-Signalled :
      (signal : ℕ) (s : SignalState) (p : Process F)
      → signal < 2 ^ 31
      → s.mask ≡ p.machine.kernel.signals.mask
      → Signalled r.float_bits signal s p
          (signalled r (record p { state = running }) (some (signal, s.actions signal), s))
  unfolding signalled
  signalled-Signalled signal s p small same = elim (Bool-cases ((s.actions signal).handler == 0)) [
    | inl bare ↦
        rw (signalled, bare)
          (default_action-Signalled r.float_bits signal s p small (ground (arith, bare)))
    | inr handled ↦
        rw (signalled, handled)
          (delivered-Signalled r.float_bits signal s p
            (deliver_signal r.float_bits s.mask p.machine.cpu signal (s.actions signal))
            (ground (arith, handled))
            (ap (λ m. deliver_signal r.float_bits m p.machine.cpu signal (s.actions signal))
              (sym same)))
  ]

  -- A process that is ready or running and has `suc i` as the lowest signal that is pending and not
  -- blocked: `Step` takes this signal and no other, runs no instruction and leaves the descriptors and the
  -- pipes as they were. Without a handler the process runs on after SIGCHLD, SIGURG and SIGWINCH and has
  -- exited with the code 128 + signal after any other, its descriptors still open; with a handler it runs
  -- on with the mask and the CPU of `DeliverSignal`, or has failed with its error.
  pub step-Signalled :
      (i : ℕ) (p : Process F)
      → (p.state ≡ ready) ⊎ (p.state ≡ running)
      → i < 64
      → Takes p.machine.kernel.signals i
      → ((j : ℕ) → j < i → ¬ Takes p.machine.kernel.signals j)
      → Signalled r.float_bits (suc i) (without_pending i p.machine.kernel.signals) p (step r p)
  unfolding step active
  step-Signalled i p is_active small takes lowest =
      let s = p.machine.kernel.signals in
      rw (step_in-active p is_active, active, take_pending_lowest s i small takes lowest)
        (signalled-Signalled (suc i) (without_pending i s) p (omega arith) refl)
