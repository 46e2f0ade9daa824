-- ===== src/Signal/Pending/Tests.antt =====
-- A taken signal, and the witness of its property.
use ish_port_go.Prelude.{ℕ, suc, ◌^◌, ◌<◌, ◌≡◌, ◌⊎◌, refl, true, false, ◌∷◌, none, some, []}
use ish_port_go.AddressSpace.{AddressSpace}
use ish_port_go.Memory.{Memory, check, check_access, read32, of_bytes, slice}
use ish_port_go.Signal.{SignalAction}
use ish_port_go.Signal.Pending.{
  SignalState, and_not64, first_set, take_pending, queue_signal, sigprocmask, update_mask, set_mask,
  change_mask, read_signal_set, write_signal_set,
}
use ish_port_go.Signal.Pending.Lowest.{Takes, take_pending_lem}

abbrev default_action : SignalAction
default_action = record { handler = 0; restorer = 0; flags = 0; mask = 0 }

-- Signals 1, 3 and 9 are pending, and signal 1 is blocked.
abbrev queued : SignalState
queued = record { mask = 1; pending = 0x105; actions = λ k. default_action }

take_three : (take_pending queued).0 ≡ some (3, default_action)
unfolding take_pending first_set
take_three = refl

abbrev no_actions : SignalState
no_actions = record { mask = 0; pending = 0; actions = λ k. default_action }

queue_three : queue_signal 3 no_actions ≡ record no_actions { pending = 4 }
unfolding queue_signal
queue_three = refl

abbrev nowhere : AddressSpace
nowhere = record { mappings = []; max = 16; next_hint = 0 }

-- A signal set at 8 with digit 8, which is signal 9.
abbrev blocked_nine : Memory
blocked_nine = record {
  bytes = 0 ∷ 0 ∷ 0 ∷ 0 ∷ 0 ∷ 0 ∷ 0 ∷ 0 ∷ 0 ∷ 1 ∷ 0 ∷ 0 ∷ 0 ∷ 0 ∷ 0 ∷ 0 ∷ [];
  protected = false;
  space = nowhere;
}

take_pending_lem_example :
    (((take_pending queued).0 ≡ none) × ((j : ℕ) → j < 64 → ¬ Takes queued j))
    ⊎ ((i : ℕ) × (i < 64)
        × (take_pending queued ≡ (
          some (suc i, default_action),
          record queued { pending = and_not64 queued.pending (2 ^ i) },
        ))
        × Takes queued i
        × ((j : ℕ) → j < i → ¬ Takes queued j))
take_pending_lem_example = take_pending_lem queued

-- A guest can block signal 9, which Linux leaves open.
kill_blocked : (sigprocmask 0 8 0 8 true no_actions blocked_nine).1.mask ≡ 0x100
unfolding sigprocmask update_mask set_mask change_mask read_signal_set write_signal_set read32
    check_access check of_bytes slice
kill_blocked = refl
