-- ===== src/Descriptors/Lowest.antt =====
-- internal/kernel/syscall.go: `allocateFD` finds the lowest free descriptor.
use ish_port_go.Prelude.{
  ℕ, zero, suc, ◌+◌, ◌-◌, ◌<◌, ◌≤◌, ◌≡◌, sym, ◌∙◌, arith, max, true, false, Bool-cases, inl, inr,
  lt-or-ge, none,
}
use mathlib.Core.Path.{subst}
use ish_port_go.Descriptors.{Table, handle_for_fd, is_taken, allocate_from, allocate_fd, valid_fd}

-- No descriptor from the bound on has a handle.
pub record IsBounded (t : Table) : Type 0 where
  pub at : (fd : ℕ) → t.bound ≤ fd → t.fds fd ≡ none

-- A descriptor is passed over exactly if it has a handle.
is_taken-eq-valid_fd : (t : Table) (fd : ℕ) → is_taken t fd ≡ valid_fd t fd
unfolding is_taken valid_fd handle_for_fd
is_taken-eq-valid_fd t fd = ground arith

allocate_from_lem :
    (t : Table) (rounds fd : ℕ)
    → is_taken t (fd + rounds) ≡ false
    → (fd ≤ allocate_from t rounds fd)
      × (is_taken t (allocate_from t rounds fd) ≡ false)
      × ((j : ℕ) → fd ≤ j → j < allocate_from t rounds fd → is_taken t j ≡ true)
unfolding allocate_from
allocate_from_lem t zero fd free = (
  omega arith,
  subst (λ (k : ℕ). is_taken t k ≡ false) (omega arith) free,
  λ j from below. absurd (omega arith),
)
allocate_from_lem t (suc rounds) fd free = elim (Bool-cases (is_taken t fd)) [
  | inl taken ↦
      let next : is_taken t (fd + 1 + rounds) ≡ false =
        subst (λ (k : ℕ). is_taken t k ≡ false) (omega arith) free in
      let (later, stops, passed) = allocate_from_lem t rounds (fd + 1) next in
      rw taken (
        omega arith,
        stops,
        λ j from below. elim (lt-or-ge fd j) [
          | inl after ↦ passed j (omega arith) below
          | inr at_most ↦ subst (λ (k : ℕ). is_taken t k ≡ true) (omega arith) taken
        ],
      )
  | inr vacant ↦ rw vacant (omega arith, vacant, λ j from below. absurd (omega arith))
]

beyond : (t : Table) (fd : ℕ) → IsBounded t → t.bound ≤ fd → 3 ≤ fd → is_taken t fd ≡ false
unfolding is_taken
beyond t fd b above high = ground (arith, b.at fd above)

le_max : (a b : ℕ) → (a ≤ max a b) × (b ≤ max a b)
le_max a b = omega arith

-- `allocateFD`, where no descriptor from the bound on has a handle, returns a descriptor from the start
-- on that does not stand for a file, and every descriptor between the start and it stands for one; a
-- standard descriptor stands for the terminal until it is closed.
pub allocate_fd_lem :
    (t : Table) (start : ℕ)
    → IsBounded t
    → (start ≤ allocate_fd t start)
      × (valid_fd t (allocate_fd t start) ≡ false)
      × ((j : ℕ) → start ≤ j → j < allocate_fd t start → valid_fd t j ≡ true)
unfolding allocate_fd
allocate_fd_lem t start b =
    let last = start + (max t.bound 3 - start) in
    let vacant = beyond t last b (omega (arith, le_max)) (omega (arith, le_max)) in
    let (from, stops, passed) = allocate_from_lem t (max t.bound 3 - start) start vacant in
    (
      from,
      sym (is_taken-eq-valid_fd t _) ∙ stops,
      λ j after below. sym (is_taken-eq-valid_fd t j) ∙ passed j after below,
    )
