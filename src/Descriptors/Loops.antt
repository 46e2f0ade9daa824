-- ===== src/Descriptors/Loops.antt =====
-- internal/kernel/syscall.go: `CloseCloexec`, `CloseOnExit` and `CloneForChild` keep the counts of the
-- pipes.
use ish_port_go.Prelude.{
  ℕ, zero, suc, ◌+◌, ◌≤◌, ◌≡◌, refl, ◌∙◌, arith, Bool, true, false, if◌then◌else◌, Bool-cases, inl,
  inr, Option, none, some,
}
use ish_port_go.Descriptors.{Handle, Table, World}
use ish_port_go.Descriptors.Inherit.{close_if, close_chosen, close_cloexec, close_on_exit}
use ish_port_go.Descriptors.Counted.{
  IsCounted, IsOpen, count, count-close_handle, next_pipe-close_handle,
}
use ish_port_go.Descriptors.Counted.Sums.{weight, refs}

-- The descriptors that are chosen, and the others.
abbrev chosen_of : (ℕ → Bool) → (ℕ → Option Handle) → ℕ → Option Handle
chosen_of chosen fds fd = if chosen fd then fds fd else none

abbrev others_of : (ℕ → Bool) → (ℕ → Option Handle) → ℕ → Option Handle
others_of chosen fds fd = if chosen fd then none else fds fd

weightless : (n p : ℕ) (writes : Bool) → n + weight p writes none ≡ n
unfolding weight
weightless n p writes = omega arith

close_if-count :
    (test : Bool) (o : Option Handle) (w : World) (p : ℕ) (writes : Bool)
    → IsOpen o
    → weight p writes (if test then o else none) ≤ count w p writes
    → count (close_if test o w) p writes + weight p writes (if test then o else none)
      ≡ count w p writes
unfolding close_if
close_if-count false o w p writes is_open le = weightless (count w p writes) p writes
close_if-count true none w p writes is_open le = weightless (count w p writes) p writes
close_if-count true (some h) w p writes is_open le =
    omega (arith, count-close_handle h w p writes is_open, le)

close_if-next_pipe :
    (test : Bool) (o : Option Handle) (w : World) → (close_if test o w).next_pipe ≡ w.next_pipe
unfolding close_if
close_if-next_pipe false o w = refl
close_if-next_pipe true none w = refl
close_if-next_pipe true (some h) w = next_pipe-close_handle h w

module _ (chosen : ℕ → Bool) (fds : ℕ → Option Handle) where
  refs-split :
      (p : ℕ) (writes : Bool) (n : ℕ)
      → refs p writes fds n
        ≡ refs p writes (chosen_of chosen fds) n + refs p writes (others_of chosen fds) n
  unfolding refs weight
  refs-split p writes zero = omega arith
  refs-split p writes (suc n) = elim (Bool-cases (chosen n)) [
    | inl taken ↦ rw taken (omega (arith, refs-split p writes n))
    | inr left ↦ rw left (omega (arith, refs-split p writes n))
  ]

  close_chosen-next_pipe :
      (n : ℕ) (w : World) → (close_chosen chosen fds n w).next_pipe ≡ w.next_pipe
  unfolding close_chosen
  close_chosen-next_pipe zero w = refl
  close_chosen-next_pipe (suc n) w =
      close_if-next_pipe (chosen n) (fds n) (close_chosen chosen fds n w)
      ∙ close_chosen-next_pipe n w

  close_chosen-count :
      (p : ℕ) (writes : Bool) (n : ℕ) (w : World)
      → ((fd : ℕ) → IsOpen (fds fd))
      → refs p writes (chosen_of chosen fds) n ≤ count w p writes
      → count (close_chosen chosen fds n w) p writes + refs p writes (chosen_of chosen fds) n
        ≡ count w p writes
  unfolding close_chosen refs
  close_chosen-count p writes zero w are_open le = omega arith
  close_chosen-count p writes (suc n) w are_open le =
      let before = close_chosen-count p writes n w are_open (omega (arith, le)) in
      omega (
        arith,
        before,
        close_if-count (chosen n) (fds n) (close_chosen chosen fds n w) p writes (are_open n)
            (omega (arith, before, le)),
      )

-- The chosen descriptors are closed and taken out.
close_chosen-IsCounted :
    {elsewhere : ℕ → Bool → ℕ} {fds : ℕ → Option Handle} {bound : ℕ} {w : World} (chosen : ℕ → Bool)
    → IsCounted elsewhere fds bound w
    → IsCounted elsewhere (others_of chosen fds) bound (close_chosen chosen fds bound w)
close_chosen-IsCounted {fds = fds} {bound = bound} {w = w} chosen c =
    let count_of = λ (p : ℕ) (writes : Bool).
      close_chosen-count chosen fds p writes bound w c.are_open
        (omega (arith, refs-split chosen fds p writes bound, c.counts p writes)) in
    record {
      bounded = λ fd above. elim (Bool-cases (chosen fd)) [
        | inl taken ↦ rw taken
        | inr left ↦ rw left (c.bounded fd above)
      ];
      are_open = λ fd. elim (Bool-cases (chosen fd)) [
        | inl taken ↦ rw taken tt
        | inr left ↦ rw left (c.are_open fd)
      ];
      counts = λ p writes.
          omega (arith, count_of p writes, refs-split chosen fds p writes bound, c.counts p writes);
      fresh = λ p writes from.
          omega
            (arith, count_of p writes, c.fresh p writes, close_chosen-next_pipe chosen fds bound w);
    }

module _ {elsewhere : ℕ → Bool → ℕ} (t : Table) (w : World)
    (c : IsCounted elsewhere t.fds t.bound w) where
  pub close_cloexec-IsCounted :
      IsCounted elsewhere
        (close_cloexec t w).0.fds
        (close_cloexec t w).0.bound
        (close_cloexec t w).1
  unfolding close_cloexec
  close_cloexec-IsCounted = close_chosen-IsCounted t.cloexec c

  pub close_on_exit-IsCounted :
      IsCounted elsewhere
        (close_on_exit t w).0.fds
        (close_on_exit t w).0.bound
        (close_on_exit t w).1
  unfolding close_on_exit
  close_on_exit-IsCounted = close_chosen-IsCounted (λ fd. true) c
