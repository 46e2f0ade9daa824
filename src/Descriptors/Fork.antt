-- ===== src/Descriptors/Fork.antt =====
-- internal/kernel/syscall.go: the descriptors of the child that `CloneForChild` makes.
use ish_port_go.Prelude.{
  ℕ, zero, suc, ◌+◌, ◌≤◌, ◌≡◌, refl, ◌∙◌, arith, Bool, Bool-cases, inl, inr, Option, none, some,
  ◌==◌,
}
use ish_port_go.Descriptors.{Handle, Table, World}
use ish_port_go.Descriptors.Inherit.{clone_if, clone_below, clone_for_child}
use ish_port_go.Descriptors.Counted.{
  IsCounted, IsOpen, count, count-clone_handle, weight-clone_handle, clone_handle-IsOpen,
  next_pipe-clone_handle,
}
use ish_port_go.Descriptors.Counted.Sums.{weight, refs, refs-update}

-- A round's copy refers to what the handle refers to, and the pipes count it.
record IsCopied (o x : Option Handle) (w v : World) : Type 0 where
  counted : (p : ℕ) (writes : Bool) → count v p writes ≡ count w p writes + weight p writes o
  alike : (p : ℕ) (writes : Bool) → weight p writes x ≡ weight p writes o
  is_open : IsOpen x
  next : v.next_pipe ≡ w.next_pipe

clone_if-IsCopied : (o : Option Handle) (w : World) → IsCopied o (clone_if o w).0 w (clone_if o w).1
unfolding clone_if weight
clone_if-IsCopied none w = record {
  counted = λ p writes. omega arith;
  alike = λ p writes. refl;
  is_open = tt;
  next = refl;
}
clone_if-IsCopied (some h) w = record {
  counted = λ p writes. count-clone_handle h w p writes;
  alike = λ p writes. weight-clone_handle h w p writes;
  is_open = clone_handle-IsOpen h w;
  next = next_pipe-clone_handle h w;
}

-- The copies below a bound.
record AreCopied (fds copies : ℕ → Option Handle) (n : ℕ) (w v : World) : Type 0 where
  counted : (p : ℕ) (writes : Bool) → count v p writes ≡ count w p writes + refs p writes fds n
  alike : (p : ℕ) (writes : Bool) → refs p writes copies n ≡ refs p writes fds n
  are_open : (fd : ℕ) → IsOpen (copies fd)
  above : (fd : ℕ) → n ≤ fd → copies fd ≡ none
  next : v.next_pipe ≡ w.next_pipe

clone_below-AreCopied :
    (fds : ℕ → Option Handle) (n : ℕ) (w : World)
    → AreCopied fds (clone_below fds n w).0 n w (clone_below fds n w).1
unfolding clone_below refs
clone_below-AreCopied fds zero w = record {
  counted = λ p writes. omega arith;
  alike = λ p writes. refl;
  are_open = λ fd. tt;
  above = λ fd from. refl;
  next = refl;
}
clone_below-AreCopied fds (suc n) w =
    let copies = (clone_below fds n w).0 in
    let v = (clone_below fds n w).1 in
    let before = clone_below-AreCopied fds n w in
    let here = clone_if-IsCopied (fds n) v in
    record {
      counted = λ p writes. omega (arith, here.counted p writes, before.counted p writes);
      alike = λ p writes. omega (
        arith,
        refs-update p writes copies (suc n) n (clone_if (fds n) v).0 (omega arith),
        here.alike p writes,
        before.alike p writes,
      );
      are_open = λ fd. elim (Bool-cases (fd == n)) [
        | inl same ↦ rw same here.is_open
        | inr apart ↦ rw apart (before.are_open fd)
      ];
      above = λ fd from. ground (arith, before.above fd);
      next = here.next ∙ before.next;
    }

-- The descriptors that a table has, beside those elsewhere.
abbrev pub beside : (ℕ → Bool → ℕ) → Table → ℕ → Bool → ℕ
beside elsewhere t p writes = elsewhere p writes + refs p writes t.fds t.bound

module _ {elsewhere : ℕ → Bool → ℕ} (t : Table) (w : World)
    (c : IsCounted elsewhere t.fds t.bound w) where
  -- `CloneForChild`, where the pipes count the descriptors of the parent and those elsewhere: they then
  -- count those of the child as well, seen from the child and from the parent.
  pub clone_for_child-IsCounted :
      IsCounted
        (beside elsewhere t)
        (clone_for_child t w).0.fds
        (clone_for_child t w).0.bound
        (clone_for_child t w).1
      × IsCounted (beside elsewhere (clone_for_child t w).0) t.fds t.bound (clone_for_child t w).1
  unfolding clone_for_child
  clone_for_child-IsCounted =
      let copied = clone_below-AreCopied t.fds t.bound w in
      let fresh : (p : ℕ) (writes : Bool)
          → w.next_pipe ≤ p
          → count (clone_below t.fds t.bound w).1 p writes ≡ 0 =
        λ p writes from.
          omega (arith, copied.counted p writes, c.counts p writes, c.fresh p writes from) in
      (
        record {
          bounded = copied.above;
          are_open = copied.are_open;
          counts = λ p writes.
              omega (arith, copied.counted p writes, copied.alike p writes, c.counts p writes);
          fresh = λ p writes from. fresh p writes (omega (arith, copied.next));
        },
        record {
          bounded = c.bounded;
          are_open = c.are_open;
          counts = λ p writes.
              omega (arith, copied.counted p writes, copied.alike p writes, c.counts p writes);
          fresh = λ p writes from. fresh p writes (omega (arith, copied.next));
        },
      )
