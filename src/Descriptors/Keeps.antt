-- ===== src/Descriptors/Keeps.antt =====
-- internal/kernel/syscall.go: `dup2`, `dup3`, `close`, `fcntl` and `open` keep the counts of the pipes.
use ish_port_go.Prelude.{
  ℕ, ◌+◌, ◌≤◌, ◌≡◌, refl, ◌∙◌, ap, arith, max, Bool, true, false, ◌&&◌, ◌==◌, ◌⊎◌, if◌then◌else◌,
  Bool-cases, Option-cases, inl, inr, lt-or-ge, Option, none, some, has,
}
use mathlib.Core.Path.{subst}
use ish_port_go.Prelude.Int.{ℤ}
use ish_port_go.Descriptors.{
  Handle, terminal, pipe_end, file, virtual, Table, World, update, close_handle, clone_handle,
  handle_for_fd, valid_fd, install, install_copy, same_handle, close_old, dup_install, dup, forget,
  close, fcntl_dup, fcntl_flags, fcntl, allocate_fd, on_handle,
}
use ish_port_go.Descriptors.Counted.{
  IsCounted, IsOpen, count, count-close_handle, count-clone_handle, weight-clone_handle,
  clone_handle-IsOpen, next_pipe-close_handle, next_pipe-clone_handle, weight-fresh,
  exchange-IsCounted,
}
use ish_port_go.Descriptors.Counted.Sums.{weight, weight-le-refs}
use ish_port_go.Descriptors.Lowest.{allocate_fd_lem}

-- Of a call's reply, table and world.
pub record Kept (elsewhere : ℕ → Bool → ℕ) (r : ℤ × Table × World) : Type 0 where
  pub counted : IsCounted elsewhere r.1.fds r.1.bound r.2

same_handle-weight :
    (old h : Handle) (p : ℕ) (writes : Bool)
    → same_handle old h ≡ true
    → weight p writes (some old) ≡ 0
unfolding same_handle weight
same_handle-weight terminal h p writes same = refl
same_handle-weight (file f) h p writes same = refl
same_handle-weight (virtual v) h p writes same = refl
same_handle-weight (pipe_end q g) h p writes same = absurd (cc (same))

close_old-count :
    (old : Option Handle) (h : Handle) (w : World) (p : ℕ) (writes : Bool)
    → IsOpen old
    → weight p writes old ≤ count w p writes
    → count (close_old old h w) p writes + weight p writes old ≡ count w p writes
unfolding close_old weight
close_old-count none h w p writes is_open le = omega arith
close_old-count (some old) h w p writes is_open le = elim (Bool-cases (same_handle old h)) [
  | inl same ↦ rw same (omega (arith, same_handle-weight old h p writes same))
  | inr apart ↦ rw apart (omega (arith, count-close_handle old w p writes is_open, le))
]

next_pipe-close_old :
    (old : Option Handle) (h : Handle) (w : World) → (close_old old h w).next_pipe ≡ w.next_pipe
unfolding close_old
next_pipe-close_old none h w = refl
next_pipe-close_old (some old) h w = elim (Bool-cases (same_handle old h)) [
  | inl same ↦ rw same
  | inr apart ↦ rw apart (next_pipe-close_handle old w)
]

handle_for_fd-inv :
    (t : Table) (fd : ℕ) (h : Handle)
    → handle_for_fd t fd ≡ some h
    → (t.fds fd ≡ some h) ⊎ (h ≡ terminal)
unfolding handle_for_fd
handle_for_fd-inv t fd h found = elim (Option-cases (t.fds fd)) [
  | inl absent ↦ inr (ground (arith, found))
  | inr (g, there) ↦ inl (ground (arith, found))
]

fcntl_flags-fds :
    (fd command argument : ℕ) (t : Table)
    → ((fcntl_flags fd command argument t).1.fds ≡ t.fds)
      × ((fcntl_flags fd command argument t).1.bound ≡ t.bound)
unfolding fcntl_flags
fcntl_flags-fds fd command argument t = (ground arith, ground arith)

pub valid_fd-fds : (t : Table) (fd : ℕ) → valid_fd t fd ≡ false → t.fds fd ≡ none
unfolding valid_fd handle_for_fd
valid_fd-fds t fd free = ground arith

module _ {elsewhere : ℕ → Bool → ℕ} where
  keep :
      {reply : ℤ} {t : Table} {w : World}
      → IsCounted elsewhere t.fds t.bound w
      → Kept elsewhere (reply, t, w)
  keep c = record { counted = c }

  Kept-if :
      (test : Bool) (this other : ℤ × Table × World)
      → Kept elsewhere this
      → Kept elsewhere other
      → Kept elsewhere (if test then this else other)
  Kept-if true this other p q = p
  Kept-if false this other p q = q

  Kept-handle :
      (o : Option Handle) (without : ℤ × Table × World) (found : Handle → ℤ × Table × World)
      → Kept elsewhere without
      → ((h : Handle) → o ≡ some h → Kept elsewhere (found h))
      → Kept elsewhere (on_handle o without found)
  unfolding on_handle
  Kept-handle none without found p q = p
  Kept-handle (some h) without found p q = q h refl

  -- A descriptor's handle refers to its pipe, so the pipe counts it.
  weight-le-count :
      {fds : ℕ → Option Handle} {bound : ℕ} {w : World} (c : IsCounted elsewhere fds bound w)
      (fd p : ℕ) (writes : Bool)
      → weight p writes (fds fd) ≤ count w p writes
  unfolding weight
  weight-le-count {fds = fds} {bound = bound} {w = w} c fd p writes = elim (lt-or-ge fd bound) [
    | inl below ↦ omega (arith, weight-le-refs p writes fds bound fd below, c.counts p writes)
    | inr above ↦ rw (c.bounded fd above) (omega arith)
  ]

  module _ (t : Table) (w : World) (c : IsCounted elsewhere t.fds t.bound w) where
    -- What a descriptor stands for refers to a pipe that has its number.
    handle_for_fd-fresh :
        (fd : ℕ) (h : Handle) (p : ℕ) (writes : Bool)
        → handle_for_fd t fd ≡ some h
        → w.next_pipe ≤ p
        → weight p writes (some h) ≡ 0
    unfolding weight
    handle_for_fd-fresh fd h p writes found fresh = elim (handle_for_fd-inv t fd h found) [
      | inl there ↦
          subst (λ (o : Option Handle). weight p writes o ≡ 0) there
            (weight-fresh c fd p writes fresh)
      | inr same ↦ rw same
    ]

    -- A copy of a handle takes the place of what stands under a descriptor.
    replace-Kept :
        (fd : ℕ) (h : Handle) (cloexec : Bool)
        → ((p : ℕ) (writes : Bool) → w.next_pipe ≤ p → weight p writes (some h) ≡ 0)
        → Kept elsewhere (install_copy fd cloexec t (clone_handle h (close_old (t.fds fd) h w)))
    unfolding install_copy install
    replace-Kept fd h cloexec fresh =
        let w1 = close_old (t.fds fd) h w in
        keep (
          exchange-IsCounted c fd (max t.bound (fd + 1)) (some (clone_handle h w1).0)
            (clone_handle h w1).1 (omega arith) (omega arith) (clone_handle-IsOpen h w1)
            (next_pipe-clone_handle h w1 ∙ next_pipe-close_old (t.fds fd) h w)
            (λ p writes. omega (
              arith,
              close_old-count (t.fds fd) h w p writes (c.are_open fd)
                  (weight-le-count c fd p writes),
              count-clone_handle h w1 p writes,
              weight-clone_handle h w1 p writes,
            ))
            (λ p writes from. weight-clone_handle h w1 p writes ∙ fresh p writes from))

    same-Kept : (reply : ℤ) → Kept elsewhere (reply, t, w)
    same-Kept reply = keep c

    dup_install-Kept :
        (old_fd new_fd flags : ℕ) (dup3 : Bool) (h : Handle)
        → handle_for_fd t old_fd ≡ some h
        → Kept elsewhere (dup_install h new_fd flags dup3 t w)
    unfolding dup_install
    dup_install-Kept old_fd new_fd flags dup3 h found =
        replace-Kept new_fd h (dup3 && has flags 0x80000)
          (λ p writes. handle_for_fd-fresh old_fd h p writes found)

    pub dup-Kept :
        (old_fd new_fd flags : ℕ) (dup3 : Bool) → Kept elsewhere (dup old_fd new_fd flags dup3 t w)
    unfolding dup
    dup-Kept old_fd new_fd flags dup3 =
        search (Kept-if, Kept-handle, same-Kept, dup_install-Kept old_fd new_fd flags dup3)

    -- A copy under a descriptor that had no handle.
    add-Kept :
        (fd : ℕ) (h : Handle) (cloexec : Bool)
        → t.fds fd ≡ none
        → ((p : ℕ) (writes : Bool) → w.next_pipe ≤ p → weight p writes (some h) ≡ 0)
        → Kept elsewhere (install_copy fd cloexec t (clone_handle h w))
    unfolding close_old
    add-Kept fd h cloexec vacant fresh =
        subst
          (λ (o : Option Handle).
            Kept elsewhere (install_copy fd cloexec t (clone_handle h (close_old o h w))))
          vacant (replace-Kept fd h cloexec fresh)

    flags-Kept :
        (fd command argument : ℕ)
        → Kept elsewhere
            ((fcntl_flags fd command argument t).0, (fcntl_flags fd command argument t).1, w)
    flags-Kept fd command argument =
        let (fds, bound) = fcntl_flags-fds fd command argument t in keep (rw (fds, bound) c)

    fcntl_dup-Kept :
        (fd argument : ℕ) (cloexec : Bool) (h : Handle)
        → handle_for_fd t fd ≡ some h
        → Kept elsewhere (fcntl_dup h cloexec argument t w)
    unfolding fcntl_dup
    fcntl_dup-Kept fd argument cloexec h found =
        add-Kept (allocate_fd t argument) h cloexec
          (valid_fd-fds t _ (allocate_fd_lem t argument (record { at = c.bounded })).1)
          (λ p writes. handle_for_fd-fresh fd h p writes found)

    pub fcntl-Kept : (fd command argument : ℕ) → Kept elsewhere (fcntl fd command argument t w)
    unfolding fcntl
    fcntl-Kept fd command argument =
        search (
          Kept-if,
          Kept-handle,
          same-Kept,
          flags-Kept,
          fcntl_dup-Kept fd argument (command == 1030),
        )

    -- A handle that is closed leaves its descriptor.
    pub drop-Kept :
        (fd : ℕ) (h : Handle)
        → t.fds fd ≡ some h
        → IsCounted elsewhere (update t.fds fd none) t.bound (close_handle h w)
    unfolding weight
    drop-Kept fd h there = elim (lt-or-ge fd t.bound) [
      | inl below ↦
          let is_open = subst (λ (o : Option Handle). IsOpen o) there (c.are_open fd) in
          exchange-IsCounted c fd t.bound none (close_handle h w) (omega arith) below tt
            (next_pipe-close_handle h w)
            (λ p writes. omega (
              arith,
              weight-le-count c fd p writes,
              count-close_handle h w p writes is_open,
              ap (λ (o : Option Handle). weight p writes o) there,
            ))
            (λ p writes from. refl)
      | inr above ↦ absurd (cc (there, c.bounded fd above))
    ]

    forget-Kept :
        (fd : ℕ) (reply : ℤ) (h : Handle)
        → t.fds fd ≡ some h
        → Kept elsewhere (reply, forget fd t, close_handle h w)
    unfolding forget
    forget-Kept fd reply h there = keep (drop-Kept fd h there)

    shut-Kept :
        (fd : ℕ) (reply : ℤ)
        → Kept elsewhere (reply, record t { closed = update t.closed fd true }, w)
    shut-Kept fd reply = keep c

    pub close-Kept : (fd : ℕ) → Kept elsewhere (close fd t w)
    unfolding close
    close-Kept fd = search (Kept-if, Kept-handle, same-Kept, shut-Kept, forget-Kept fd)
