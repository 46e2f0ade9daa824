-- ===== src/Descriptors/Counted/Sums.antt =====
-- How many descriptors refer to one kind of end of a pipe.
use ish_port_go.Prelude.{
  ℕ, zero, suc, ◌+◌, ◌<◌, ◌≤◌, ◌≡◌, refl, ap, arith, Bool, true, false, not, ◌&&◌, ◌==◌,
  if◌then◌else◌, inl, inr, lt-or-ge, Option, none, some,
}
use ish_port_go.Pipe.{PipeEnd}
use ish_port_go.Descriptors.{Handle, terminal, pipe_end, file, virtual, update}

-- The end is one for writing, or one for reading.
abbrev pub is_kind : Bool → PipeEnd → Bool
is_kind true h = h.write
is_kind false h = not h.write

unfoldable pub weight : ℕ → Bool → Option Handle → ℕ
weight p writes none = 0
weight p writes (some terminal) = 0
weight p writes (some (file f)) = 0
weight p writes (some (virtual v)) = 0
weight p writes (some (pipe_end q h)) = if p == q && is_kind writes h then 1 else 0

-- Over the descriptors below a bound.
unfoldable pub refs : ℕ → Bool → (ℕ → Option Handle) → ℕ → ℕ
refs p writes fds zero = 0
refs p writes fds (suc n) = weight p writes (fds n) + refs p writes fds n

module _ (p : ℕ) (writes : Bool) (fds : ℕ → Option Handle) where
  -- A descriptor that is not counted may hold anything.
  refs-update_above :
      (n fd : ℕ) (x : Option Handle)
      → n ≤ fd
      → refs p writes (update fds fd x) n ≡ refs p writes fds n
  unfolding refs
  refs-update_above zero fd x above = refl
  refs-update_above (suc n) fd x above =
      let apart : n == fd ≡ false = ground arith in
      rw apart (omega (arith, refs-update_above n fd x (omega arith)))

  pub refs-update :
      (n fd : ℕ) (x : Option Handle)
      → fd < n
      → refs p writes (update fds fd x) n + weight p writes (fds fd)
        ≡ refs p writes fds n + weight p writes x
  unfolding refs
  refs-update zero fd x below = absurd (omega arith)
  refs-update (suc n) fd x below = elim (lt-or-ge fd n) [
    | inl lower ↦
        let apart : n == fd ≡ false = ground arith in
        rw apart (omega (arith, refs-update n fd x lower))
    | inr last ↦
        let here : fd ≡ n = omega arith in
        let same : n == fd ≡ true = ground arith in
        rw same (
          omega (
            arith,
            refs-update_above n fd x (omega arith),
            ap (λ (k : ℕ). weight p writes (fds k)) here,
          ))
  ]

  -- Above the last handle nothing is added.
  pub refs-beyond :
      (n m : ℕ)
      → n ≤ m
      → ((fd : ℕ) → n ≤ fd → fds fd ≡ none)
      → refs p writes fds m ≡ refs p writes fds n
  unfolding refs weight
  refs-beyond n zero up bare = let same : n ≡ zero = omega arith in rw same
  refs-beyond n (suc m) up bare = elim (lt-or-ge m n) [
    | inl last ↦ let same : n ≡ suc m = omega arith in rw same
    | inr more ↦ rw (bare m more) (omega (arith, refs-beyond n m more bare))
  ]

  pub weight-le-refs : (n fd : ℕ) → fd < n → weight p writes (fds fd) ≤ refs p writes fds n
  unfolding refs
  weight-le-refs zero fd below = absurd (omega arith)
  weight-le-refs (suc n) fd below = elim (lt-or-ge fd n) [
    | inl lower ↦ omega (arith, weight-le-refs n fd lower)
    | inr last ↦ let here : fd ≡ n = omega arith in rw here (omega arith)
  ]
