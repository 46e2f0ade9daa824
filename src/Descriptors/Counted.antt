-- ===== src/Descriptors/Counted.antt =====
-- internal/kernel/syscall.go: the open ends that a pipe counts are the descriptors that refer to it.
pub mod Sums
use ish_port_go.Prelude.{
  ℕ, zero, suc, ◌+◌, ◌-◌, ◌<◌, ◌≤◌, ◌≡◌, ◌≢◌, refl, sym, ◌∙◌, ap, arith, max, Bool, true, false,
  ◌&&◌, ◌||◌, not, ◌==◌, if◌then◌else◌, Bool-cases, Option-cases, inl, inr, lt-or-ge, Option, none,
  some,
}
use ish_port_go.Pipe.{PipeBuffer, PipeEnd, clone_end, close_end}
use ish_port_go.Descriptors.{
  Handle, terminal, pipe_end, file, virtual, Table, World, update, close_handle, clone_handle,
}
use Sums.{weight, refs, refs-update, refs-beyond, weight-le-refs}

-- The open ends of a kind that a pipe counts: for writing or for reading.
unfoldable pub count : World → ℕ → Bool → ℕ
count w p true = (w.pipes p).writers
count w p false = (w.pipes p).readers

-- A handle of a pipe that stands in a descriptor is open.
abbrev pub IsOpen : Option Handle → Type 0
IsOpen none = Unit
IsOpen (some terminal) = Unit
IsOpen (some (file f)) = Unit
IsOpen (some (virtual v)) = Unit
IsOpen (some (pipe_end p h)) = h.closed ≡ false

-- The open ends of every pipe are the descriptors below the bound that refer to them, and those that
-- stand elsewhere.
pub record IsCounted (elsewhere : ℕ → Bool → ℕ) (fds : ℕ → Option Handle) (bound : ℕ) (w : World)
    : Type 0 where
  pub bounded : (fd : ℕ) → bound ≤ fd → fds fd ≡ none
  pub are_open : (fd : ℕ) → IsOpen (fds fd)
  pub counts :
      (p : ℕ) (writes : Bool) → count w p writes ≡ refs p writes fds bound + elsewhere p writes
  pub fresh : (p : ℕ) (writes : Bool) → w.next_pipe ≤ p → count w p writes ≡ 0

pub count-close_handle :
    (h : Handle) (w : World) (p : ℕ) (writes : Bool)
    → IsOpen (some h)
    → count (close_handle h w) p writes ≡ count w p writes - weight p writes (some h)
unfolding close_handle close_end count weight
count-close_handle terminal w p true is_open = omega arith
count-close_handle terminal w p false is_open = omega arith
count-close_handle (file f) w p true is_open = omega arith
count-close_handle (virtual v) w p true is_open = omega arith
count-close_handle (file f) w p false is_open = omega arith
count-close_handle (virtual v) w p false is_open = omega arith
count-close_handle (pipe_end q h) w p true is_open = ground (arith, is_open)
count-close_handle (pipe_end q h) w p false is_open = ground (arith, is_open)

pub count-clone_handle :
    (h : Handle) (w : World) (p : ℕ) (writes : Bool)
    → count (clone_handle h w).1 p writes ≡ count w p writes + weight p writes (some h)
unfolding clone_handle clone_end count weight
count-clone_handle terminal w p true = omega arith
count-clone_handle terminal w p false = omega arith
count-clone_handle (file f) w p true = omega arith
count-clone_handle (virtual v) w p true = omega arith
count-clone_handle (file f) w p false = omega arith
count-clone_handle (virtual v) w p false = omega arith
count-clone_handle (pipe_end q h) w p true = ground arith
count-clone_handle (pipe_end q h) w p false = ground arith

pub weight-clone_handle :
    (h : Handle) (w : World) (p : ℕ) (writes : Bool)
    → weight p writes (some (clone_handle h w).0) ≡ weight p writes (some h)
unfolding clone_handle clone_end weight
weight-clone_handle terminal w p writes = refl
weight-clone_handle (file f) w p writes = refl
weight-clone_handle (virtual v) w p writes = refl
weight-clone_handle (pipe_end q h) w p true = refl
weight-clone_handle (pipe_end q h) w p false = refl

pub clone_handle-IsOpen : (h : Handle) (w : World) → IsOpen (some (clone_handle h w).0)
unfolding clone_handle clone_end
clone_handle-IsOpen terminal w = tt
clone_handle-IsOpen (file f) w = tt
clone_handle-IsOpen (virtual v) w = tt
clone_handle-IsOpen (pipe_end q h) w = refl

pub next_pipe-close_handle : (h : Handle) (w : World) → (close_handle h w).next_pipe ≡ w.next_pipe
unfolding close_handle
next_pipe-close_handle terminal w = refl
next_pipe-close_handle (file f) w = refl
next_pipe-close_handle (virtual v) w = refl
next_pipe-close_handle (pipe_end q h) w = refl

pub next_pipe-clone_handle : (h : Handle) (w : World) → (clone_handle h w).1.next_pipe ≡ w.next_pipe
unfolding clone_handle
next_pipe-clone_handle terminal w = refl
next_pipe-clone_handle (file f) w = refl
next_pipe-clone_handle (virtual v) w = refl
next_pipe-clone_handle (pipe_end q h) w = refl

module _ {elsewhere : ℕ → Bool → ℕ} {fds : ℕ → Option Handle} {bound : ℕ} {w : World}
    (c : IsCounted elsewhere fds bound w) where
  -- A handle in a descriptor refers to a pipe that has its number.
  pub weight-fresh : (fd p : ℕ) (writes : Bool) → w.next_pipe ≤ p → weight p writes (fds fd) ≡ 0
  unfolding weight
  weight-fresh fd p writes fresh = elim (lt-or-ge fd bound) [
    | inl below ↦ omega (
      arith,
      weight-le-refs p writes fds bound fd below,
      c.counts p writes,
      c.fresh p writes fresh,
    )
    | inr above ↦ rw (c.bounded fd above)
  ]

  -- What stands in a descriptor is exchanged, and the pipes count it.
  pub exchange-IsCounted :
      (fd wider : ℕ) (x : Option Handle) (v : World)
      → bound ≤ wider
      → fd < wider
      → IsOpen x
      → v.next_pipe ≡ w.next_pipe
      → ((p : ℕ) (writes : Bool)
          → count v p writes + weight p writes (fds fd) ≡ count w p writes + weight p writes x)
      → ((p : ℕ) (writes : Bool) → w.next_pipe ≤ p → weight p writes x ≡ 0)
      → IsCounted elsewhere (update fds fd x) wider v
  exchange-IsCounted fd wider x v wide inside is_open same counts fresh = record {
    bounded = λ j above. ground (arith, c.bounded j);
    are_open = λ j. elim (Bool-cases (j == fd)) [
      | inl here ↦ rw here is_open
      | inr apart ↦ rw apart (c.are_open j)
    ];
    counts = λ p writes. omega (
      arith,
      refs-update p writes fds wider fd x inside,
      counts p writes,
      c.counts p writes,
      refs-beyond p writes fds bound wider wide c.bounded,
    );
    fresh = λ p writes from.
        omega (
          arith,
          counts p writes,
          c.fresh p writes,
          fresh p writes,
          same,
          weight-fresh fd p writes,
        );
  }
