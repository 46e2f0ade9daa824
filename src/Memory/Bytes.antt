-- ===== src/Memory/Bytes.antt =====
-- Runs of bytes: what a copy into them leaves, and numbers as bytes.
use ish_port_go.Prelude.{
  ℕ, zero, suc, ◌+◌, ◌/◌, ◌≤◌, ◌<◌, ◌^◌, ◌≡◌, refl, List, [], ◌∷◌, arith, length, get_or, set,
  length-set, get_or-set_self, get_or-set_ne, ap, ◌⊎◌, inl, ◌∙◌,
}
use native.Mathlib.Nat.{pow-suc}
use ish_port_go.Memory.{slice, copy_to, of_bytes, to_bytes}

pub length-copy_to : (d : List ℕ) (a : ℕ) (vs : List ℕ) → length (copy_to d a vs) ≡ length d
unfolding copy_to
length-copy_to d a [] = refl
length-copy_to d a (v ∷ vs) = rw (length-copy_to (set d a v) (a + 1) vs, length-set d a v)

pub length-slice : (d : List ℕ) (a n : ℕ) → length (slice d a n) ≡ n
unfolding slice
length-slice d a zero = refl
length-slice d a (suc n) = ap suc (length-slice d (a + 1) n)

pub length-to_bytes : (n v : ℕ) → length (to_bytes n v) ≡ n
unfolding to_bytes
length-to_bytes zero v = refl
length-to_bytes (suc n) v = ap suc (length-to_bytes n (v / 256))

-- A copy changes nothing outside its range.
pub copy_to_outside :
    (d : List ℕ) (a : ℕ) (vs : List ℕ) (i : ℕ)
    → (i < a) ⊎ (a + length vs ≤ i)
    → get_or (copy_to d a vs) i 0 ≡ get_or d i 0
unfolding copy_to
copy_to_outside d a [] i h = refl
copy_to_outside d a (v ∷ vs) i h =
    rw (copy_to_outside (set d a v) (a + 1) vs i (omega arith))
      (get_or-set_ne d a i v 0 (omega arith))

-- Reading back what was copied.
pub slice-copy_to :
    (d : List ℕ) (a : ℕ) (vs : List ℕ)
    → a + length vs ≤ length d
    → slice (copy_to d a vs) a (length vs) ≡ vs
unfolding copy_to slice
slice-copy_to d a [] h = refl
slice-copy_to d a (v ∷ vs) h =
    let first : get_or (copy_to (set d a v) (a + 1) vs) a 0 ≡ v =
      copy_to_outside (set d a v) (a + 1) vs a (inl (omega arith))
      ∙ get_or-set_self d a v 0 (omega arith) in
    let room : a + 1 + length vs ≤ length (set d a v) = omega (arith, length-set d a v) in
    rw (first, slice-copy_to (set d a v) (a + 1) vs room)

-- Two runs of bytes that agree at each address of a range have the same slice there.
pub slice_ext :
    (d e : List ℕ) (a n : ℕ)
    → ((i : ℕ) → a ≤ i → i < a + n → get_or d i 0 ≡ get_or e i 0)
    → slice d a n ≡ slice e a n
unfolding slice
slice_ext d e a zero h = refl
slice_ext d e a (suc n) h = rw (
  h a (omega arith) (omega arith),
  slice_ext d e (a + 1) n (λ i p q. h i (omega arith) (omega arith)),
)

pub slice-copy_to_apart :
    (d : List ℕ) (a : ℕ) (vs : List ℕ) (b n : ℕ)
    → (b + n ≤ a) ⊎ (a + length vs ≤ b)
    → slice (copy_to d a vs) b n ≡ slice d b n
slice-copy_to_apart d a vs b n h =
    slice_ext (copy_to d a vs) d b n (λ i p q. copy_to_outside d a vs i (omega arith))

-- The bytes of a number that fits give the number back.
pub of_bytes-to_bytes : (n v : ℕ) → v < 256 ^ n → of_bytes (to_bytes n v) ≡ v
unfolding of_bytes to_bytes
of_bytes-to_bytes zero v h = omega arith
of_bytes-to_bytes (suc n) v h =
    rw (of_bytes-to_bytes n (v / 256) (omega (arith, pow-suc 256 n))) (omega arith)
