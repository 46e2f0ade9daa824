-- ===== src/AddressSpace/Remove.antt =====
-- `Remove`: what its loop leaves, as the parts of each mapping outside the range. The loop writes its
-- output over the array that it reads, so this holds where no write overtakes the reading.
mod Loop
pub mod Inside
pub use Loop.{carve_one, carve, splits, IsSafe}
use ish_port_go.Prelude.{
  ℕ, ◌+◌, ◌-◌, ◌≤◌, ◌<◌, ◌^◌, String, ◌≡◌, refl, Bool, true, false, Option, none, some, List, [],
  ◌∷◌, ◌++◌, arith, ltb, leb, if◌then◌else◌, ◌⊎◌, inl, inr, ok, add32, length, ◌&&◌, ◌||◌, ◌==◌,
  not,
}
use ish_port_go.AddressSpace.{
  Mapping, AddressSpace, remove, bad_range, remove_loop, left_part, right_part,
}
use ish_port_go.AddressSpace.Valid.{Ordered, IsValid, view_in, view, within, holds, Ordered-weaken}
use ish_port_go.AddressSpace.Add.{bad_range-false}
use Loop.{remove_loop-carve}

carve_one-Ordered :
    (start end lo top : ℕ) (m : Mapping) (r : List Mapping)
    → start < end
    → lo ≤ m.start
    → m.start < m.end
    → m.end ≤ top
    → Ordered m.end top r
    → Ordered lo top (carve_one start end m ++ r)
unfolding carve_one
carve_one-Ordered start end lo top m r p a b c h =
    ground (arith, Ordered-weaken m.end start top r, Ordered-weaken m.end lo top r)

-- The parts of the mappings outside the range, in the order of the mappings, are well formed.
carve-Ordered :
    (start end lo top : ℕ) (ms : List Mapping)
    → start < end
    → Ordered lo top ms
    → Ordered lo top (carve start end ms)
unfolding carve
carve-Ordered start end lo top [] p h = h
carve-Ordered start end lo top (m ∷ ms) p h =
    carve_one-Ordered start end lo top m (carve start end ms) p h.0 h.1 h.2
      (carve-Ordered start end m.end top ms p h.3)

view-carve_one :
    (start end : ℕ) (m : Mapping) (r : List Mapping) (x : ℕ)
    → start < end
    → view_in (carve_one start end m ++ r) x
      ≡ (if holds m x && not (within start end x) then some (m.prot, m.name) else view_in r x)
unfolding carve_one view_in
view-carve_one start end m r x p = ground arith

-- They say of an address outside the range what the mappings say, and of one inside nothing.
view-carve :
    (start end : ℕ) (ms : List Mapping) (x : ℕ)
    → start < end
    → view_in (carve start end ms) x ≡ (if within start end x then none else view_in ms x)
unfolding carve view_in
view-carve start end [] x p = ground arith
view-carve start end (m ∷ ms) x p =
    rw (view-carve_one start end m (carve start end ms) x p, view-carve start end ms x p)
      (ground arith)

pub remove-inv :
    (a : AddressSpace) (start size : ℕ) (b : AddressSpace)
    → remove a start size ≡ ok b
    → (bad_range a start size ≡ false)
      × (b ≡ record a {
        mappings = remove_loop start (add32 start size) (length a.mappings) a.mappings 0 0;
      })
unfolding remove
remove-inv a start size b e = ground arith

-- Where the range splits no mapping but perhaps the last one, a successful `Remove` keeps the space
-- well formed, unmaps exactly the addresses of the range, and changes nothing else.
pub remove-success :
    (a : AddressSpace) (start size : ℕ) (b : AddressSpace)
    → IsValid a
    → IsSafe start (start + size) a.mappings
    → remove a start size ≡ ok b
    → IsValid b
      × (b.next_hint ≡ a.next_hint)
      × ((x : ℕ) → view b x ≡ (if within start (start + size) x then none else view a x))
unfolding view
remove-success a start size b v safe e =
    let (good, same) = remove-inv a start size b e in
    let (sum, ne, fits) = bad_range-false a start size v.word good in
    let same' = rw sum at same in
    let end = start + size in
    rw
      (
        same',
        remove_loop-carve start end a.mappings a.mappings 0 0 refl (omega arith) (omega arith) safe,
      )
      (
        record { ordered = carve-Ordered start end 0 a.max a.mappings ne v.ordered; word = v.word },
        refl,
        λ x. view-carve start end a.mappings x ne,
      )
