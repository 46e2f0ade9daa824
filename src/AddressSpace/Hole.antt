-- ===== src/AddressSpace/Hole.antt =====
-- `FindHole`: what it returns is free, and it fails only if no hole of the size is left.
use ish_port_go.Prelude.{
  ℕ, ◌+◌, ◌≤◌, ◌<◌, ◌^◌, ◌≡◌, refl, true, false, none, some, List, [], ◌∷◌, arith, ltb,
  if◌then◌else◌, ok, err, add32, no_hole,
}
use ish_port_go.AddressSpace.{
  Mapping, AddressSpace, is_free_in, is_free, find_hole, scan_holes, try_candidate,
}
use ish_port_go.AddressSpace.Valid.{Ordered, IsValid}

-- A range of `size` bytes at `c` inside the space, which meets no mapping.
pub record IsHole (a : AddressSpace) (size c : ℕ) : Type 0 where
  pub inside : c + size ≤ a.max
  pub free : is_free_in a.mappings c (c + size) ≡ true

free_below :
    (lo top start end : ℕ) (ms : List Mapping)
    → Ordered lo top ms
    → end ≤ lo
    → is_free_in ms start end ≡ true
unfolding is_free_in
free_below lo top start end [] h le = refl
free_below lo top start end (m ∷ ms) h le =
    ground (arith, free_below m.end top start end ms h.3 (omega arith))

scan_holes-found :
    (lo top size : ℕ) (ms : List Mapping) (cursor c : ℕ)
    → top < 2 ^ 32
    → 0 < size
    → Ordered lo top ms
    → lo ≤ cursor
    → cursor ≤ top
    → scan_holes top size ms cursor ≡ some c
    → (cursor ≤ c) × (c + size ≤ top) × (is_free_in ms c (c + size) ≡ true)
unfolding scan_holes is_free_in
scan_holes-found lo top size [] cursor c w p h le in_top e = ground arith
scan_holes-found lo top size (m ∷ ms) cursor c w p h le in_top e = ground (
  arith,
  free_below m.end top cursor (cursor + size) ms h.3,
  scan_holes-found m.end top size ms (if ltb cursor m.end then m.end else cursor) c w p h.3,
)

scan_holes-none :
    (lo top size : ℕ) (ms : List Mapping) (cursor c : ℕ)
    → top < 2 ^ 32
    → 0 < size
    → Ordered lo top ms
    → lo ≤ cursor
    → cursor ≤ top
    → scan_holes top size ms cursor ≡ none
    → cursor ≤ c
    → c + size ≤ top
    → is_free_in ms c (c + size) ≡ false
unfolding scan_holes is_free_in
scan_holes-none lo top size [] cursor c w p h le in_top e q r = ground arith
scan_holes-none lo top size (m ∷ ms) cursor c w p h le in_top e q r = ground (
  arith,
  scan_holes-none m.end top size ms (if ltb cursor m.end then m.end else cursor) c w p h.3,
)

try_candidate-found :
    (a : AddressSpace) (size candidate c : ℕ)
    → a.max < 2 ^ 32
    → try_candidate a size candidate ≡ some c
    → IsHole a size c
unfolding try_candidate is_free
try_candidate-found a size candidate c w e = ground arith

scan_holes-IsHole :
    (a : AddressSpace) (size c : ℕ)
    → IsValid a
    → 0x1000 ≤ a.max
    → 0 < size
    → scan_holes a.max size a.mappings 0x1000 ≡ some c
    → IsHole a size c
scan_holes-IsHole a size c v top p e =
    let (low, inside, free) =
      scan_holes-found 0 a.max size a.mappings 0x1000 c v.word p v.ordered (omega arith) top e in
    record { inside = inside; free = free }

add32-IsHole :
    (a : AddressSpace) (size c : ℕ) → a.max < 2 ^ 32 → IsHole a size c → add32 c size ≡ c + size
add32-IsHole a size c w h = omega (arith, h.inside)

-- What a successful `FindHole` returns is a hole of the size; it records the address after it, and
-- leaves the mappings alone. The space reaches to 0x1000 at least.
pub find_hole-success :
    (a : AddressSpace) (size hint c : ℕ) (b : AddressSpace)
    → IsValid a
    → 0x1000 ≤ a.max
    → find_hole a size hint ≡ ok (c, b)
    → IsHole a size c × (b ≡ record a { next_hint = c + size })
unfolding find_hole
find_hole-success a size hint c b v top e = ground (
  arith,
  add32-IsHole a size c v.word,
  try_candidate-found a size (if ltb hint 0x1000 then 0x1000 else hint) c v.word,
  try_candidate-found a size a.next_hint c v.word,
  scan_holes-IsHole a size c v top,
)

-- Where `FindHole` reports that there is no hole, every range of the size above the first page and
-- inside the space meets a mapping.
pub find_hole-none :
    (a : AddressSpace) (size hint c : ℕ)
    → IsValid a
    → 0x1000 ≤ a.max
    → find_hole a size hint ≡ err no_hole
    → 0x1000 ≤ c
    → c + size ≤ a.max
    → is_free_in a.mappings c (c + size) ≡ false
unfolding find_hole
find_hole-none a size hint c v top e q r =
    let (p, scanned) = inv e in
    scan_holes-none 0 a.max size a.mappings 0x1000 c v.word p v.ordered (omega arith) top scanned q
      r
  where
    inv :
        find_hole a size hint ≡ err no_hole
        → (0 < size) × (scan_holes a.max size a.mappings 0x1000 ≡ none)
    inv e = ground arith
