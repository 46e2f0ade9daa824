-- ===== src/AddressSpace.antt =====
-- internal/i386/address_space.go: the mapping metadata of a guest address space. The bytes stand in
-- `Memory`. A `uint32` is a number below 2 ^ 32 and its sums wrap; `err` is a returned error, and
-- leaves the receiver as it was.
pub mod Ends
pub mod Valid
pub mod Add
pub mod Remove
pub mod Protect
pub mod Hole
pub mod Access
mod Tests
use ish_port_go.Prelude.{
  ℕ, zero, suc, ◌+◌, ◌-◌, String, Bool, true, false, ◌&&◌, ◌||◌, not, Option, none, some, List, [],
  ◌∷◌, ◌++◌, ltb, leb, ◌==◌, if◌then◌else◌, get_elem?, take, length, add32, sub32, and_not, bit_and,
  Result, ok, err, ◌>>=◌, ◌>>◌, fail_if, unmapped_access, memory_fault, protection_fault,
  invalid_mapping, invalid_range, overlap, not_mapped, no_hole, outside, out_of_fuel,
}

abbrev pub prot_read : ℕ
prot_read = 1

abbrev pub prot_write : ℕ
prot_write = 2

abbrev pub prot_exec : ℕ
prot_exec = 4

pub record Mapping : Type 0 where
  pub start : ℕ
  pub end : ℕ
  pub prot : ℕ
  pub name : String

-- The fields of `AddressSpace` but `Mem`.
pub record AddressSpace : Type 0 where
  pub mappings : List Mapping
  pub max : ℕ
  pub next_hint : ℕ

-- start < m.End && end > m.Start
abbrev pub overlaps : ℕ → ℕ → Mapping → Bool
overlaps start end m = ltb start m.end && ltb m.start end

unfoldable pub is_free_in : List Mapping → ℕ → ℕ → Bool
is_free_in [] start end = true
is_free_in (m ∷ ms) start end =
    let rest = is_free_in ms start end in if overlaps start end m then false else rest

unfoldable pub is_free : AddressSpace → ℕ → ℕ → Bool
unfolding is_free_in
is_free a start end = is_free_in a.mappings start end

-- `sort.Slice` by `Start`.
unfoldable pub insert_mapping : Mapping → List Mapping → List Mapping
insert_mapping m [] = m ∷ []
insert_mapping m (x ∷ xs) =
    let rest = insert_mapping m xs in if ltb x.start m.start then x ∷ rest else m ∷ x ∷ xs

unfoldable pub sort_mappings : List Mapping → List Mapping
unfolding insert_mapping
sort_mappings [] = []
sort_mappings (m ∷ ms) = insert_mapping m (sort_mappings ms)

-- size == 0 || start > a.Max || size > a.Max-start
abbrev pub bad_range : AddressSpace → ℕ → ℕ → Bool
bad_range a start size = size == 0 || ltb a.max start || ltb (a.max - start) size

unfoldable pub add : AddressSpace → ℕ → ℕ → ℕ → String → Result AddressSpace
unfolding is_free_in sort_mappings
add a start size prot name = do
  fail_if (bad_range a start size) invalid_mapping
  let end = add32 start size
  fail_if (not (is_free_in a.mappings start end)) overlap
  ok (record a {
    mappings =
        sort_mappings
          (a.mappings ++ record { start = start; end = end; prot = prot; name = name } ∷ []);
  })

-- `append(a.Mappings[:k], m)`: the write goes to the array that the loop of `remove` still reads.
unfoldable pub append_at : List Mapping → ℕ → Mapping → List Mapping
append_at [] k m = m ∷ []
append_at (x ∷ xs) zero m = m ∷ xs
append_at (x ∷ xs) (suc k) m = x ∷ append_at xs k m

-- The parts of `m` below and above the range.
abbrev pub left_part : ℕ → Mapping → Mapping
left_part start m = record m { end = start }

abbrev pub right_part : ℕ → Mapping → Mapping
right_part end m = record m { start = end }

-- One round of the loop, on the array and the length of `out`.
unfoldable pub remove_round : ℕ → ℕ → Mapping → List Mapping → ℕ → List Mapping × ℕ
unfolding append_at
remove_round start end m arr k =
    if leb end m.start || leb m.end start
    then (append_at arr k m, k + 1)
    else (let (arr', k') = below in
        if ltb end m.end then (append_at arr' k' (right_part end m), k' + 1) else (arr', k'))
  where
    below : List Mapping × ℕ
    below = if ltb m.start start then (append_at arr k (left_part start m), k + 1) else (arr, k)

-- `for _, m := range a.Mappings`, from index `i`, with `n` rounds left.
unfoldable pub remove_loop : ℕ → ℕ → ℕ → List Mapping → ℕ → ℕ → List Mapping
unfolding remove_round
remove_loop start end zero arr i k = take k arr
remove_loop start end (suc n) arr i k = elim (get_elem? arr i) [
  | none ↦ take k arr
  | some m ↦
      let (arr', k') = remove_round start end m arr k in remove_loop start end n arr' (i + 1) k'
]

unfoldable pub remove : AddressSpace → ℕ → ℕ → Result AddressSpace
unfolding remove_loop
remove a start size = do
  fail_if (bad_range a start size) invalid_mapping
  ok (record a {
    mappings = remove_loop start (add32 start size) (length a.mappings) a.mappings 0 0;
  })

-- The parts that take the place of the first mapping that covers the range.
unfoldable pub protect_parts : ℕ → ℕ → ℕ → Mapping → List Mapping
protect_parts start end prot m =
    (if ltb m.start start then left_part start m ∷ [] else [])
    ++ (record { start = start; end = end; prot = prot; name = m.name }
        ∷ (if ltb end m.end then right_part end m ∷ [] else []))

unfoldable pub protect_in : ℕ → ℕ → ℕ → List Mapping → Option (List Mapping)
unfolding protect_parts
protect_in start end prot [] = none
protect_in start end prot (m ∷ ms) =
    let rest = protect_in start end prot ms in
    if leb m.start start && leb end m.end
    then some (protect_parts start end prot m ++ ms)
    else (elim rest [ none ↦ none | some ms' ↦ some (m ∷ ms') ])

unfoldable pub protect : AddressSpace → ℕ → ℕ → ℕ → Result AddressSpace
unfolding protect_in
protect a start size prot =
    let end = add32 start size in
    if size == 0 || ltb end start || ltb a.max end
    then err invalid_range
    else elim (protect_in start end prot a.mappings) [
      | none ↦ err not_mapped
      | some ms ↦ ok (record a { mappings = ms })
    ]

unfoldable pub mapping_at_in : List Mapping → ℕ → Option Mapping
mapping_at_in [] addr = none
mapping_at_in (m ∷ ms) addr =
    let rest = mapping_at_in ms addr in if leb m.start addr && ltb addr m.end then some m else rest

unfoldable pub mapping_at : AddressSpace → ℕ → Option Mapping
unfolding mapping_at_in
mapping_at a addr = mapping_at_in a.mappings addr

-- The loop over `candidates`: a page-aligned candidate that fits and is free.
unfoldable pub try_candidate : AddressSpace → ℕ → ℕ → Option ℕ
unfolding is_free
try_candidate a size candidate =
    let c = and_not candidate 0xfff in
    if ltb a.max c || ltb (a.max - c) size
    then none
    else if is_free a c (add32 c size)
    then some c
    else none

-- The scan for the first gap; at the end the test of the room above the last mapping.
unfoldable pub scan_holes : ℕ → ℕ → List Mapping → ℕ → Option ℕ
scan_holes max size [] cursor = if leb size (sub32 max cursor) then some cursor else none
scan_holes max size (m ∷ ms) cursor =
    let rest = scan_holes max size ms (if ltb cursor m.end then m.end else cursor) in
    if leb cursor m.start && leb size (m.start - cursor) then some cursor else rest

unfoldable pub find_hole : AddressSpace → ℕ → ℕ → Result (ℕ × AddressSpace)
unfolding try_candidate scan_holes
find_hole a size hint =
    if size == 0 || ltb a.max size
    then err invalid_range
    else elim (try_candidate a size (if ltb hint 0x1000 then 0x1000 else hint)) [
      | some c ↦ found c
      | none ↦ elim (try_candidate a size a.next_hint) [
        | some c ↦ found c
        | none ↦ elim (scan_holes a.max size a.mappings 0x1000) [
          | some c ↦ found c
          | none ↦ err no_hole
        ]
      ]
    ]
  where
    found : ℕ → Result (ℕ × AddressSpace)
    found c = ok (c, record a { next_hint = add32 c size })

-- The loop of `checkRange`, with fuel; `mapping.End <= cursor` is the guard of the source.
unfoldable pub check_from : List Mapping → ℕ → ℕ → ℕ → ℕ → Result (Unit {0})
unfolding mapping_at_in
check_from ms prot end zero cursor = if ltb cursor end then err out_of_fuel else ok tt
check_from ms prot end (suc fuel) cursor =
    let next =
      λ (m : Mapping). check_from ms prot end fuel (if ltb m.end end then m.end else end) in
    if ltb cursor end
    then (elim (mapping_at_in ms cursor) [
      | none ↦ err unmapped_access
      | some m ↦
          if not (bit_and m.prot prot == prot)
          then err protection_fault
          else if leb m.end cursor
          then err invalid_mapping
          else next m
    ])
    else ok tt

-- The cursor grows in each round, so `width` rounds are enough.
unfoldable pub check_range : AddressSpace → ℕ → ℕ → ℕ → Result (Unit {0})
check_range a addr width prot =
    if width == 0
    then ok tt
    else if ltb a.max addr || ltb (a.max - addr) width
    then err memory_fault
    else check_from a.mappings prot (add32 addr width) width addr

-- `b, err := a.Add(...)` at the end of `MapAnonymous`: what `FindHole` wrote stays on an error.
unfoldable pub map_at : AddressSpace → ℕ → ℕ → ℕ → String → Result ℕ × AddressSpace
map_at a addr size prot name = elim (add a addr size prot name) [
  | ok b ↦ (ok addr, b)
  | err e ↦ (err e, a)
]

-- What follows the call of `FindHole`.
unfoldable pub map_hole :
    AddressSpace → ℕ → ℕ → String → Result (ℕ × AddressSpace) → Result ℕ × AddressSpace
map_hole a size prot name (err e) = (err e, a)
map_hole a size prot name (ok (hole, a')) = map_at a' hole size prot name

unfoldable pub map_anonymous : AddressSpace → ℕ → ℕ → ℕ → String → Result ℕ × AddressSpace
map_anonymous a addr size prot name =
    if addr == 0
    then map_hole a size prot name (find_hole a size a.next_hint)
    else if ltb a.max addr || ltb (a.max - addr) size || ltb (add32 addr size) addr
    then (err outside, a)
    else if not (is_free a addr (add32 addr size))
    then (err overlap, a)
    else map_at a addr size prot name
