-- ===== src/AddressSpace/Access.antt =====
-- `checkRange`, `MappingAt` and `MapAnonymous`: an access is allowed exactly if every address of its
-- range is mapped with the rights that it needs.
use ish_port_go.Prelude.{
  ℕ, zero, suc, ◌+◌, ◌-◌, ◌≤◌, ◌<◌, ◌^◌, ◌≡◌, ◌≢◌, refl, true, some, List, [], ◌∷◌, arith, ltb,
  if◌then◌else◌, ok, err, String, bit_and, inl, inr, ◌↔◌, Result, ◌⊎◌, lt-or-ge,
}
use native.Mathlib.Decide.{ℕ_discrete}
use ish_port_go.AddressSpace.{
  Mapping, AddressSpace, is_free_in, mapping_at_in, check_from, check_range, map_anonymous, map_at,
  map_hole, find_hole, add,
}
use ish_port_go.AddressSpace.Valid.{Ordered, IsValid, view, within}
use ish_port_go.AddressSpace.Add.{max-add, add-success}
use ish_port_go.AddressSpace.Hole.{find_hole-success}
use ish_port_go.AddressSpace.Protect.{mapping_at_in-bounds}

-- A mapping with all the rights of `prot` holds the address.
pub record IsAllowed (ms : List Mapping) (prot x : ℕ) : Type 0 where
  pub mapping : Mapping
  pub found : mapping_at_in ms x ≡ some mapping
  pub rights : bit_and mapping.prot prot ≡ prot

-- In a well formed space one mapping answers for all of its addresses.
mapping_at_in_same :
    (lo top : ℕ) (ms : List Mapping) (x y : ℕ) (m : Mapping)
    → Ordered lo top ms
    → mapping_at_in ms x ≡ some m
    → m.start ≤ y
    → y < m.end
    → mapping_at_in ms y ≡ some m
unfolding mapping_at_in
mapping_at_in_same lo top [] x y m h e p q = cc
mapping_at_in_same lo top (k ∷ ks) x y m h e p q =
    ground
      (arith, mapping_at_in_same k.end top ks x y m h.3, mapping_at_in-bounds k.end top ks x m h.3)

-- Where the cursor goes next.
abbrev after : ℕ → Mapping → ℕ
after end m = if ltb m.end end then m.end else end

check_from-inv :
    (prot end fuel cursor : ℕ) (ms : List Mapping)
    → cursor < end
    → check_from ms prot end (suc fuel) cursor ≡ ok tt
    → (m : Mapping) × (mapping_at_in ms cursor ≡ some m)
      × (bit_and m.prot prot ≡ prot)
      × (cursor < m.end)
      × (check_from ms prot end fuel (after end m) ≡ ok tt)
unfolding check_from
check_from-inv prot end fuel cursor ms p e = ground arith

check_from-step :
    (prot end fuel cursor : ℕ) (ms : List Mapping) (m : Mapping)
    → cursor < end
    → mapping_at_in ms cursor ≡ some m
    → bit_and m.prot prot ≡ prot
    → cursor < m.end
    → check_from ms prot end (suc fuel) cursor ≡ check_from ms prot end fuel (after end m)
unfolding check_from
check_from-step prot end fuel cursor ms m p e r q = ground arith

check_from-done :
    (prot end fuel cursor : ℕ) (ms : List Mapping)
    → end ≤ cursor
    → check_from ms prot end fuel cursor ≡ ok tt
unfolding check_from
check_from-done prot end zero cursor ms p = ground arith
check_from-done prot end (suc fuel) cursor ms p = ground arith

check_from-zero :
    (prot end cursor : ℕ) (ms : List Mapping)
    → check_from ms prot end 0 cursor ≡ ok tt
    → end ≤ cursor
unfolding check_from
check_from-zero prot end cursor ms e = ground arith

module _ (lo top prot end : ℕ) (ms : List Mapping) (h : Ordered lo top ms) where
  check_from_sound :
      (fuel cursor : ℕ)
      → check_from ms prot end fuel cursor ≡ ok tt
      → (x : ℕ) → cursor ≤ x
      → x < end
      → IsAllowed ms prot x
  check_from_sound zero cursor e x p q =
      absurd (omega (arith, check_from-zero prot end cursor ms e))
  check_from_sound (suc fuel) cursor e x p q =
      let (m, found, rights, below, rest) =
        check_from-inv prot end fuel cursor ms (omega arith) e in
      let bounds = mapping_at_in-bounds lo top ms cursor m h found in
      elim (lt-or-ge x m.end) [
        | inl here ↦ record {
          mapping = m;
          found = mapping_at_in_same lo top ms cursor x m h found (omega arith) here;
          rights = rights;
        }
        | inr later ↦ check_from_sound fuel (after end m) rest x (ground arith) q
      ]

  check_from_complete :
      (fuel cursor : ℕ)
      → end - cursor ≤ fuel
      → ((x : ℕ) → cursor ≤ x → x < end → IsAllowed ms prot x)
      → check_from ms prot end fuel cursor ≡ ok tt
  check_from_complete zero cursor d all = check_from-done prot end 0 cursor ms (omega arith)
  check_from_complete (suc fuel) cursor d all = elim (lt-or-ge cursor end) [
    | inr done ↦ check_from-done prot end (suc fuel) cursor ms done
    | inl more ↦
        let here = all cursor (omega arith) more in
        let bounds = mapping_at_in-bounds lo top ms cursor here.mapping h here.found in
        rw
          (check_from-step prot end fuel cursor ms here.mapping more here.found here.rights
            bounds.2)
          (check_from_complete fuel (after end here.mapping) (ground arith)
            (λ x p q. all x (ground arith) q))
  ]

check_range-inv :
    (a : AddressSpace) (addr width prot : ℕ)
    → a.max < 2 ^ 32
    → 0 < width
    → (check_range a addr width prot ≡ ok tt)
      ↔ ((addr + width ≤ a.max) × (check_from a.mappings prot (addr + width) width addr ≡ ok tt))
unfolding check_range
check_range-inv a addr width prot w p = ground arith

-- In a well formed space `checkRange` of a range that is not empty succeeds exactly if the range lies
-- inside the space and each of its addresses is mapped with all the rights asked for; so its loop
-- never stops early.
pub check_range_iff :
    (a : AddressSpace) (addr width prot : ℕ)
    → IsValid a
    → 0 < width
    → (check_range a addr width prot ≡ ok tt) ↔ (
        (addr + width ≤ a.max)
        × ((x : ℕ) → addr ≤ x → x < addr + width → IsAllowed a.mappings prot x))
check_range_iff a addr width prot v p =
    let inv = check_range-inv a addr width prot v.word p in
    (
      λ e.
          let (inside, run) = inv.0 e in
          (
            inside,
            check_from_sound 0 a.max prot (addr + width) a.mappings v.ordered width addr run,
          ),
      λ (inside, all). inv.1 (
        inside,
        check_from_complete 0 a.max prot (addr + width) a.mappings v.ordered width addr
            (omega arith) all,
      ),
    )

map_at-inv :
    (a : AddressSpace) (addr size prot : ℕ) (name : String) (mapped : ℕ) (b : AddressSpace)
    → map_at a addr size prot name ≡ (ok mapped, b)
    → (mapped ≡ addr) × (add a addr size prot name ≡ ok b)
unfolding map_at
map_at-inv a addr size prot name mapped b e = ground arith

map_hole-inv :
    (a : AddressSpace) (size prot : ℕ) (name : String) (r : Result (ℕ × AddressSpace)) (mapped : ℕ)
    (b : AddressSpace)
    → map_hole a size prot name r ≡ (ok mapped, b)
    → (hole : ℕ) × (a' : AddressSpace) × (r ≡ ok (hole, a'))
      × (map_at a' hole size prot name ≡ (ok mapped, b))
unfolding map_hole
map_hole-inv a size prot name (err e) mapped b h = cc
map_hole-inv a size prot name (ok (hole, a')) mapped b h = (hole, a', refl, h)

map_anonymous-chosen :
    (a : AddressSpace) (addr size prot : ℕ) (name : String) (mapped : ℕ) (b : AddressSpace)
    → addr ≡ 0
    → map_anonymous a addr size prot name ≡ (ok mapped, b)
    → (hole : ℕ) × (a' : AddressSpace) × (find_hole a size a.next_hint ≡ ok (hole, a'))
      × (map_at a' hole size prot name ≡ (ok mapped, b))
unfolding map_anonymous
map_anonymous-chosen a addr size prot name mapped b z e =
    map_hole-inv a size prot name (find_hole a size a.next_hint) mapped b (ground arith)

map_anonymous-given :
    (a : AddressSpace) (addr size prot : ℕ) (name : String) (mapped : ℕ) (b : AddressSpace)
    → addr ≢ 0
    → map_anonymous a addr size prot name ≡ (ok mapped, b)
    → map_at a addr size prot name ≡ (ok mapped, b)
unfolding map_anonymous
map_anonymous-given a addr size prot name mapped b z e = ground arith

-- A successful `MapAnonymous` of a well formed space that reaches to 0x1000 at least: it maps the
-- range at the address it returns, and changes what is mapped there alone; the range was free, and the
-- space stays well formed, with its size. The address is the one asked for and the hint stays, or 0 was
-- asked for and the hint is the end of the range.
pub map_anonymous-success :
    (a : AddressSpace) (addr size prot : ℕ) (name : String) (mapped : ℕ) (b : AddressSpace)
    → IsValid a
    → 0x1000 ≤ a.max
    → map_anonymous a addr size prot name ≡ (ok mapped, b)
    → IsValid b
      × ((addr ≢ 0) × (addr ≡ mapped) × (b.next_hint ≡ a.next_hint)
          ⊎ (addr ≡ 0) × (b.next_hint ≡ mapped + size))
      × (b.max ≡ a.max)
      × (mapped + size ≤ a.max)
      × (is_free_in a.mappings mapped (mapped + size) ≡ true)
      × ((x : ℕ)
          → view b x ≡ (if within mapped (mapped + size) x then some (prot, name) else view a x))
unfolding view
map_anonymous-success a addr size prot name mapped b v top e = elim (ℕ_discrete addr 0) [
  | no given ↦
      let done = map_anonymous-given a addr size prot name mapped b given e in
      let (same, added) = map_at-inv a addr size prot name mapped b done in
      let (valid, inside, free, hint, views) = add-success a addr size prot name b v added in
      rw same
        (valid, inl (given, refl, hint), max-add a addr size prot name b added, inside, free, views)
  | yes chosen ↦
      let (hole, a', found, done) = map_anonymous-chosen a addr size prot name mapped b chosen e in
      let (same, added) = map_at-inv a' hole size prot name mapped b done in
      let moved = (find_hole-success a size a.next_hint hole a' v top found).1 in
      let added' = rw moved at added in
      let v' : IsValid (record a { next_hint = hole + size }) = record {
        ordered = v.ordered;
        word = v.word;
      } in
      let (valid, inside, free, hint, views) =
        add-success (record a { next_hint = hole + size }) hole size prot name b v' added' in
      rw same (
        valid,
        inr (chosen, hint),
        max-add (record a { next_hint = hole + size }) hole size prot name b added',
        inside,
        free,
        views,
      )
]
