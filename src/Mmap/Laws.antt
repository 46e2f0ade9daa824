-- ===== src/Mmap/Laws.antt =====
-- Which lengths pass, and what the calls do to the view of the space.
use ish_port_go.Prelude.{
  ℕ, ◌+◌, ◌-◌, ◌*◌, ◌/◌, ◌%◌, ◌^◌, ◌≤◌, ◌<◌, ◌≡◌, ◌↔◌, ◌⊎◌, refl, none, some, arith, ◌==◌, ◌||◌,
  ltb, if◌then◌else◌, ok, add32, bit_and, Option-cases, inl, inr,
}
use ish_port_go.Prelude.Bits.{bit_and-page, and_not-page}
use ish_port_go.AddressSpace.{AddressSpace, Mapping, remove, protect, mapping_at}
use ish_port_go.AddressSpace.Valid.{IsValid, view, within}
use ish_port_go.AddressSpace.Add.{bad_range-false}
use ish_port_go.AddressSpace.Remove.{IsSafe, remove-inv, remove-success}
use ish_port_go.AddressSpace.Protect.{protect-inv, protect-success}
use ish_port_go.Mmap.{page_length, prot, munmap, mprotect}

page_length-eq :
    (length : ℕ)
    → length < 2 ^ 32
    → page_length length ≡ (
        if length == 0 || ltb 0xffff_f001 length
        then none
        else some (add32 length 4095 - add32 length 4095 % 4096))
unfolding page_length
page_length-eq length lt = rw (and_not-page (add32 length 4095) (omega arith)) refl

-- `PageLength` of a 32-bit length: it refuses 0 and the lengths above 0xfffff001; it rounds a length
-- up to 0xfffff000 to the next multiple of the page size; and it takes 0xfffff001 to the size 0.
pub page_length_lem :
    (length : ℕ)
    → length < 2 ^ 32
    → ((page_length length ≡ none) ↔ ((length ≡ 0) ⊎ (0xffff_f001 < length)))
      × (0 < length
          → length ≤ 0xffff_f000
          → (size : ℕ) × (page_length length ≡ some size)
            × (size % 4096 ≡ 0)
            × (length ≤ size)
            × (size < length + 4096))
      × (length ≡ 0xffff_f001 → page_length length ≡ some 0)
page_length_lem length lt =
    let e = page_length-eq length lt in
    (
      (λ h. ground arith, λ h. ground arith),
      λ p q. (
        add32 length 4095 - add32 length 4095 % 4096,
        ground arith,
        omega arith,
        omega arith,
        omega arith,
      ),
      λ h. ground arith,
    )

munmap-inv :
    (a : AddressSpace) (addr length : ℕ) (b : AddressSpace)
    → munmap a addr length ≡ ok b
    → (size : ℕ) × (page_length length ≡ some size)
      × (bit_and addr 0xfff ≡ 0)
      × (remove a addr size ≡ ok b)
unfolding munmap
munmap-inv a addr length b e = elim (Option-cases (page_length length)) [
  | inl no_size ↦ ground arith
  | inr (size, h) ↦ (size, h, ground arith, ground arith)
]

mprotect-inv :
    (a : AddressSpace) (addr length flags : ℕ) (b : AddressSpace)
    → mprotect a addr length flags ≡ ok b
    → (size : ℕ) × (page_length length ≡ some size)
      × (bit_and addr 0xfff ≡ 0)
      × (protect a addr size (prot flags) ≡ ok b)
unfolding mprotect
mprotect-inv a addr length flags b e = elim (Option-cases (page_length length)) [
  | inl no_size ↦ ground arith
  | inr (size, h) ↦ (size, h, ground arith, ground arith)
]

-- The length in whole pages.
abbrev pub pages : ℕ → ℕ
pages length = (length + 4095) / 4096 * 4096

page_length-pages :
    (length size : ℕ)
    → length < 2 ^ 32
    → page_length length ≡ some size
    → 0 < size
    → size ≡ pages length
page_length-pages length size lt e p = let rounded = page_length-eq length lt in ground arith

pub page_length-some :
    (length : ℕ) → 0 < length → length ≤ 0xffff_f000 → page_length length ≡ some (pages length)
page_length-some length p q =
    let rounded = page_length-eq length (omega arith) in
    let same : add32 length 4095 - add32 length 4095 % 4096 ≡ pages length = omega arith in
    ground arith

page_length-lt :
    (length size : ℕ) → length < 2 ^ 32 → page_length length ≡ some size → size < 2 ^ 32
page_length-lt length size lt e = let rounded = page_length-eq length lt in ground arith

-- A successful `Munmap` of a 32-bit length in a well formed space, where the range splits no mapping
-- but perhaps the last: the address is that of a page, the space stays well formed, and exactly the
-- addresses of the pages that the length covers are unmapped.
pub munmap-success :
    (a : AddressSpace) (addr length : ℕ) (b : AddressSpace)
    → IsValid a
    → length < 2 ^ 32
    → IsSafe addr (addr + pages length) a.mappings
    → munmap a addr length ≡ ok b
    → (addr % 4096 ≡ 0)
      × IsValid b
      × ((x : ℕ) → view b x ≡ (if within addr (addr + pages length) x then none else view a x))
munmap-success a addr length b v lt safe e =
    let (size, sized, aligned, removed) = munmap-inv a addr length b e in
    let some_size = (bad_range-false a addr size v.word (remove-inv a addr size b removed).0).1 in
    let whole = page_length-pages length size lt sized (omega arith) in
    let (valid, hint, views) = remove-success a addr size b v (rw whole safe) removed in
    (omega (arith, bit_and-page addr), valid, rw whole at views)

-- A successful `Mprotect` of a 32-bit length in a well formed space: the address is that of a page,
-- one mapping covers the pages that the length covers, the space stays well formed, and exactly the
-- addresses of those pages have the new rights.
pub mprotect-success :
    (a : AddressSpace) (addr length flags : ℕ) (b : AddressSpace)
    → IsValid a
    → addr < 2 ^ 32
    → length < 2 ^ 32
    → mprotect a addr length flags ≡ ok b
    → (addr % 4096 ≡ 0)
      × IsValid b
      × ((m : Mapping) × (mapping_at a addr ≡ some m)
          × (addr + pages length ≤ m.end)
          × ((x : ℕ)
              → view b x ≡ (
                  if within addr (addr + pages length) x
                  then some (prot flags, m.name)
                  else view a x)))
mprotect-success a addr length flags b v addr-lt lt e =
    let (size, sized, aligned, protected) = mprotect-inv a addr length flags b e in
    let size-lt = page_length-lt length size lt sized in
    let some_size = (protect-inv a addr size (prot flags) b v.word addr-lt size-lt protected).1 in
    let whole = page_length-pages length size lt sized (omega arith) in
    let (m, here, covers, valid, views) =
      protect-success a addr size (prot flags) b v addr-lt size-lt protected in
    (omega (arith, bit_and-page addr), valid, (m, here, omega arith, rw whole at views))
