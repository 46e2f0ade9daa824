-- ===== src/Remap/Shrink.antt =====
-- `mremap` to fewer pages.
use ish_port_go.Prelude.{
  ℕ, ◌+◌, ◌-◌, ◌≤◌, ◌<◌, ◌%◌, ◌≡◌, refl, sym, ap, String, true, false, none, some, arith, add32,
  ltb, ◌==◌, nonzero, bit_and, if◌then◌else◌, length, ok, Option-cases, inl, inr, ◌∙◌,
}
use mathlib.Core.Path.{subst}
use ish_port_go.Prelude.Bits.{bit_and-page}
use ish_port_go.AddressSpace.{AddressSpace, Mapping, bad_range, remove, remove_loop, mapping_at}
use ish_port_go.AddressSpace.Valid.{IsValid, view, within}
use ish_port_go.AddressSpace.Protect.{mapping_at_in-bounds}
use ish_port_go.AddressSpace.Remove.{IsSafe, remove-success}
use ish_port_go.Mmap.{page_length}
use ish_port_go.Mmap.Laws.{pages, page_length-some}
use ish_port_go.Remap.{MapState, Reply, mapped, with_space, is_covered, mremap, remap_sized, resize}
use ish_port_go.Remap.Covered.{no_view, kind_of, covers, end-IsEdge}

-- `Remove` of a range inside the space reports no error.
remove_inside :
    (a : AddressSpace) (start size : ℕ)
    → 0 < size
    → start + size ≤ a.max
    → (b : AddressSpace) × (remove a start size ≡ ok b)
unfolding remove
remove_inside a start size some_size fits =
    let good : bad_range a start size ≡ false = ground (arith, some_size, fits) in
    (
      record a {
        mappings = remove_loop start (add32 start size) (length a.mappings) a.mappings 0 0;
      },
      rw (remove, good) refl,
    )

resize-shrink :
    (k : MapState) (mapping : Mapping) (old_addr old_size new_size flags new_addr : ℕ)
    (b : AddressSpace)
    → new_size < old_size
    → remove k.mem.space (add32 old_addr new_size) (old_size - new_size) ≡ ok b
    → resize k mapping old_addr old_size new_size flags new_addr
      ≡ (mapped old_addr, record k { mem = with_space k.mem b })
unfolding resize
resize-shrink k mapping old_addr old_size new_size flags new_addr b less removed =
    let apart : old_size == new_size ≡ false = ground (arith, less) in
    let below : ltb new_size old_size ≡ true = ground (arith, less) in
    rw (resize, apart, below, removed) refl

remap_sized-shrink :
    (k : MapState) (mapping : Mapping) (old_addr old_size new_size flags new_addr : ℕ)
    (b : AddressSpace)
    → old_addr % 4096 ≡ 0
    → old_addr + old_size ≤ k.mem.space.max
    → mapping_at k.mem.space old_addr ≡ some mapping
    → is_covered k.mem.space mapping (add32 old_addr old_size) old_size mapping.end ≡ true
    → new_size < old_size
    → remove k.mem.space (add32 old_addr new_size) (old_size - new_size) ≡ ok b
    → remap_sized k old_addr old_size new_size flags new_addr
      ≡ (mapped old_addr, record k { mem = with_space k.mem b })
unfolding remap_sized
remap_sized-shrink k mapping old_addr old_size new_size flags new_addr b aligned fits found covered
      less removed =
    let page : nonzero (bit_and old_addr 0xfff) ≡ false =
      rw (bit_and-page old_addr, aligned) refl in
    let inside : ltb k.mem.space.max old_addr ≡ false = ground (arith, fits) in
    let room : ltb (k.mem.space.max - old_addr) old_size ≡ false = ground (arith, fits) in
    rw (remap_sized, page, inside, room, found, covered)
      (resize-shrink k mapping old_addr old_size new_size flags new_addr b less removed)

mremap-sized :
    (k : MapState) (old_addr old_length new_length flags new_addr old_size new_size : ℕ)
    → page_length old_length ≡ some old_size
    → page_length new_length ≡ some new_size
    → mremap k old_addr old_length new_length flags new_addr
      ≡ remap_sized k old_addr old_size new_size flags new_addr
unfolding mremap
mremap-sized k old_addr old_length new_length flags new_addr old_size new_size p q =
    rw (mremap, p, q) refl

-- Where every address of a range is of one kind, its first mapping is found, and the test of `mremap`
-- passes.
is_covered_lem :
    (a : AddressSpace) (start size prot : ℕ) (name : String)
    → IsValid a
    → 0 < size
    → start + size ≤ a.max
    → ((x : ℕ) → start ≤ x → x < start + size → view a x ≡ some (prot, name))
    → (m : Mapping) × (mapping_at a start ≡ some m)
      × (is_covered a m (add32 start size) size m.end ≡ true)
unfolding mapping_at
is_covered_lem a start size prot name v some_size fits same =
    let word : add32 start size ≡ start + size = omega (arith, v.word) in
    elim (Option-cases (mapping_at a start)) [
      | inl absent ↦ absurd (
          no_view a v (record { start = 0; end = 0; prot = prot; name = name }) 0 start absent
            (same start (omega arith) (omega arith)))
      | inr (m, found) ↦
          (let (lo, below, above, top) =
              mapping_at_in-bounds 0 a.max a.mappings start m v.ordered found in
            let (prots, names) =
              kind_of a v (record { start = 0; end = 0; prot = prot; name = name }) 0 start m found
                (same start (omega arith) (omega arith)) in
            (
              m,
              found,
              rw word (
                  covers a v m (start + size) size m.end
                    (end-IsEdge 0 a.max a.mappings start m v.ordered found) (omega (arith, above))
                    (λ x from to. rw (prots, names) (same x (omega (arith, above, from)) to))),
            ))
    ]

-- What `mremap` leaves, once `Remove` has succeeded on the pages given up.
abbrev pub Shrunk : MapState → ℕ → ℕ → ℕ → Reply × MapState → Type 0
Shrunk k old_addr start end (reply, j) =
    (reply ≡ mapped old_addr)
    × (j.mem.bytes ≡ k.mem.bytes)
    × IsValid j.mem.space
    × ((x : ℕ) → view j.mem.space x ≡ (if within start end x then none else view k.mem.space x))

removed-Shrunk :
    (k : MapState) (old_addr start end : ℕ) (b : AddressSpace)
    → IsValid k.mem.space
    → start ≤ end
    → IsSafe start end k.mem.space.mappings
    → remove k.mem.space start (end - start) ≡ ok b
    → Shrunk k old_addr start end (mapped old_addr, record k { mem = with_space k.mem b })
removed-Shrunk k old_addr start end b v le safe removed =
    let sum : start + (end - start) ≡ end = omega (arith, le) in
    let (valid, hint, views) =
      remove-success k.mem.space start (end - start) b v (rw sum safe) removed in
    (refl, refl, valid, rw sum at views)

-- `mremap` to fewer pages, in a well formed space, from the address of a page on, where every address of
-- the old pages is inside the space and mapped with the same rights and name, and the pages given up split
-- no mapping but perhaps the last: it returns the old address, whatever the flags; the bytes are as they
-- were, the space stays well formed, and exactly the pages given up are unmapped.
pub mremap-shrink :
    (k : MapState) (old_addr old_length new_length flags new_addr prot : ℕ) (name : String)
    → IsValid k.mem.space
    → old_length ≤ 0xffff_f000
    → 0 < new_length
    → pages new_length < pages old_length
    → old_addr % 4096 ≡ 0
    → old_addr + pages old_length ≤ k.mem.space.max
    → ((x : ℕ)
        → old_addr ≤ x
        → x < old_addr + pages old_length
        → view k.mem.space x ≡ some (prot, name))
    → IsSafe (old_addr + pages new_length) (old_addr + pages old_length) k.mem.space.mappings
    → Shrunk k old_addr
        (old_addr + pages new_length)
        (old_addr + pages old_length)
        (mremap k old_addr old_length new_length flags new_addr)
mremap-shrink k old_addr old_length new_length flags new_addr prot name v short some_length less
      aligned fits same safe =
    let olds = page_length-some old_length (omega arith) short in
    let news = page_length-some new_length some_length (omega arith) in
    let new_end = old_addr + pages new_length in
    let old_end = old_addr + pages old_length in
    let start : add32 old_addr (pages new_length) ≡ new_end = omega (arith, v.word) in
    let more : pages old_length - pages new_length ≡ old_end - new_end = omega arith in
    let (m, found, covered) =
      is_covered_lem k.mem.space old_addr (pages old_length) prot name v (omega arith) fits same in
    let (b, removed) =
      remove_inside k.mem.space new_end (old_end - new_end) (omega arith) (omega arith) in
    let shrunk =
      mremap-sized k old_addr old_length new_length flags new_addr (pages old_length)
        (pages new_length) olds news
      ∙ remap_sized-shrink k m old_addr (pages old_length) (pages new_length) flags new_addr b
          aligned fits found covered less
          (ap (λ s. remove k.mem.space s (pages old_length - pages new_length)) start
            ∙ ap (λ n. remove k.mem.space new_end n) more
            ∙ removed) in
    subst (Shrunk k old_addr new_end old_end) (sym shrunk)
      (removed-Shrunk k old_addr new_end old_end b v (omega arith) safe removed)
