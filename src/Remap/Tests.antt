-- ===== src/Remap/Tests.antt =====
-- Calls on a small space, and the witness of `mremap` to fewer pages.
use ish_port_go.Prelude.{ℕ, ◌+◌, ◌≡◌, refl, true, [], ◌∷◌, none, some, ◌≤◌, ◌<◌, arith}
use ish_port_go.AddressSpace.{Mapping, AddressSpace, mapping_at, mapping_at_in}
use ish_port_go.AddressSpace.Valid.{view, view_in}
use ish_port_go.Mmap.{page_length}
use ish_port_go.Mmap.Laws.{pages}
use ish_port_go.Remap.{MapState, failed, e_inval, e_badf, mremap, remap_sized, mmap2, page_align_up}
use ish_port_go.Remap.Shrink.{Shrunk, mremap-shrink}

abbrev blob : Mapping
blob = record { start = 0x1000; end = 0x5000; prot = 3; name = "blob" }

abbrev space : AddressSpace
space = record { mappings = blob ∷ []; max = 0x8000; next_hint = 0x5000 }

abbrev state : MapState
state = record { mem = record { bytes = []; protected = true; space = space }; next_map = 0 }

abbrev old_addr : ℕ
old_addr = 0x1000

space-kind : (x : ℕ) → 0x1000 ≤ x → x < 0x1000 + pages 0x4000 → view space x ≡ some (3, "blob")
unfolding view view_in
space-kind x from to = ground (arith, from, to)

-- From four pages to two, where a move is allowed.
mremap-shrink_example :
    Shrunk state old_addr
      (0x1000 + pages 5000)
      (0x1000 + pages 0x4000)
      (mremap state old_addr 0x4000 5000 1 0)
mremap-shrink_example =
    mremap-shrink state old_addr 0x4000 5000 1 0 3 "blob" (omega arith) (omega arith) (omega arith)
      (omega arith) refl (omega arith) space-kind tt

mremap-unmapped : mremap state 0x6000 0x1000 0x2000 1 0 ≡ (failed e_inval, state)
unfolding mremap remap_sized page_length mapping_at mapping_at_in
mremap-unmapped = refl

mmap2-no_file : mmap2 none state 0 0x1000 1 2 0 ≡ (failed e_badf, state)
unfolding mmap2 page_align_up
mmap2-no_file = refl
