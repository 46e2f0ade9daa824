-- ===== src/Mmap/Tests.antt =====
-- Calls on a small space, and the witnesses of their properties.
use ish_port_go.Prelude.{
  ℕ, ◌+◌, ◌%◌, ◌≤◌, ◌<◌, ◌≡◌, ◌⊎◌, ◌↔◌, refl, [], ◌∷◌, none, some, arith, err, invalid_argument,
}
use ish_port_go.AddressSpace.{Mapping, AddressSpace}
use ish_port_go.Mmap.{page_length, munmap}
use ish_port_go.Mmap.Laws.{page_length_lem}

abbrev blob : Mapping
blob = record { start = 0x1000; end = 0x5000; prot = 3; name = "blob" }

abbrev space : AddressSpace
space = record { mappings = blob ∷ []; max = 0x8000; next_hint = 0x5000 }

abbrev trimmed : AddressSpace
trimmed = record space { mappings = record blob { end = 0x3000 } ∷ [] }

abbrev sealed : AddressSpace
sealed = record space {
  mappings = record blob { end = 0x3000 } ∷ record blob { start = 0x3000; prot = 5 } ∷ [];
}

abbrev request : ℕ
request = 5000

page_length_lem_example :
    ((page_length request ≡ none) ↔ ((request ≡ 0) ⊎ (0xffff_f001 < request)))
    × (0 < request
        → request ≤ 0xffff_f000
        → (size : ℕ) × (page_length request ≡ some size)
          × (size % 4096 ≡ 0)
          × (request ≤ size)
          × (size < request + 4096))
    × (request ≡ 0xffff_f001 → page_length request ≡ some 0)
page_length_lem_example = page_length_lem request (omega arith)

munmap-unaligned : munmap space 0x3001 5000 ≡ err invalid_argument
unfolding munmap page_length
munmap-unaligned = refl
