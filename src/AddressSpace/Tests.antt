-- ===== src/AddressSpace/Tests.antt =====
-- Runs of the address-space model on a small layout, and the witnesses of its properties.
use ish_port_go.Prelude.{
  ℕ, ◌≢◌, ◌+◌, ◌≤◌, ◌<◌, ◌≡◌, ◌⊎◌, ◌↔◌, refl, true, none, some, [], ◌∷◌, ◌++◌, arith, if◌then◌else◌,
  ok, err, protection_fault, replicate,
}
use ish_port_go.AddressSpace.{
  Mapping, AddressSpace, is_free_in, is_free, insert_mapping, sort_mappings, add, append_at,
  remove_round, remove_loop, remove, protect_parts, protect_in, protect, mapping_at_in, mapping_at,
  try_candidate, find_hole, check_from, check_range, map_at, map_hole, map_anonymous,
}
use ish_port_go.AddressSpace.Valid.{IsValid, view, within}
use ish_port_go.AddressSpace.Add.{add-success}
use ish_port_go.AddressSpace.Remove.{remove-success}
use ish_port_go.AddressSpace.Remove.Inside.{remove_inside_loses}
use ish_port_go.AddressSpace.Protect.{protect-success}
use ish_port_go.AddressSpace.Hole.{IsHole, find_hole-success}
use ish_port_go.AddressSpace.Access.{IsAllowed, check_range_iff, map_anonymous-success}

abbrev text : Mapping
text = record { start = 0x1000; end = 0x3000; prot = 5; name = "text" }

abbrev globals : Mapping
globals = record { start = 0x3000; end = 0x6000; prot = 3; name = "data" }

abbrev heap : Mapping
heap = record { start = 0x6000; end = 0x7000; prot = 3; name = "heap" }

abbrev stack : Mapping
stack = record { start = 0x8000; end = 0xa000; prot = 3; name = "stack" }

abbrev layout : AddressSpace
layout = record { mappings = text ∷ globals ∷ stack ∷ []; max = 0xa000; next_hint = 0x6000 }

abbrev with_heap : AddressSpace
with_heap = record layout { mappings = text ∷ globals ∷ heap ∷ stack ∷ [] }

layout-IsValid : IsValid layout
layout-IsValid = omega arith

add-success_example :
    IsValid with_heap
    × (0x6000 + 0x1000 ≤ layout.max)
    × (is_free_in layout.mappings 0x6000 (0x6000 + 0x1000) ≡ true)
    × (with_heap.next_hint ≡ layout.next_hint)
    × ((x : ℕ)
        → view with_heap x
          ≡ (if within 0x6000 (0x6000 + 0x1000) x then some (3, "heap") else view layout x))
unfolding add is_free_in sort_mappings insert_mapping
add-success_example = add-success layout 0x6000 0x1000 3 "heap" with_heap layout-IsValid refl

-- Unmapping from the middle of "text" to the middle of "data" cuts both.
abbrev cut : AddressSpace
cut = record layout {
  mappings = record text { end = 0x2000 } ∷ record globals { start = 0x4000 } ∷ stack ∷ [];
}

remove-success_example :
    IsValid cut
    × (cut.next_hint ≡ layout.next_hint)
    × ((x : ℕ) → view cut x ≡ (if within 0x2000 (0x2000 + 0x2000) x then none else view layout x))
unfolding remove remove_loop remove_round append_at
remove-success_example =
    remove-success layout 0x2000 0x2000 cut layout-IsValid (refl, (refl, tt)) refl

-- Unmapping the middle of "data" drops "stack".
abbrev broken : AddressSpace
broken = record layout {
  mappings =
      text
      ∷ record globals { end = 0x4000 }
      ∷ record globals { start = 0x5000 }
      ∷ record globals { start = 0x5000 }
      ∷ [];
}

remove_inside_loses_example :
    (broken.mappings
      ≡ (text ∷ [])
        ++ (record globals { end = 0x4000 }
            ∷ record globals { start = 0x5000 }
            ∷ replicate 1 (record globals { start = 0x5000 })))
    × ((x : ℕ) → 0x6000 ≤ x → view broken x ≡ none)
unfolding remove remove_loop remove_round append_at
remove_inside_loses_example =
    remove_inside_loses layout 0x4000 0x1000 (text ∷ []) globals (stack ∷ []) broken layout-IsValid
      refl refl refl

abbrev read_only : AddressSpace
read_only = record layout {
  mappings =
      text
      ∷ record globals { end = 0x4000 }
      ∷ record globals { start = 0x4000; end = 0x5000; prot = 1 }
      ∷ record globals { start = 0x5000 }
      ∷ stack
      ∷ [];
}

protect-success_example :
    (m : Mapping) × (mapping_at layout 0x4000 ≡ some m)
    × (0x4000 + 0x1000 ≤ m.end)
    × IsValid read_only
    × ((x : ℕ)
        → view read_only x
          ≡ (if within 0x4000 (0x4000 + 0x1000) x then some (1, m.name) else view layout x))
unfolding protect protect_in protect_parts
protect-success_example =
    protect-success layout 0x4000 0x1000 1 read_only layout-IsValid (omega arith) (omega arith) refl

find_hole-success_example :
    IsHole layout 0x1000 0x6000
    × (record layout { next_hint = 0x7000 } ≡ record layout { next_hint = 0x6000 + 0x1000 })
unfolding find_hole try_candidate is_free is_free_in
find_hole-success_example =
    find_hole-success layout 0x1000 0x3000 0x6000 (record layout { next_hint = 0x7000 })
      layout-IsValid (omega arith) refl

check_range_iff_example : (check_range layout 0x2000 0x2000 1 ≡ ok tt) ↔ (
    (0x2000 + 0x2000 ≤ layout.max)
    × ((x : ℕ) → 0x2000 ≤ x → x < 0x2000 + 0x2000 → IsAllowed layout.mappings 1 x))
check_range_iff_example = check_range_iff layout 0x2000 0x2000 1 layout-IsValid (omega arith)

-- A range over "text" and "data", which are adjacent, may be read and not written.
check_range-layout :
    (check_range layout 0x2000 0x2000 1 ≡ ok tt)
    × (check_range layout 0x2000 0x2000 2 ≡ err protection_fault)
unfolding check_range check_from mapping_at_in
check_range-layout = (refl, refl)

abbrev asked : ℕ
asked = 0

map_anonymous-success_example :
    IsValid (record with_heap { next_hint = 0x7000 })
    × ((asked ≢ 0) × (asked ≡ 0x6000) × (0x7000 ≡ layout.next_hint)
        ⊎ (asked ≡ 0) × (0x7000 ≡ 0x6000 + 0x1000))
    × (with_heap.max ≡ layout.max)
    × (0x6000 + 0x1000 ≤ layout.max)
    × (is_free_in layout.mappings 0x6000 (0x6000 + 0x1000) ≡ true)
    × ((x : ℕ)
        → view (record with_heap { next_hint = 0x7000 }) x
          ≡ (if within 0x6000 (0x6000 + 0x1000) x then some (3, "heap") else view layout x))
unfolding map_anonymous map_hole map_at find_hole try_candidate is_free is_free_in add sort_mappings
    insert_mapping
map_anonymous-success_example =
    map_anonymous-success layout asked 0x1000 3 "heap" 0x6000
      (record with_heap { next_hint = 0x7000 }) layout-IsValid (omega arith) refl
