-- ===== src/AddressSpace/Ends.antt =====
-- internal/i386/address_space.go: the loop of `check` ends within as many rounds as there are bytes.
use ish_port_go.Prelude.{
  ℕ, zero, suc, ◌+◌, ◌≤◌, ◌≡◌, List, arith, err, out_of_fuel, add32, ltb, Option-cases, inl, inr,
  if◌then◌else◌,
}
use ish_port_go.AddressSpace.{AddressSpace, Mapping, check_range, check_from, mapping_at_in}

add32-at_most : (a b : ℕ) → add32 a b ≤ a + b
add32-at_most a b = omega arith

check_from-Ends :
    (ms : List Mapping) (prot end fuel cursor : ℕ)
    → end ≤ cursor + fuel
    → ¬ (check_from ms prot end fuel cursor ≡ err out_of_fuel)
unfolding check_from
check_from-Ends ms prot end zero cursor p = ground arith
check_from-Ends ms prot end (suc fuel) cursor p = elim (Option-cases (mapping_at_in ms cursor)) [
  | inl absent ↦ rw absent (ground arith)
  | inr (m, found) ↦
      rw found
        (ground (arith, check_from-Ends ms prot end fuel (if ltb m.end end then m.end else end)))
]

-- Whatever the mappings, a check of a range never runs out of the rounds it is given, one for each
-- byte: it passes or fails with an error of the source.
pub check_range-Ends :
    (a : AddressSpace) (addr width prot : ℕ) → ¬ (check_range a addr width prot ≡ err out_of_fuel)
unfolding check_range
check_range-Ends a addr width prot =
    ground (
      arith,
      add32-at_most addr width,
      check_from-Ends a.mappings prot (add32 addr width) width addr,
    )
