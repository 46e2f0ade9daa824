-- ===== src/Remap/Covered.antt =====
-- internal/kernel/syscall.go: the test of `mremap` that the mappings of the old range are of one kind.
use text.Mathlib.TextPositions.{compare_refl}
use ish_port_go.Prelude.{
  ℕ, zero, suc, ◌+◌, ◌≤◌, ◌<◌, ◌≡◌, refl, sym, ap, ◌∙◌, arith, String, true, false, ◌&&◌, List, [],
  ◌∷◌, none, some, Option-cases, Bool-cases, inl, inr, lt-or-ge, leb, ltb, ==_refl,
}
use ish_port_go.AddressSpace.{Mapping, AddressSpace, mapping_at, mapping_at_in}
use ish_port_go.AddressSpace.Valid.{Ordered, IsValid, View, view, view_of, view_in-mapping_at_in}
use ish_port_go.AddressSpace.Protect.{mapping_at_in-bounds}
use ish_port_go.Remap.{same_name, is_covered}

same_name_refl : (name : String) → same_name name name ≡ true
unfolding same_name
same_name_refl name = rw (same_name, compare_refl name) refl

-- A mapping that holds the address begins there.
abbrev pub IsEdge : List Mapping → ℕ → Type 0
IsEdge ms x = (m : Mapping) → mapping_at_in ms x ≡ some m → m.start ≡ x

past_head :
    (m : Mapping) (ms : List Mapping) (x : ℕ)
    → m.end ≤ x
    → mapping_at_in (m ∷ ms) x ≡ mapping_at_in ms x
unfolding mapping_at_in
past_head m ms x above = ground (arith, above)

some_mapping : (m t : Mapping) → some m ≡ some t → m ≡ t
some_mapping m t e = cc

same_kind :
    (p q : ℕ) (n m : String) → ◌≡◌ {A = View} (some (p, n)) (some (q, m)) → (p ≡ q) × (n ≡ m)
same_kind p q n m e = (cc, cc)

-- The end of a mapping is such an address.
pub end-IsEdge :
    (lo top : ℕ) (ms : List Mapping) (x : ℕ) (t : Mapping)
    → Ordered lo top ms
    → mapping_at_in ms x ≡ some t
    → IsEdge ms t.end
unfolding mapping_at_in
end-IsEdge lo top [] x t h e = cc
end-IsEdge lo top (m ∷ ms) x t h e = elim (Bool-cases (leb m.start x && ltb x m.end)) [
  | inl here ↦
      (let same : m ≡ t = some_mapping m t (rw here at e) in
        λ n found.
          let tail : mapping_at_in ms t.end ≡ some n =
            sym (past_head m ms t.end (omega (arith, ap (λ (k : Mapping). k.end) same))) ∙ found in
          let (lo', below, above, end') = mapping_at_in-bounds m.end top ms t.end n h.3 tail in
          omega (arith, lo', below, ap (λ (k : Mapping). k.end) same))
  | inr elsewhere ↦
      (let rest : mapping_at_in ms x ≡ some t = rw elsewhere at e in
        let (lo', below, above, end') = mapping_at_in-bounds m.end top ms x t h.3 rest in
        λ n found.
          end-IsEdge m.end top ms x t h.3 rest n
            (sym (past_head m ms t.end (omega (arith, lo', below, above))) ∙ found))
]

module _ (a : AddressSpace) (v : IsValid a) (first : Mapping) (old_end : ℕ) where
  pub no_view :
      (x : ℕ) → mapping_at_in a.mappings x ≡ none → ¬ (view a x ≡ some (first.prot, first.name))
  unfolding view
  no_view x absent same =
      absurd (cc (sym (ap view_of absent) ∙ sym (view_in-mapping_at_in a.mappings x) ∙ same))

  pub kind_of :
      (x : ℕ) (next : Mapping)
      → mapping_at_in a.mappings x ≡ some next
      → view a x ≡ some (first.prot, first.name)
      → (next.prot ≡ first.prot) × (next.name ≡ first.name)
  unfolding view
  kind_of x next found same =
      same_kind next.prot first.prot next.name first.name
        (sym (ap view_of found) ∙ sym (view_in-mapping_at_in a.mappings x) ∙ same)

  -- The addresses from `covered` on are of the kind of `first`, and `covered` begins a mapping or is past
  -- the end: there are enough rounds if there is one for each address.
  pub covers :
      (fuel covered : ℕ)
      → IsEdge a.mappings covered
      → old_end ≤ covered + fuel
      → ((x : ℕ) → covered ≤ x → x < old_end → view a x ≡ some (first.prot, first.name))
      → is_covered a first old_end fuel covered ≡ true
  unfolding is_covered view mapping_at
  covers zero covered edge enough same = ground (arith, enough)
  covers (suc fuel) covered edge enough same = elim (lt-or-ge covered old_end) [
    | inr past ↦
        (let stop : leb old_end covered ≡ true = ground (arith, past) in rw (is_covered, stop) refl)
    | inl more ↦
        (let go : leb old_end covered ≡ false = ground (arith, more) in
          elim (Option-cases (mapping_at_in a.mappings covered)) [
            | inl absent ↦ absurd (no_view covered absent (same covered (omega arith) more))
            | inr (next, found) ↦
                (let (lo, below, above, top) =
                    mapping_at_in-bounds 0 a.max a.mappings covered next v.ordered found in
                  let kind = kind_of covered next found (same covered (omega arith) more) in
                  rw
                    (
                      is_covered,
                      go,
                      mapping_at,
                      found,
                      edge next found,
                      ==_refl covered,
                      kind.0,
                      ==_refl first.prot,
                      kind.1,
                      same_name_refl first.name,
                    )
                    (covers fuel next.end
                      (end-IsEdge 0 a.max a.mappings covered next v.ordered found)
                      (omega (arith, above, enough))
                      (λ x from to. same x (omega (arith, above, from)) to)))
          ])
  ]
