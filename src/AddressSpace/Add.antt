-- ===== src/AddressSpace/Add.antt =====
-- `Add`: the new mapping finds its place in the order, and is all that changes.
use ish_port_go.Prelude.{
  ℕ, ap, ◌+◌, ◌≤◌, ◌<◌, ◌^◌, String, ◌≡◌, refl, true, false, some, List, [], ◌∷◌, ◌++◌, arith,
  if◌then◌else◌, ◌⊎◌, inl, inr, ok, add32,
}
use ish_port_go.AddressSpace.{
  Mapping, AddressSpace, overlaps, is_free_in, insert_mapping, sort_mappings, add, bad_range,
}
use ish_port_go.AddressSpace.Valid.{Ordered, IsValid, view_in, view, within, is_free_in-cons}

-- On which side of a mapping a range lies that does not meet it.
apart :
    (m x : Mapping)
    → m.start < m.end
    → x.start < x.end
    → overlaps m.start m.end x ≡ false
    → (x.end ≤ m.start) ⊎ (m.end ≤ x.start)
apart m x p q h = ground arith

-- A mapping below every other goes to the front.
insert_front :
    (m : Mapping) (lo top : ℕ) (ms : List Mapping)
    → m.start < m.end
    → m.end ≤ lo
    → Ordered lo top ms
    → insert_mapping m ms ≡ m ∷ ms
unfolding insert_mapping
insert_front m lo top [] ne le h = refl
insert_front m lo top (x ∷ xs) ne le h = ground arith

module _ (m : Mapping) (ne : m.start < m.end) where
  insert-Ordered :
      (lo top : ℕ) (ms : List Mapping)
      → Ordered lo top ms
      → lo ≤ m.start
      → m.end ≤ top
      → is_free_in ms m.start m.end ≡ true
      → Ordered lo top (insert_mapping m ms)
  unfolding insert_mapping
  insert-Ordered lo top [] h p q f = (p, ne, q, omega arith)
  insert-Ordered lo top (x ∷ xs) h p q f =
      let (apart_x, f') = is_free_in-cons x xs m.start m.end f in
      elim (apart m x ne h.1 apart_x) [
        | inl above ↦ ground (arith, insert-Ordered x.end top xs h.3 above q f')
        | inr below ↦ ground (arith)
      ]

  view-insert :
      (lo top : ℕ) (ms : List Mapping) (x : ℕ)
      → Ordered lo top ms
      → is_free_in ms m.start m.end ≡ true
      → view_in (insert_mapping m ms) x
        ≡ (if within m.start m.end x then some (m.prot, m.name) else view_in ms x)
  unfolding insert_mapping view_in
  view-insert lo top [] x h f = ground arith
  view-insert lo top (y ∷ ys) x h f =
      let (apart_y, f') = is_free_in-cons y ys m.start m.end f in
      elim (apart m y ne h.1 apart_y) [
        | inl above ↦ ground (arith, view-insert y.end top ys x h.3 f')
        | inr below ↦ ground (arith)
      ]

  -- An ordered list is sorted already: sorting with `m` behind it inserts `m`.
  sort-append :
      (lo top : ℕ) (ms : List Mapping)
      → Ordered lo top ms
      → m.end ≤ top
      → is_free_in ms m.start m.end ≡ true
      → sort_mappings (ms ++ m ∷ []) ≡ insert_mapping m ms
  unfolding sort_mappings insert_mapping
  sort-append lo top [] h q f = refl
  sort-append lo top (x ∷ xs) h q f =
      let (apart_x, f') = is_free_in-cons x xs m.start m.end f in
      rw (sort-append x.end top xs h.3 q f') (elim (apart m x ne h.1 apart_x) [
        | inl above ↦ ground (
          arith,
          insert_front x x.end top (insert_mapping m xs) h.1 (omega arith)
              (insert-Ordered x.end top xs h.3 above q f'),
        )
        | inr below ↦ ground (
          arith,
          insert_front m x.end top xs ne (omega arith) h.3,
          insert_front x x.end top xs h.1 (omega arith) h.3,
        )
      ])

-- What the checks of `Add` leave: the end of the range, computed without a wrap.
pub bad_range-false :
    (a : AddressSpace) (start size : ℕ)
    → a.max < 2 ^ 32
    → bad_range a start size ≡ false
    → (add32 start size ≡ start + size) × (start < start + size) × (start + size ≤ a.max)
bad_range-false a start size w h = ground arith

abbrev fresh : ℕ → ℕ → ℕ → String → Mapping
fresh start size prot name = record {
  start = start;
  end = add32 start size;
  prot = prot;
  name = name;
}

-- What a successful `Add` has tested and done.
add-inv :
    (a : AddressSpace) (start size prot : ℕ) (name : String) (b : AddressSpace)
    → add a start size prot name ≡ ok b
    → (bad_range a start size ≡ false)
      × (is_free_in a.mappings start (add32 start size) ≡ true)
      × (b ≡ record a { mappings = sort_mappings (a.mappings ++ fresh start size prot name ∷ []) })
unfolding add
add-inv a start size prot name b e = ground arith

pub max-add :
    (a : AddressSpace) (start size prot : ℕ) (name : String) (b : AddressSpace)
    → add a start size prot name ≡ ok b
    → b.max ≡ a.max
max-add a start size prot name b e =
    ap (λ (c : AddressSpace). c.max) (add-inv a start size prot name b e).2

-- A successful `Add` found the range free and inside the space, keeps the space well formed, and
-- changes what is mapped in the range alone.
pub add-success :
    (a : AddressSpace) (start size prot : ℕ) (name : String) (b : AddressSpace)
    → IsValid a
    → add a start size prot name ≡ ok b
    → IsValid b
      × (start + size ≤ a.max)
      × (is_free_in a.mappings start (start + size) ≡ true)
      × (b.next_hint ≡ a.next_hint)
      × ((x : ℕ)
          → view b x ≡ (if within start (start + size) x then some (prot, name) else view a x))
unfolding view
add-success a start size prot name b v e =
    let (good, f, same) = add-inv a start size prot name b e in
    let (sum, ne, fits) = bad_range-false a start size v.word good in
    let m : Mapping = record { start = start; end = start + size; prot = prot; name = name } in
    let free = rw sum at f in
    let same' = rw sum at same in
    rw (same', sort-append m ne 0 a.max a.mappings v.ordered fits free)
      (
        record {
          ordered = insert-Ordered m ne 0 a.max a.mappings v.ordered (omega arith) fits free;
          word = v.word;
        },
        fits,
        free,
        refl,
        λ x. view-insert m ne 0 a.max a.mappings x v.ordered free,
      )
