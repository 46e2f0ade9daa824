-- ===== src/AddressSpace/Protect.antt =====
-- `Protect`: the range takes the new rights, inside the one mapping that covers it.
use ish_port_go.Prelude.{
  ℕ, ◌+◌, ◌≤◌, ◌<◌, ◌^◌, ◌≡◌, true, false, some, List, [], ◌∷◌, ◌++◌, arith, leb, if◌then◌else◌, ok,
  add32, ◌&&◌, Bool-cases, inl, inr,
}
use ish_port_go.AddressSpace.{
  Mapping, AddressSpace, protect, protect_in, protect_parts, mapping_at, mapping_at_in,
}
use ish_port_go.AddressSpace.Valid.{Ordered, IsValid, view_in, view, within, holds, Ordered-weaken}

protect_parts-Ordered :
    (start end prot lo top : ℕ) (m : Mapping) (r : List Mapping)
    → start < end
    → m.start ≤ start
    → end ≤ m.end
    → lo ≤ m.start
    → m.end ≤ top
    → Ordered m.end top r
    → Ordered lo top (protect_parts start end prot m ++ r)
unfolding protect_parts
protect_parts-Ordered start end prot lo top m r p a b c d h =
    ground (arith, Ordered-weaken m.end end top r)

view-protect_parts :
    (start end prot : ℕ) (m : Mapping) (r : List Mapping) (x : ℕ)
    → start < end
    → m.start ≤ start
    → end ≤ m.end
    → view_in (protect_parts start end prot m ++ r) x ≡ (
        if within start end x
        then some (prot, m.name)
        else if holds m x
        then some (m.prot, m.name)
        else view_in r x)
unfolding protect_parts view_in
view-protect_parts start end prot m r x p a b = ground arith

-- What a mapping found at an address says of it.
pub mapping_at_in-bounds :
    (lo top : ℕ) (ms : List Mapping) (x : ℕ) (t : Mapping)
    → Ordered lo top ms
    → mapping_at_in ms x ≡ some t
    → (lo ≤ t.start) × (t.start ≤ x) × (x < t.end) × (t.end ≤ top)
unfolding mapping_at_in
mapping_at_in-bounds lo top [] x t h e = cc
mapping_at_in-bounds lo top (m ∷ ms) x t h e =
    ground (arith, mapping_at_in-bounds m.end top ms x t h.3)

-- What `Protect` makes of the mappings.
record Protected (start end prot lo top : ℕ) (ms ms' : List Mapping) : Type 0 where
  target : Mapping
  found : mapping_at_in ms start ≡ some target
  room : end ≤ target.end
  ordered : Ordered lo top ms'
  views :
      (x : ℕ)
      → view_in ms' x ≡ (if within start end x then some (prot, target.name) else view_in ms x)

module _ (start end prot lo top : ℕ) (m : Mapping) (ms : List Mapping) (p : start < end) where
  Protected-here :
      Ordered lo top (m ∷ ms)
      → (leb m.start start && leb end m.end) ≡ true
      → Protected start end prot lo top (m ∷ ms) (protect_parts start end prot m ++ ms)
  unfolding view_in mapping_at_in
  Protected-here h c =
      let (a, b) = bounds c in
      record {
        target = m;
        found = ground arith;
        room = b;
        ordered = protect_parts-Ordered start end prot lo top m ms p a b h.0 h.2 h.3;
        views = λ x. view-protect_parts start end prot m ms x p a b;
      }
    where
      bounds : (leb m.start start && leb end m.end) ≡ true → (m.start ≤ start) × (end ≤ m.end)
      bounds c = ground arith

  Protected-later :
      (ms' : List Mapping)
      → Ordered lo top (m ∷ ms)
      → Protected start end prot m.end top ms ms'
      → Protected start end prot lo top (m ∷ ms) (m ∷ ms')
  unfolding view_in mapping_at_in
  Protected-later ms' h r =
      let (above, low, high, room) = mapping_at_in-bounds m.end top ms start r.target h.3 r.found in
      record {
        target = r.target;
        found = ground (arith, r.found);
        room = r.room;
        ordered = (h.0, h.1, h.2, r.ordered);
        views = λ x. ground (arith, r.views x);
      }

protect_in-success :
    (start end prot lo top : ℕ) (ms ms' : List Mapping)
    → start < end
    → Ordered lo top ms
    → protect_in start end prot ms ≡ some ms'
    → Protected start end prot lo top ms ms'
unfolding protect_in
protect_in-success start end prot lo top [] ms' p h e = cc
protect_in-success start end prot lo top (m ∷ ms) ms' p h e =
    elim (Bool-cases (leb m.start start && leb end m.end)) [
      | inl c ↦ rw (← here c) (Protected-here start end prot lo top m ms p h c)
      | inr c ↦
          let (tail, found, same) = later c in
          rw same (
            Protected-later start end prot lo top m ms p tail h
              (protect_in-success start end prot m.end top ms tail p h.3 found))
    ]
  where
    here : (leb m.start start && leb end m.end) ≡ true → protect_parts start end prot m ++ ms ≡ ms'
    here c = ground arith

    later :
        (leb m.start start && leb end m.end) ≡ false
        → (tail : List Mapping) × (protect_in start end prot ms ≡ some tail) × (ms' ≡ m ∷ tail)
    later c = ground arith

pub protect-inv :
    (a : AddressSpace) (start size prot : ℕ) (b : AddressSpace)
    → a.max < 2 ^ 32
    → start < 2 ^ 32
    → size < 2 ^ 32
    → protect a start size prot ≡ ok b
    → (add32 start size ≡ start + size)
      × (start < start + size)
      × (start + size ≤ a.max)
      × (ms : List Mapping) × (protect_in start (add32 start size) prot a.mappings ≡ some ms)
      × (b ≡ record a { mappings = ms })
unfolding protect
protect-inv a start size prot b w ws wz e = ground arith

-- A successful `Protect` of a well formed space found one mapping that covers the range, keeps the
-- space well formed, gives exactly the addresses of the range the new rights under the name of that
-- mapping, and changes nothing else.
pub protect-success :
    (a : AddressSpace) (start size prot : ℕ) (b : AddressSpace)
    → IsValid a
    → start < 2 ^ 32
    → size < 2 ^ 32
    → protect a start size prot ≡ ok b
    → (m : Mapping) × (mapping_at a start ≡ some m)
      × (start + size ≤ m.end)
      × IsValid b
      × ((x : ℕ)
          → view b x ≡ (if within start (start + size) x then some (prot, m.name) else view a x))
unfolding view mapping_at
protect-success a start size prot b v ws wz e =
    let (sum, ne, fits, ms, found, same) = protect-inv a start size prot b v.word ws wz e in
    let r =
      protect_in-success start (start + size) prot 0 a.max a.mappings ms ne v.ordered
        (rw sum at found) in
    rw same
      (r.target, r.found, r.room, record { ordered = r.ordered; word = v.word }, λ x. r.views x)
