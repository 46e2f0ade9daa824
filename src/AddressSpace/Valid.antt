-- ===== src/AddressSpace/Valid.antt =====
-- The well-formed address spaces: mappings in order, apart, not empty and below `max`; and what an
-- address space says of an address.
use ish_port_go.Prelude.{
  ℕ, ◌≤◌, ◌<◌, ◌^◌, String, ◌≡◌, refl, Bool, true, false, ◌&&◌, Option, none, some, List, [], ◌∷◌,
  arith, ltb, leb, if◌then◌else◌,
}
use ish_port_go.AddressSpace.{Mapping, AddressSpace, overlaps, is_free_in, mapping_at_in}

-- Mappings from `lo` to `top`, each above the end of the one before it.
abbrev pub Ordered : ℕ → ℕ → List Mapping → Type 0
Ordered lo top [] = lo ≤ top
Ordered lo top (m ∷ ms) = (lo ≤ m.start) × (m.start < m.end) × (m.end ≤ top) × Ordered m.end top ms

pub record IsValid (a : AddressSpace) : Type 0 where
  pub ordered : Ordered 0 a.max a.mappings
  pub word : a.max < 2 ^ 32

-- The rights and the name of the mapping that holds an address.
abbrev pub View : Type 0
View = Option (ℕ × String)

abbrev pub holds : Mapping → ℕ → Bool
holds m x = leb m.start x && ltb x m.end

unfoldable pub view_in : List Mapping → ℕ → View
view_in [] x = none
view_in (m ∷ ms) x = let rest = view_in ms x in if holds m x then some (m.prot, m.name) else rest

unfoldable pub view : AddressSpace → ℕ → View
unfolding view_in
view a x = view_in a.mappings x

abbrev pub view_of : Option Mapping → View
view_of none = none
view_of (some m) = some (m.prot, m.name)

pub view_in-mapping_at_in :
    (ms : List Mapping) (x : ℕ) → view_in ms x ≡ view_of (mapping_at_in ms x)
unfolding view_in mapping_at_in
view_in-mapping_at_in [] x = refl
view_in-mapping_at_in (m ∷ ms) x = ground (arith, view_in-mapping_at_in ms x)

-- The address range from `start` to `end` is changed by an operation, and only that.
abbrev pub within : ℕ → ℕ → ℕ → Bool
within start end x = leb start x && ltb x end

-- Mappings from `lo` on say nothing of the addresses below.
pub view_in-below :
    (lo top : ℕ) (ms : List Mapping) (x : ℕ) → Ordered lo top ms → x < lo → view_in ms x ≡ none
unfolding view_in
view_in-below lo top [] x h lt = refl
view_in-below lo top (m ∷ ms) x h lt =
    ground (arith, view_in-below m.end top ms x h.3 (omega arith))

pub Ordered-weaken :
    (lo lo' top : ℕ) (ms : List Mapping) → lo' ≤ lo → Ordered lo top ms → Ordered lo' top ms
Ordered-weaken lo lo' top [] le h = omega arith
Ordered-weaken lo lo' top (m ∷ ms) le h = (omega arith, h.1, h.2, h.3)

pub Ordered-le : (lo top : ℕ) (ms : List Mapping) → Ordered lo top ms → lo ≤ top
Ordered-le lo top [] h = h
Ordered-le lo top (m ∷ ms) h = omega (arith, Ordered-le m.end top ms h.3)

-- A free range meets no mapping.
pub is_free_in-cons :
    (m : Mapping) (ms : List Mapping) (start end : ℕ)
    → is_free_in (m ∷ ms) start end ≡ true
    → (overlaps start end m ≡ false) × (is_free_in ms start end ≡ true)
unfolding is_free_in
is_free_in-cons m ms start end h = ground arith

-- A range that a scan finds free is unmapped.
pub is_free_in-view :
    (ms : List Mapping) (start end x : ℕ)
    → is_free_in ms start end ≡ true
    → start ≤ x
    → x < end
    → view_in ms x ≡ none
unfolding is_free_in view_in
is_free_in-view [] start end x h p q = refl
is_free_in-view (m ∷ ms) start end x h p q = ground (arith, is_free_in-view ms start end x)
