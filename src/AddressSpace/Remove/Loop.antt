-- ===== src/AddressSpace/Remove/Loop.antt =====
-- The loop of `Remove` on its array: writes below the reading position do not disturb it.
use ish_port_go.Prelude.{
  ℕ, zero, suc, ◌+◌, ◌≤◌, ◌<◌, ◌≡◌, refl, Bool, false, some, List, [], ◌∷◌, ◌++◌, arith, ltb, leb,
  if◌then◌else◌, length, take, drop, get_elem?, ◌&&◌, ◌||◌, append-nil, append_assoc, ap, ◌∙◌,
}
use ish_port_go.AddressSpace.{Mapping, append_at, remove_round, remove_loop, left_part, right_part}

-- The parts of one mapping outside the range.
unfoldable pub carve_one : ℕ → ℕ → Mapping → List Mapping
carve_one start end m =
    if leb end m.start || leb m.end start
    then m ∷ []
    else (if ltb m.start start then left_part start m ∷ [] else [])
      ++ (if ltb end m.end then right_part end m ∷ [] else [])

unfoldable pub carve : ℕ → ℕ → List Mapping → List Mapping
unfolding carve_one
carve start end [] = []
carve start end (m ∷ ms) = carve_one start end m ++ carve start end ms

-- The range lies inside the mapping, with a part left on both sides.
abbrev pub splits : ℕ → ℕ → Mapping → Bool
splits start end m = ltb m.start start && ltb end m.end

-- No mapping but the last is split in two.
abbrev pub IsSafe : ℕ → ℕ → List Mapping → Type 0
IsSafe start end [] = Unit
IsSafe start end (m ∷ []) = Unit
IsSafe start end (m ∷ x ∷ ms) = (splits start end m ≡ false) × IsSafe start end (x ∷ ms)

unfoldable pub append_all : List Mapping → ℕ → List Mapping → List Mapping
append_all arr k [] = arr
append_all arr k (p ∷ ps) = append_all (append_at arr k p) (suc k) ps

pub take-append_at :
    (arr : List Mapping) (k : ℕ) (m : Mapping)
    → k ≤ length arr
    → take (suc k) (append_at arr k m) ≡ take k arr ++ m ∷ []
unfolding append_at
take-append_at [] zero m h = refl
take-append_at [] (suc k) m h = absurd (omega arith)
take-append_at (x ∷ xs) zero m h = refl
take-append_at (x ∷ xs) (suc k) m h = rw (take-append_at xs k m (omega arith))

drop-append_at :
    (arr : List Mapping) (k j : ℕ) (m : Mapping) → k < j → drop j (append_at arr k m) ≡ drop j arr
unfolding append_at
drop-append_at arr k zero m h = absurd (omega arith)
drop-append_at [] k (suc j) m h = drop-nil j
  where
    drop-nil : (i : ℕ) → drop {A = Mapping} i [] ≡ []
    drop-nil zero = refl
    drop-nil (suc i) = refl
drop-append_at (x ∷ xs) zero (suc j) m h = refl
drop-append_at (x ∷ xs) (suc k) (suc j) m h = drop-append_at xs k j m (omega arith)

pub length-append_at :
    (arr : List Mapping) (k : ℕ) (m : Mapping) → k ≤ length arr → suc k ≤ length (append_at arr k m)
unfolding append_at
length-append_at [] k m h = omega arith
length-append_at (x ∷ xs) zero m h = omega arith
length-append_at (x ∷ xs) (suc k) m h = omega (arith, length-append_at xs k m)

pub take-append_all :
    (arr : List Mapping) (k : ℕ) (ps : List Mapping)
    → k ≤ length arr
    → take (k + length ps) (append_all arr k ps) ≡ take k arr ++ ps
unfolding append_all
take-append_all arr k [] h = rw (append-nil) (ap (λ (j : ℕ). take j arr) (omega arith))
take-append_all arr k (p ∷ ps) h =
    let len : k + suc (length ps) ≡ suc k + length ps = omega arith in
    rw (
      len,
      take-append_all (append_at arr k p) (suc k) ps (length-append_at arr k p h),
      take-append_at arr k p h,
      append_assoc,
    )

drop-append_all :
    (arr : List Mapping) (k j : ℕ) (ps : List Mapping)
    → k + length ps ≤ j
    → drop j (append_all arr k ps) ≡ drop j arr
unfolding append_all
drop-append_all arr k j [] h = refl
drop-append_all arr k j (p ∷ ps) h =
    rw (drop-append_all (append_at arr k p) (suc k) j ps (omega arith))
      (drop-append_at arr k j p (omega arith))

pub length-append_all :
    (arr : List Mapping) (k : ℕ) (ps : List Mapping)
    → k ≤ length arr
    → k + length ps ≤ length (append_all arr k ps)
unfolding append_all
length-append_all arr k [] h = omega arith
length-append_all arr k (p ∷ ps) h =
    omega (arith, length-append_all (append_at arr k p) (suc k) ps (length-append_at arr k p h))

-- A round appends the parts of its mapping.
pub round-append_all :
    (start end : ℕ) (m : Mapping) (arr : List Mapping) (k : ℕ)
    → remove_round start end m arr k
      ≡ (append_all arr k (carve_one start end m), k + length (carve_one start end m))
unfolding remove_round carve_one append_all
round-append_all start end m arr k = ground arith

pub drop-cons :
    (arr : List Mapping) (i : ℕ) (m : Mapping) (r : List Mapping)
    → drop i arr ≡ m ∷ r
    → (get_elem? arr i ≡ some m) × (drop (suc i) arr ≡ r) × (i < length arr)
drop-cons [] zero m r e = cc
drop-cons [] (suc i) m r e = cc
drop-cons (x ∷ xs) zero m r e = ground arith
drop-cons (x ∷ xs) (suc i) m r e = ground (arith, drop-cons xs i m r e)

one_part :
    (start end : ℕ) (m : Mapping) → splits start end m ≡ false → length (carve_one start end m) ≤ 1
unfolding carve_one
one_part start end m h = ground arith

pub loop_step :
    (start end n : ℕ) (arr : List Mapping) (i k : ℕ) (m : Mapping)
    → get_elem? arr i ≡ some m
    → remove_loop start end (suc n) arr i k
      ≡ remove_loop start end n
          (append_all arr k (carve_one start end m))
          (suc i)
          (k + length (carve_one start end m))
unfolding remove_loop
loop_step start end n arr i k m e =
    let next : i + 1 ≡ suc i = omega arith in
    rw (e, remove_loop) (rw (round-append_all start end m arr k, next))

-- The loop appends the parts of what is left to read, if its writes stay behind its reads.
pub remove_loop-carve :
    (start end : ℕ) (rest arr : List Mapping) (i k : ℕ)
    → drop i arr ≡ rest
    → k ≤ i
    → k ≤ length arr
    → IsSafe start end rest
    → remove_loop start end (length rest) arr i k ≡ take k arr ++ carve start end rest
unfolding remove_loop carve
remove_loop-carve start end [] arr i k d le in_arr s = rw append-nil
remove_loop-carve start end (m ∷ []) arr i k d le in_arr s =
    rw (loop_step start end 0 arr i k m (drop-cons arr i m [] d).0, append-nil)
      (take-append_all arr k (carve_one start end m) in_arr)
remove_loop-carve start end (m ∷ x ∷ ms) arr i k d le in_arr s =
    let (at, below, inside) = drop-cons arr i m (x ∷ ms) d in
    let short = one_part start end m s.0 in
    let ps = carve_one start end m in
    rw (
      loop_step start end (suc (length ms)) arr i k m at,
      remove_loop-carve start end (x ∷ ms) (append_all arr k ps) (suc i) (k + length ps)
          (drop-append_all arr k (suc i) ps (omega arith) ∙ below) (omega arith)
          (length-append_all arr k ps in_arr) s.1,
      take-append_all arr k ps in_arr,
      append_assoc,
    )
