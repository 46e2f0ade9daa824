-- ===== src/AddressSpace/Remove/Inside.antt =====
-- `Remove` of a range strictly inside a mapping that is not the last: the second part of the split
-- is written over the next mapping before the loop reads it, and so over every later one.
use ish_port_go.Prelude.{
  ℕ, zero, suc, ◌+◌, ◌≤◌, ◌<◌, ◌≡◌, refl, true, none, some, List, [], ◌∷◌, ◌++◌, arith, length,
  take, drop, get_elem?, append-nil, append_assoc, ◌∙◌, replicate, ok, length-append, All,
}
use ish_port_go.AddressSpace.{
  Mapping, AddressSpace, append_at, remove_loop, left_part, right_part, remove,
}
use ish_port_go.AddressSpace.Add.{bad_range-false}
use ish_port_go.AddressSpace.Remove.{remove-inv}
use ish_port_go.AddressSpace.Remove.Loop.{
  carve_one, splits, append_all, take-append_at, length-append_at, loop_step, drop-cons,
}
use ish_port_go.AddressSpace.Valid.{Ordered, IsValid, view_in, view}

get_elem?-append_at :
    (arr : List Mapping) (k : ℕ) (m : Mapping)
    → k ≤ length arr
    → get_elem? (append_at arr k m) k ≡ some m
unfolding append_at
get_elem?-append_at [] zero m h = refl
get_elem?-append_at [] (suc k) m h = absurd (omega arith)
get_elem?-append_at (x ∷ xs) zero m h = refl
get_elem?-append_at (x ∷ xs) (suc k) m h = get_elem?-append_at xs k m (omega arith)

append_at_same :
    (arr : List Mapping) (k : ℕ) (m : Mapping) → get_elem? arr k ≡ some m → append_at arr k m ≡ arr
unfolding append_at
append_at_same [] k m e = cc
append_at_same (x ∷ xs) zero m e = ground arith
append_at_same (x ∷ xs) (suc k) m e = rw (append_at_same xs k m e)

carve_above : (start end : ℕ) (m : Mapping) → end ≤ m.start → carve_one start end m ≡ m ∷ []
unfolding carve_one
carve_above start end m h = ground arith

carve_below : (start end : ℕ) (m : Mapping) → m.end ≤ start → carve_one start end m ≡ m ∷ []
unfolding carve_one
carve_below start end m h = ground arith

carve_inside :
    (start end : ℕ) (m : Mapping)
    → start < end
    → splits start end m ≡ true
    → carve_one start end m ≡ left_part start m ∷ right_part end m ∷ []
unfolding carve_one
carve_inside start end m p h = ground arith

-- The next round reads the part that the last one wrote, and writes it once more.
cascade :
    (start end : ℕ) (r : Mapping) (n j : ℕ) (arr : List Mapping)
    → end ≤ r.start
    → get_elem? arr j ≡ some r
    → suc j ≤ length arr
    → remove_loop start end n arr j (suc j) ≡ take (suc j) arr ++ replicate n r
unfolding remove_loop append_all
cascade start end r zero j arr le at h = rw append-nil
cascade start end r (suc n) j arr le at h =
    let two : suc j + 1 ≡ suc (suc j) = omega arith in
    rw (loop_step start end n arr j (suc j) r at, carve_above start end r le)
      (rw (
        two,
        cascade start end r n (suc j) (append_at arr (suc j) r) le
            (get_elem?-append_at arr (suc j) r h) (length-append_at arr (suc j) r h),
        take-append_at arr (suc j) r h,
        append_assoc,
      ))

split_then_cascade :
    (start end : ℕ) (m : Mapping) (arr : List Mapping) (i n : ℕ)
    → start < end
    → splits start end m ≡ true
    → get_elem? arr i ≡ some m
    → i < length arr
    → remove_loop start end (suc n) arr i i
      ≡ take i arr ++ left_part start m ∷ right_part end m ∷ replicate n (right_part end m)
unfolding append_all
split_then_cascade start end m arr i n p s at inside =
    let l = left_part start m in
    let r = right_part end m in
    let two : i + 2 ≡ suc (suc i) = omega arith in
    let in_zero : i ≤ length arr = omega arith in
    let in_one = length-append_at arr i l in_zero in
    let arr_one = append_at arr i l in
    rw (loop_step start end n arr i i m at, carve_inside start end m p s)
      (rw (
        two,
        cascade start end r n (suc i) (append_at arr_one (suc i) r) (omega arith)
            (get_elem?-append_at arr_one (suc i) r in_one)
            (length-append_at arr_one (suc i) r in_one),
        take-append_at arr_one (suc i) r in_one,
        take-append_at arr i l in_zero,
        append_assoc,
        append_assoc,
      ))

-- Mappings below the range are written back where they stand.
skip_below :
    (start end : ℕ) (before rest arr : List Mapping) (i n : ℕ)
    → drop i arr ≡ before ++ rest
    → All (λ x. x.end ≤ start) before
    → remove_loop start end (length before + n) arr i i
      ≡ remove_loop start end n arr (i + length before) (i + length before)
unfolding append_all
skip_below start end [] rest arr i n d h =
    let e : 0 + n ≡ n = omega arith in let f : i + 0 ≡ i = omega arith in rw (e, f)
skip_below start end (x ∷ xs) rest arr i n d h =
    let (at, below, inside) = drop-cons arr i x (xs ++ rest) d in
    let e : suc (length xs) + n ≡ suc (length xs + n) = omega arith in
    let f : i + suc (length xs) ≡ suc i + length xs = omega arith in
    let g : i + 1 ≡ suc i = omega arith in
    rw (e, f, loop_step start end (length xs + n) arr i i x at, carve_below start end x h.0)
      (rw (append_at_same arr i x at, g) (skip_below start end xs rest arr (suc i) n below h.1))

-- What stands before a mapping in an ordered list ends where it begins, or below.
ends_before :
    (lo top : ℕ) (before : List Mapping) (m : Mapping) (after : List Mapping)
    → Ordered lo top (before ++ m ∷ after)
    → (lo ≤ m.start) × All (λ x. x.end ≤ m.start) before
ends_before lo top [] m after h = (h.0, tt)
ends_before lo top (x ∷ xs) m after h =
    let (le, rest) = ends_before x.end top xs m after h.3 in (omega arith, (le, rest))

All-le : (p q : ℕ) (ms : List Mapping) → p ≤ q → All (λ x. x.end ≤ p) ms → All (λ x. x.end ≤ q) ms
All-le p q [] le h = h
All-le p q (m ∷ ms) le h = (omega arith, All-le p q ms le h.1)

view_in-above :
    (ms rest : List Mapping) (x : ℕ)
    → All (λ m. m.end ≤ x) ms
    → view_in (ms ++ rest) x ≡ view_in rest x
unfolding view_in
view_in-above [] rest x h = refl
view_in-above (m ∷ ms) rest x h = ground (arith, view_in-above ms rest x h.1)

view_in-replicate : (m : Mapping) (n x : ℕ) → m.end ≤ x → view_in (replicate n m) x ≡ none
unfolding view_in
view_in-replicate m zero x h = refl
view_in-replicate m (suc n) x h = ground (arith, view_in-replicate m n x h)

drop-append : (before rest : List Mapping) → drop (length before) (before ++ rest) ≡ rest
drop-append [] rest = refl
drop-append (x ∷ xs) rest = drop-append xs rest

take-append : (before rest : List Mapping) → take (length before) (before ++ rest) ≡ before
take-append [] rest = refl
take-append (x ∷ xs) rest = rw (take-append xs rest)

splits_bounds :
    (start end : ℕ) (m : Mapping) → splits start end m ≡ true → (m.start < start) × (end < m.end)
splits_bounds start end m h = ground arith

loop_inside :
    (start end : ℕ) (before : List Mapping) (m : Mapping) (after : List Mapping)
    → start < end
    → splits start end m ≡ true
    → All (λ x. x.end ≤ start) before
    → remove_loop start end (length (before ++ m ∷ after)) (before ++ m ∷ after) 0 0
      ≡ before
        ++ (left_part start m ∷ right_part end m ∷ replicate (length after) (right_part end m))
loop_inside start end before m after p s ends =
    let arr = before ++ m ∷ after in
    let k = length before in
    let (at, below, inside) = drop-cons arr k m after (drop-append before (m ∷ after)) in
    let e : 0 + k ≡ k = omega arith in
    rw
      (
        length-append before (m ∷ after),
        skip_below start end before (m ∷ after) arr 0 (suc (length after)) refl ends,
        e,
        split_then_cascade start end m arr k (length after) p s at inside,
      )
      (rw (take-append before (m ∷ after)))

above_inside :
    (start end n x : ℕ) (before : List Mapping) (m : Mapping)
    → start ≤ x
    → m.end ≤ x
    → All (λ y. y.end ≤ x) before
    → view_in (before ++ (left_part start m ∷ right_part end m ∷ replicate n (right_part end m))) x
      ≡ none
above_inside start end n x before m p q h = rw (view_in-above before _ x h) (
    view_in-above (left_part start m ∷ right_part end m ∷ []) _ x (p, (q, tt))
    ∙ view_in-replicate (right_part end m) n x q)

-- A `Remove` of a range that leaves a part of its mapping on both sides, successful and in a well
-- formed space: every later mapping is replaced by a copy of the upper part, so that nothing above
-- the split mapping is mapped any more.
pub remove_inside_loses :
    (a : AddressSpace) (start size : ℕ) (before : List Mapping) (m : Mapping) (after : List Mapping)
    (b : AddressSpace)
    → IsValid a
    → a.mappings ≡ before ++ m ∷ after
    → splits start (start + size) m ≡ true
    → remove a start size ≡ ok b
    → (b.mappings
        ≡ before
          ++ (left_part start m
              ∷ right_part (start + size) m
              ∷ replicate (length after) (right_part (start + size) m)))
      × ((x : ℕ) → m.end ≤ x → view b x ≡ none)
unfolding view
remove_inside_loses a start size before m after b v shape s e =
    let (good, same) = remove-inv a start size b e in
    let (sum, ne, fits) = bad_range-false a start size v.word good in
    let end = start + size in
    let same' = rw sum at same in
    let (le, ends) = ends_before 0 a.max before m after (rw shape at v.ordered) in
    let bounds = splits_bounds start end m s in
    let low = All-le m.start start before (omega arith) ends in
    rw (same', shape, loop_inside start end before m after ne s low)
      (
        refl,
        λ x h.
            above_inside start end (length after) x before m (omega arith) h
              (All-le start x before (omega arith) low),
      )
