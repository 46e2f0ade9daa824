-- ===== src/Cpu/X87/Stack.antt =====
-- internal/i386/cpu.go: the eight x87 registers, with the index of the top and the count, as the list of
-- the values on the stack.
use ish_port_go.Prelude.{
  ℕ, zero, suc, ◌+◌, ◌-◌, ◌%◌, ◌<◌, ◌≤◌, ◌≡◌, ◌≢◌, refl, ap, sym, arith, List, [], ◌∷◌, some, none,
  length, get_elem?, get_or, set, get_or-set_self, get_or-set_ne,
}
use mathlib.Core.Path.{subst}
use ish_port_go.Cpu.{Cpu}

-- The count values from the top on, round the end of the array.
unfoldable pub window : {F : Type 0} → F → List F → ℕ → ℕ → List F
window nought fpu top zero = []
window nought fpu top (suc n) = get_or fpu top nought ∷ window nought fpu ((top + 1) % 8) n

abbrev pub stack : {F : Type 0} → F → Cpu F → List F
stack nought c = window nought c.fpu c.fpu_top c.fpu_count

cons_eq : {F : Type 0} {x y : F} {xs ys : List F} → x ≡ y → xs ≡ ys → x ∷ xs ≡ y ∷ ys
cons_eq p q = cc

module _ {F : Type 0} (nought : F) where
  pub length-window : (fpu : List F) (top n : ℕ) → length (window nought fpu top n) ≡ n
  unfolding window
  length-window fpu top zero = refl
  length-window fpu top (suc n) = ap suc (length-window fpu ((top + 1) % 8) n)

  -- A register that the window does not reach may be written.
  pub window-set_outside :
      (fpu : List F) (i top n : ℕ) (v : F)
      → i < 8
      → top < 8
      → n ≤ (i + 8 - top) % 8
      → window nought (set fpu i v) top n ≡ window nought fpu top n
  unfolding window
  window-set_outside fpu i top zero v small top_small far = refl
  window-set_outside fpu i top (suc n) v small top_small far = rw (
    get_or-set_ne fpu i top v nought (λ e. omega arith),
    window-set_outside fpu i ((top + 1) % 8) n v small (omega arith) (omega arith),
  )

  window-set_top :
      (fpu : List F) (top n place : ℕ) (v : F)
      → length fpu ≡ 8
      → top < 8
      → suc n ≤ 8
      → place ≡ top
      → window nought (set fpu place v) top (suc n) ≡ set (window nought fpu top (suc n)) zero v
  unfolding window
  window-set_top fpu top n place v eight top_small n_small same =
      cons_eq
        (subst (λ (k : ℕ). get_or (set fpu k v) top nought ≡ v) (sym same)
          (get_or-set_self fpu top v nought (omega (arith, eight))))
        (window-set_outside fpu place ((top + 1) % 8) n v (omega arith) (omega arith) (omega arith))

  -- The write of a register in the window is a write of the list.
  pub window-set_inside :
      (fpu : List F) (top n i : ℕ) (v : F)
      → length fpu ≡ 8
      → top < 8
      → n ≤ 8
      → i < n
      → window nought (set fpu ((top + i) % 8) v) top n ≡ set (window nought fpu top n) i v
  unfolding window
  window-set_inside fpu top zero i v eight top_small n_small inside = absurd (omega arith)
  window-set_inside fpu top (suc n) zero v eight top_small n_small inside =
      window-set_top fpu top n ((top + zero) % 8) v eight top_small n_small (omega arith)
  window-set_inside fpu top (suc n) (suc i) v eight top_small n_small inside =
      cons_eq (get_or-set_ne fpu ((top + suc i) % 8) top v nought (λ e. omega arith)) (
        subst
          (λ (k : ℕ).
            window nought (set fpu k v) ((top + 1) % 8) n
            ≡ set (window nought fpu ((top + 1) % 8) n) i v)
          (omega arith)
          (window-set_inside fpu ((top + 1) % 8) n i v eight (omega arith) (omega arith)
            (omega arith)))

  -- The value at a place of the window.
  pub get_elem?-window :
      (fpu : List F) (top n i : ℕ)
      → top < 8
      → i < n
      → get_elem? (window nought fpu top n) i ≡ some (get_or fpu ((top + i) % 8) nought)
  unfolding window
  get_elem?-window fpu top zero i top_small inside = absurd (omega arith)
  get_elem?-window fpu top (suc n) zero top_small inside =
      let same : (top + 0) % 8 ≡ top = omega arith in rw same
  get_elem?-window fpu top (suc n) (suc i) top_small inside =
      let later : (top + suc i) % 8 ≡ ((top + 1) % 8 + i) % 8 = omega arith in
      rw later (get_elem?-window fpu ((top + 1) % 8) n i (omega arith) (omega arith))

  pub get_elem?-window-none :
      (fpu : List F) (top n i : ℕ) → n ≤ i → get_elem? (window nought fpu top n) i ≡ none
  unfolding window
  get_elem?-window-none fpu top zero i beyond = refl
  get_elem?-window-none fpu top (suc n) zero beyond = absurd (omega arith)
  get_elem?-window-none fpu top (suc n) (suc i) beyond =
      get_elem?-window-none fpu ((top + 1) % 8) n i (omega arith)

  -- Beyond the list nothing is written.
  pub set-window-none :
      (fpu : List F) (top n i : ℕ) (v : F)
      → n ≤ i
      → set (window nought fpu top n) i v ≡ window nought fpu top n
  unfolding window
  set-window-none fpu top zero i v beyond = refl
  set-window-none fpu top (suc n) zero v beyond = absurd (omega arith)
  set-window-none fpu top (suc n) (suc i) v beyond =
      ap (λ (t : List F). get_or fpu top nought ∷ t)
        (set-window-none fpu ((top + 1) % 8) n i v (omega arith))

  -- The register before the top, written, becomes the top.
  pub window-push :
      (fpu : List F) (top n : ℕ) (v : F)
      → length fpu ≡ 8
      → top < 8
      → n < 8
      → window nought (set fpu ((top + 7) % 8) v) ((top + 7) % 8) (n + 1)
        ≡ v ∷ window nought fpu top n
  unfolding window
  window-push fpu top n v eight top_small room =
      let next = (top + 7) % 8 in
      let back : top ≡ (next + 1) % 8 = omega arith in
      let longer : suc n ≡ n + 1 = omega arith in
      subst (λ (k : ℕ). window nought (set fpu next v) next k ≡ v ∷ window nought fpu top n) longer
        (cons_eq (get_or-set_self fpu next v nought (omega (arith, eight))) (
          subst (λ (k : ℕ). window nought (set fpu next v) k n ≡ window nought fpu top n) back
            (window-set_outside fpu next top n v (omega arith) top_small (omega arith))))

  -- The top and what is under it.
  pub window-pop :
      (fpu : List F) (top n : ℕ)
      → n ≢ 0
      → window nought fpu top n ≡ get_or fpu top nought ∷ window nought fpu ((top + 1) % 8) (n - 1)
  unfolding window
  window-pop fpu top zero some_left = absurd (some_left refl)
  window-pop fpu top (suc n) some_left =
      let same : n ≡ suc n - 1 = omega arith in
      ap (λ (k : ℕ). get_or fpu top nought ∷ window nought fpu ((top + 1) % 8) k) same

  pub window-zero : (fpu : List F) (top n : ℕ) → n ≡ 0 → window nought fpu top n ≡ []
  unfolding window
  window-zero fpu top zero done = refl
  window-zero fpu top (suc n) done = absurd (omega arith)
