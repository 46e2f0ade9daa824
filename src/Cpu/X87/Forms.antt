-- ===== src/Cpu/X87/Forms.antt =====
-- internal/i386/cpu.go: the forms of `stepX87` on registers, as operations on the list of the values
-- on the stack.
use ish_port_go.Prelude.{
  ℕ, zero, suc, ◌<◌, ◌≡◌, refl, fun_ext, arith, List, [], ◌∷◌, some, none, get_elem?, set, Result,
  ok, err, x87_register,
}
use ish_port_go.Cpu.Exec.{Exec}
use ish_port_go.Cpu.Exec
use ish_port_go.Cpu.X87.{Floats, fpu_pop}
use ish_port_go.Cpu.X87.Register.{combine, fsubrp, fmulp, fsubp, faddp}
use ish_port_go.Cpu.X87.Machine.{
  StackOp, pure, ◌>>=◌, resume_op, pop_top, found, nth, put_nth, Refines, Refines-bind,
  Refines-give,
}
use ish_port_go.Cpu.X87.Refine.{fpu_pop-Refines, fpu_st-Refines, fpu_put-Refines}

module _ {F : Type 0} where
  -- The value at place `i` is combined with the top into place `i`, and the top is taken off.
  unfoldable pub reduce_at : (F → F → F) → ℕ → F → List F → Result (Unit {0}) × List F
  reduce_at f zero x rest = (ok tt, rest)
  reduce_at f (suc i) x rest = elim (get_elem? rest i) [
    | none ↦ (err x87_register, x ∷ rest)
    | some y ↦ (ok tt, set rest i (f y x))
  ]

  unfoldable pub reduce : (F → F → F) → ℕ → StackOp F (Unit {0})
  reduce f i [] = (err x87_register, [])
  reduce f i (x ∷ rest) = reduce_at f i x rest

  -- The top becomes its image.
  unfoldable pub apply_top : (F → F) → StackOp F (Unit {0})
  apply_top f [] = (err x87_register, [])
  apply_top f (x ∷ rest) = (ok tt, f x ∷ rest)

  -- The program of `combine` and a pop, on the list.
  combine_op : (F → F → F) → ℕ → StackOp F (Unit {0})
  combine_op f i =
      (nth i >>= λ lhs. nth 0 >>= λ rhs. put_nth i (f lhs rhs)) >>= λ u. pop_top >>= λ v. pure tt

  combine_op-eq-reduce : (f : F → F → F) (i : ℕ) (st : List F) → combine_op f i st ≡ reduce f i st
  unfolding combine_op reduce reduce_at nth found put_nth pop_top pure ◌>>=◌ resume_op
  combine_op-eq-reduce f i [] = refl
  combine_op-eq-reduce f zero (x ∷ rest) = refl
  combine_op-eq-reduce f (suc i) (x ∷ rest) = ground arith

module _ {F : Type 0} (fl : Floats F) where
  Refines-eq :
      {A : Type 0} (act : Exec F A) (op other : StackOp F A)
      → ((st : List F) → op st ≡ other st)
      → Refines fl.zero act op
      → Refines fl.zero act other
  Refines-eq act op other same r = rw (fun_ext same) at r

  program :
      (f : F → F → F) (i : ℕ)
      → i < 8
      → Refines fl.zero
          (Exec.◌>>=◌ (combine fl f i 0 i) (λ u. Exec.◌>>=◌ (fpu_pop fl) (λ v. Exec.nothing)))
          (combine_op f i)
  unfolding combine combine_op
  program f i small =
      search (Refines-bind, Refines-give, fpu_st-Refines, fpu_put-Refines, fpu_pop-Refines)

  combine_pop-Refines :
      (f : F → F → F) (i : ℕ)
      → i < 8
      → Refines fl.zero
          (Exec.◌>>=◌ (combine fl f i 0 i) (λ u. Exec.◌>>=◌ (fpu_pop fl) (λ v. Exec.nothing)))
          (reduce f i)
  unfolding combine
  combine_pop-Refines f i small =
      Refines-eq _ (combine_op f i) (reduce f i) (combine_op-eq-reduce f i) (program f i small)

  -- FADDP, FMULP, FSUBP and FSUBRP, from well formed x87 registers, on the list of the values on the
  -- stack: the top leaves it, and the value at the place that the instruction names, counted from 0 with
  -- the top in, becomes the sum, the product, the value less the top, or the top less the value; of
  -- place 0 nothing is left. Where there is no such place the list stays as it is, and the instruction
  -- fails. The registers stay well formed, and the CPU keeps all but its x87 registers and status.
  pub arithmetic-Refines :
      (i : ℕ)
      → i < 8
      → Refines fl.zero (faddp fl i) (reduce fl.add i)
        × Refines fl.zero (fmulp fl) (reduce fl.mul 1)
        × Refines fl.zero (fsubp fl) (reduce fl.sub 1)
        × Refines fl.zero (fsubrp fl) (reduce (λ value top. fl.sub top value) 2)
  unfolding faddp fmulp fsubp fsubrp
  arithmetic-Refines i small = (
    combine_pop-Refines fl.add i small,
    combine_pop-Refines fl.mul 1 (omega arith),
    combine_pop-Refines fl.sub 1 (omega arith),
    combine_pop-Refines (λ value top. fl.sub top value) 2 (omega arith),
  )
