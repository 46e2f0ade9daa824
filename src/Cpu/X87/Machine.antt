-- ===== src/Cpu/X87/Machine.antt =====
-- The x87 stack of internal/i386/cpu.go as a machine over the list of its values: what `fpuPush`,
-- `fpuPop` and `fpuST` promise, and one rule for each way to build an instruction from them.
use ish_port_go.Prelude.{
  ℕ, ◌≡◌, refl, leb, if◌then◌else◌, List, [], ◌∷◌, Option, some, none, length, get_elem?, set,
  Result, ok, err, Error, x87_overflow, x87_underflow, x87_register,
}
use mathlib.Core.Path.{subst}
use ish_port_go.Cpu.{Cpu}
use ish_port_go.Cpu.Exec.{Exec, give, resume}
use ish_port_go.Cpu.Exec
use ish_port_go.Cpu.Exec.Confines.{IsStack}
use ish_port_go.Cpu.X87.Stack.{stack}

abbrev pub StackOp : Type 0 → Type 0 → Type 0
StackOp F A = List F → Result A × List F

module _ {F A : Type 0} where
  unfoldable pub pure : A → StackOp F A
  pure a st = (ok a, st)

  unfoldable pub refuse : Error → StackOp F A
  refuse e st = (err e, st)

module _ {F A B : Type 0} where
  unfoldable pub resume_op : (A → StackOp F B) → Result A × List F → Result B × List F
  resume_op next (ok a, st) = next a st
  resume_op next (err e, st) = (err e, st)

  infixl 5 ◌>>=◌
  unfoldable pub ◌>>=◌ : StackOp F A → (A → StackOp F B) → StackOp F B
  unfolding resume_op
  ◌>>=◌ first next st = resume_op next (first st)

  infixl 5 ◌>>◌
  abbrev pub ◌>>◌ : StackOp F A → StackOp F B → StackOp F B
  first >> next = first >>= λ a. next

module _ {F : Type 0} where
  unfoldable pub push_top : F → StackOp F (Unit {0})
  push_top v st = if leb 8 (length st) then (err x87_overflow, st) else (ok tt, v ∷ st)

  unfoldable pub pop_top : StackOp F F
  pop_top [] = (err x87_underflow, [])
  pop_top (x ∷ st) = (ok x, st)

  unfoldable pub found : Option F → Result F
  found none = err x87_register
  found (some v) = ok v

  unfoldable pub nth : ℕ → StackOp F F
  nth i st = (found (get_elem? st i), st)

  unfoldable pub put_nth : ℕ → F → StackOp F (Unit {0})
  put_nth i v st = (ok tt, set st i v)

-- Only the x87 registers, their bookkeeping and their status word differ.
abbrev pub OnlyX87 : {F : Type 0} → Cpu F → Cpu F → Type 0
OnlyX87 c d = d ≡ record c {
  fpu = d.fpu;
  fpu_top = d.fpu_top;
  fpu_count = d.fpu_count;
  fpu_status = d.fpu_status;
}

module _ {F : Type 0} (nought : F) where
  -- What the machine gives is the result of the CPU, and its list is the stack of the CPU.
  pub record Agrees {A : Type 0} (c : Cpu F) (s : Result A × List F) (r : Result A × Cpu F)
      : Type 0 where
    pub result : r.0 ≡ s.0
    pub values : stack nought r.1 ≡ s.1
    pub is_stack : IsStack r.1
    pub rest : OnlyX87 c r.1

  pub record Refines {A : Type 0} (act : Exec F A) (op : StackOp F A) : Type 0 where
    pub at : (c : Cpu F) → IsStack c → Agrees c (op (stack nought c)) (act c)

module _ {F A : Type 0} {nought : F} where
  Agrees-from :
      (c d : Cpu F) (s : Result A × List F) (r : Result A × Cpu F)
      → OnlyX87 c d
      → Agrees nought d s r
      → Agrees nought c s r
  Agrees-from c d s r only agrees = record {
    result = agrees.result;
    values = agrees.values;
    is_stack = agrees.is_stack;
    rest = cc (agrees.rest, only);
  }

  pub Refines-give : (a : A) → Refines nought (give a) (pure a)
  unfolding give pure
  Refines-give a = record {
    at = λ c v. record { result = refl; values = refl; is_stack = v; rest = refl };
  }

module _ {F A B : Type 0} {nought : F} where
  resume-Agrees :
      (c : Cpu F) (next : A → Exec F B) (later : A → StackOp F B) (s : Result A × List F)
      (r : Result A × Cpu F)
      → Agrees nought c s r
      → ((a : A) → Refines nought (next a) (later a))
      → Agrees nought c (resume_op later s) (resume next r)
  unfolding resume resume_op
  resume-Agrees c next later (ok a, st) (ok b, d) agrees rules =
      let same : b ≡ a = cc (agrees.result) in
      Agrees-from c d (later a st) (next b d) agrees.rest (
        subst (λ (x : A). Agrees nought d (later x st) (next b d)) same
          (subst (λ (t : List F). Agrees nought d (later b t) (next b d)) agrees.values
            ((rules b).at d agrees.is_stack)))
  resume-Agrees c next later (ok a, st) (err e, d) agrees rules = absurd (cc (agrees.result))
  resume-Agrees c next later (err e, st) (ok b, d) agrees rules = absurd (cc (agrees.result))
  resume-Agrees c next later (err e, st) (err f, d) agrees rules = record {
    result = cc (agrees.result);
    values = agrees.values;
    is_stack = agrees.is_stack;
    rest = agrees.rest;
  }

  pub Refines-bind :
      (first : Exec F A) (next : A → Exec F B) (first_op : StackOp F A) (later : A → StackOp F B)
      → Refines nought first first_op
      → ((a : A) → Refines nought (next a) (later a))
      → Refines nought (Exec.◌>>=◌ first next) (first_op >>= later)
  unfolding Exec.◌>>=◌ ◌>>=◌
  Refines-bind first next first_op later p q = record {
    at = λ c v. resume-Agrees c next later (first_op (stack nought c)) (first c) (p.at c v) q;
  }
