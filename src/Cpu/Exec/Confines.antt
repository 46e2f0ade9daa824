-- ===== src/Cpu/Exec/Confines.antt =====
-- Which actions stay within what the guest may write: one rule for each way to build an action.
use ish_port_go.Prelude.{
  ℕ, ◌<◌, ◌≤◌, List, arith, ◌≡◌, refl, ap, ◌∙◌, Bool, true, false, Result, Error, ok, err, length,
  if◌then◌else◌,
}
use ish_port_go.Memory.{Memory}
use ish_port_go.Memory.Kept.{
  IsGuarded, IsGuarded-kept, KeepsMemory, KeepsMemory-refl, KeepsMemory-trans,
}
use ish_port_go.Cpu.{Cpu}
use ish_port_go.Cpu.Operand.Decode.{MovesEip}
use ish_port_go.Cpu.Exec.{Exec, give, raise, resume, ◌>>=◌}

-- There are eight x87 registers, the top is one of them, and no more than eight are in use.
pub record IsStack {F : Type 0} (c : Cpu F) : Type 0 where
  pub registers : length c.fpu ≡ 8
  pub top_small : c.fpu_top < 8
  pub count_small : c.fpu_count ≤ 8

-- The x87 registers, the index of the top, the count, and the number of steps.
abbrev pub books : {F : Type 0} → Cpu F → List F × ℕ × ℕ × ℕ
books c = (c.fpu, c.fpu_top, c.fpu_count, c.steps)

-- The memory is kept but for what is mapped writable, the register file has its size, the x87
-- registers stay well formed, and no step is counted.
pub record Confined {F : Type 0} (c d : Cpu F) : Type 0 where
  pub memory : KeepsMemory c.mem d.mem
  pub regs_count : length d.regs ≡ length c.regs
  pub x87 : IsStack c → IsStack d
  pub steps : d.steps ≡ c.steps

-- Whether the action returns or stops, from a CPU with protection on and a well formed space.
pub record Confines {F A : Type 0} (act : Exec F A) : Type 0 where
  pub at : (c : Cpu F) → IsGuarded c.mem → Confined c (act c).1

module _ {F : Type 0} where
  pub Confined-refl : (c : Cpu F) → Confined c c
  Confined-refl c = record {
    memory = KeepsMemory-refl c.mem;
    regs_count = refl;
    x87 = λ s. s;
    steps = refl;
  }

  pub Confined-trans : (b c d : Cpu F) → Confined b c → Confined c d → Confined b d
  Confined-trans b c d p q = record {
    memory = KeepsMemory-trans b.mem c.mem d.mem p.memory q.memory;
    regs_count = q.regs_count ∙ p.regs_count;
    x87 = λ s. q.x87 (p.x87 s);
    steps = q.steps ∙ p.steps;
  }

  IsStack-same : (c d : Cpu F) → books d ≡ books c → IsStack c → IsStack d
  IsStack-same c d same s =
      let fpu : d.fpu ≡ c.fpu = cc (same) in
      let top : d.fpu_top ≡ c.fpu_top = cc (same) in
      let count : d.fpu_count ≡ c.fpu_count = cc (same) in
      record {
        registers = ap (λ (t : List F). length t) fpu ∙ s.registers;
        top_small = omega (arith, top, s.top_small);
        count_small = omega (arith, count, s.count_small);
      }

  -- The registers changed in place, and the memory and the x87 registers as they were.
  pub Confined-regs :
      (c d : Cpu F)
      → d.mem ≡ c.mem
      → books d ≡ books c
      → length d.regs ≡ length c.regs
      → Confined c d
  Confined-regs c d same x87_same count = record {
    memory = rw same (KeepsMemory-refl c.mem);
    regs_count = count;
    x87 = IsStack-same c d x87_same;
    steps = cc (x87_same);
  }

  -- The x87 registers changed, and the rest as it was.
  pub Confined-x87 :
      (c d : Cpu F)
      → d.mem ≡ c.mem
      → d.regs ≡ c.regs
      → d.steps ≡ c.steps
      → (IsStack c → IsStack d)
      → Confined c d
  Confined-x87 c d same regs_same count keeps = record {
    memory = rw same (KeepsMemory-refl c.mem);
    regs_count = ap (λ (t : List ℕ). length t) regs_same;
    x87 = keeps;
    steps = count;
  }

  pub Confined-memory :
      (c : Cpu F) (m : Memory) → KeepsMemory c.mem m → Confined c (record c { mem = m })
  Confined-memory c m k = record {
    memory = k;
    regs_count = refl;
    x87 = IsStack-same c (record c { mem = m }) refl;
    steps = refl;
  }

  pub Confined-eip : (c d : Cpu F) → MovesEip c d → Confined c d
  Confined-eip c d moves =
      Confined-regs c d (ap (λ (t : Cpu F). t.mem) moves) (ap (λ (t : Cpu F). books t) moves)
        (ap (λ (t : Cpu F). length t.regs) moves)

module _ {F A : Type 0} where
  pub Confines-give : (a : A) → Confines {F = F} (give a)
  unfolding give
  Confines-give a = record { at = λ c g. Confined-refl c }

  pub Confines-raise : (e : Error) → Confines {F = F} {A = A} (raise e)
  unfolding raise
  Confines-raise e = record { at = λ c g. Confined-refl c }

  pub Confines-if :
      (test : Bool) (this other : Exec F A)
      → Confines this
      → Confines other
      → Confines (if test then this else other)
  Confines-if true this other p q = p
  Confines-if false this other p q = q

module _ {F A B : Type 0} where
  resume-Confined :
      (c : Cpu F) (next : A → Exec F B) (r : Result A × Cpu F)
      → IsGuarded c.mem
      → Confined c r.1
      → ((a : A) → Confines (next a))
      → Confined c (resume next r).1
  unfolding resume
  resume-Confined c next (ok a, d) g first later =
      Confined-trans c d (next a d).1 first
        ((later a).at d (IsGuarded-kept c.mem d.mem first.memory g))
  resume-Confined c next (err e, d) g first later = first

  pub Confines-bind :
      (first : Exec F A) (next : A → Exec F B)
      → Confines first
      → ((a : A) → Confines (next a))
      → Confines (first >>= next)
  unfolding ◌>>=◌
  Confines-bind first next p q = record {
    at = λ c g. resume-Confined c next (first c) g (p.at c g) q;
  }
