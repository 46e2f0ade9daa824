-- ===== src/Cpu/X87/Safety/State.antt =====
-- The parts of the x87 instructions stay within what the guest may write.
use ish_port_go.Prelude.{
  ℕ, ◌<◌, refl, arith, Bool, true, false, Result, if◌then◌else◌, length, leb, length-set, ◌∙◌, ◌+◌,
  ◌%◌, Bool-cases, inl, inr, ◌==◌, ◌||◌, length-append,
}
use ish_port_go.Memory.{to_bytes}
use ish_port_go.Memory.Bytes.{length-to_bytes}
use ish_port_go.Cpu.{Cpu}
use ish_port_go.Cpu.Exec.{store_bytes}
use ish_port_go.Cpu.Exec.Confines.{Confined, Confined-refl, Confined-regs, Confined-x87, Confines}
use ish_port_go.Cpu.Exec.Primitives.{confining, Confines-store_bytes, Confines-store32}
use ish_port_go.Cpu.X87.{
  Floats, fpu_push, fpu_pop, fpu_st, fpu_put, fpu_compare, extended80, get_fpu_status,
  put_fpu_status, get_fpu_control, put_fpu_control,
}
use ish_port_go.Cpu.X87.Register.{fxch, fnstsw}
use ish_port_go.Cpu.X87.Operand.{operand_address, control_word}

-- Either branch of a test leaves the memory and the registers alone.
branch-Confined :
    {F A : Type 0} (c : Cpu F) (test : Bool) (this other : Result A × Cpu F)
    → Confined c this.1
    → Confined c other.1
    → Confined c (if test then this else other).1
branch-Confined c true this other p q = p
branch-Confined c false this other p q = q

module _ {F : Type 0} where
  pub get_fpu_status-Confines : Confines {F = F} (get_fpu_status)
  unfolding get_fpu_status
  get_fpu_status-Confines = record { at = λ c g. Confined-regs c _ refl refl refl }

  pub put_fpu_status-Confines : (v : ℕ) → Confines {F = F} (put_fpu_status v)
  unfolding put_fpu_status
  put_fpu_status-Confines v = record { at = λ c g. Confined-regs c _ refl refl refl }

  pub get_fpu_control-Confines : Confines {F = F} (get_fpu_control)
  unfolding get_fpu_control
  get_fpu_control-Confines = record { at = λ c g. Confined-regs c _ refl refl refl }

  pub put_fpu_control-Confines : (v : ℕ) → Confines {F = F} (put_fpu_control v)
  unfolding put_fpu_control
  put_fpu_control-Confines v = record { at = λ c g. Confined-regs c _ refl refl refl }

  pub fpu_put-Confines : (i : ℕ) (value : F) → Confines (fpu_put i value)
  unfolding fpu_put
  fpu_put-Confines i value = record {
    at = λ c g. Confined-x87 c _ refl refl refl (λ s. record {
      registers = length-set c.fpu _ value ∙ s.registers;
      top_small = s.top_small;
      count_small = s.count_small;
    });
  }

  pub fpu_push-Confines : (value : F) → Confines (fpu_push value)
  unfolding fpu_push
  fpu_push-Confines value = record {
    at = λ c g. elim (Bool-cases (leb 8 c.fpu_count)) [
      | inl full ↦ rw full (Confined-refl c)
      | inr room ↦ rw room (
          Confined-x87 c _ refl refl refl (λ s. record {
            registers = length-set c.fpu ((c.fpu_top + 7) % 8) value ∙ s.registers;
            top_small = omega arith;
            count_small = ground (arith, room);
          }))
    ];
  }

pub ruleset x87_state = (
  get_fpu_status-Confines, put_fpu_status-Confines, get_fpu_control-Confines,
  put_fpu_control-Confines, fpu_put-Confines, fpu_push-Confines,
)

module _ {F : Type 0} where
  pub fnstsw-Confines : Confines {F = F} (fnstsw)
  unfolding fnstsw
  fnstsw-Confines = search (confining, x87_state) depth 40

  pub operand_address-Confines : (modrm : ℕ) → Confines {F = F} (operand_address modrm)
  unfolding operand_address
  operand_address-Confines modrm = search (confining) depth 40

  pub control_word-Confines : (modrm : ℕ) → Confines {F = F} (control_word modrm)
  unfolding control_word
  control_word-Confines modrm = search (confining, x87_state, operand_address-Confines) depth 40

module _ {F : Type 0} (fl : Floats F) where
  pub fpu_pop-Confines : Confines (fpu_pop fl)
  unfolding fpu_pop
  fpu_pop-Confines = record {
    at = λ c g. branch-Confined c (c.fpu_count == 0) _ _ (Confined-refl c) (
        Confined-x87 c _ refl refl refl (λ s. record {
          registers = s.registers;
          top_small = omega arith;
          count_small = omega (arith, s.count_small);
        }));
  }

  pub fpu_st-Confines : (i : ℕ) → Confines (fpu_st fl i)
  unfolding fpu_st
  fpu_st-Confines i = record {
    at = λ c g.
        branch-Confined c (leb c.fpu_count i || leb 8 i) _ _ (Confined-refl c) (Confined-refl c);
  }

  pub fpu_compare-Confines : (lhs rhs : F) → Confines (fpu_compare fl lhs rhs)
  unfolding fpu_compare
  fpu_compare-Confines lhs rhs = record { at = λ c g. Confined-regs c _ refl refl refl }

  pub fxch-Confines : (index : ℕ) → Confines (fxch fl index)
  unfolding fxch
  fxch-Confines index = record {
    at = λ c g. branch-Confined c (leb c.fpu_count index) _ _ (Confined-refl c) (
        Confined-x87 c _ refl refl refl (λ s. record {
          registers = length-set _ _ _ ∙ length-set c.fpu c.fpu_top _ ∙ s.registers;
          top_small = s.top_small;
          count_small = s.count_small;
        }));
  }

  -- A number in the 80-bit format is some bytes, and so is one of 64 bits.
  length-extended80 : (value : F) → 0 < length (extended80 fl value)
  unfolding extended80
  length-extended80 value =
      omega (arith, length-append (to_bytes 8 _) (to_bytes 2 _), length-to_bytes 8 _)

  pub store_extended-Confines :
      (addr : ℕ) (value : F) → Confines {F = F} (store_bytes addr (extended80 fl value))
  store_extended-Confines addr value =
      Confines-store_bytes addr (extended80 fl value) (length-extended80 value)

pub store_word64-Confines :
    {F : Type 0} (addr v : ℕ) → Confines {F = F} (store_bytes addr (to_bytes 8 v))
store_word64-Confines addr v =
    Confines-store_bytes addr (to_bytes 8 v) (omega (arith, length-to_bytes 8 v))

pub ruleset x87_access = (
  confining, x87_state, operand_address-Confines, fpu_pop-Confines, fpu_st-Confines,
  fpu_compare-Confines, store_word64-Confines, store_extended-Confines, Confines-store32,
)
