-- ===== src/Cpu/Step/Unary/Divide.antt =====
-- MUL and DIV of EDX:EAX by an operand.
use ish_port_go.Prelude.{
  ℕ, ◌+◌, ◌-◌, ◌*◌, ◌/◌, ◌%◌, ◌^◌, ◌<◌, ◌≡◌, refl, false, List, [], ◌∷◌, arith, length, length-set,
  get_or, get_or-set_self, get_or-set_ne, set, ap, ◌∙◌, ok, ltb,
}
use native.Mathlib.Nat.{mul-div_cancel, mul-mod_left}
use ish_port_go.Cpu.{Cpu}
use ish_port_go.Cpu.Exec.{◌>>=◌, ◌>>◌, resume, get_reg, put_reg}
use ish_port_go.Cpu.Step.Move.{eax, edx}
use ish_port_go.Cpu.Step.Unary.{mul_eax, div_eax, divide}

set_twice :
    (rs : List ℕ) (x y z : ℕ) → set (set (set (set rs 0 x) 2 y) 0 (get_or rs 0 0)) 2 z ≡ set rs 2 z
set_twice [] x y z = refl
set_twice (a ∷ []) x y z = refl
set_twice (a ∷ b ∷ []) x y z = refl
set_twice (a ∷ b ∷ c ∷ rs) x y z = refl

module _ {F : Type 0} where
  -- After MUL of EAX by an operand that is not 0, DIV by the same operand succeeds, gives EAX back
  -- and leaves 0 in EDX; nothing else changes.
  pub div_eax-mul_eax :
      (c : Cpu F) (value : ℕ)
      → length c.regs ≡ 8
      → get_or c.regs eax 0 < 2 ^ 32
      → 0 < value
      → (mul_eax false value >> div_eax false value) c
        ≡ (ok tt, record c { regs = set c.regs edx 0 })
  unfolding mul_eax div_eax divide ◌>>=◌ resume get_reg put_reg
  div_eax-mul_eax c value count small some =
      let a = get_or c.regs eax 0 in
      let low = (a * value) % 2 ^ 32 in
      let high = a * value / 2 ^ 32 in
      let hi : get_or (set (set c.regs eax low) edx high) edx 0 ≡ high =
        get_or-set_self (set c.regs eax low) edx high 0
          (omega (arith, length-set c.regs eax low, count)) in
      let lo : get_or (set (set c.regs eax low) edx high) eax 0 ≡ low =
        get_or-set_ne (set c.regs eax low) edx eax high 0 (λ e. omega arith)
        ∙ get_or-set_self c.regs eax low 0 (omega (arith, count)) in
      let whole : high * 2 ^ 32 + low ≡ a * value = omega arith in
      let quotient : a * value / value ≡ a = mul-div_cancel a some in
      let remainder : (a * value) % value ≡ 0 = mul-mod_left a value in
      let fits : ltb (2 ^ 32 - 1) a ≡ false = ground arith in
      rw (hi, lo, whole, quotient, remainder, fits)
        (ap (λ (regs : List ℕ). (ok tt, record c { regs = regs })) (set_twice c.regs low high 0))
