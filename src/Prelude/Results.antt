-- ===== src/Prelude/Results.antt =====
-- The results of Go functions that return `error`. The message texts are not modelled; each call of
-- `fmt.Errorf` or error value that a caller could tell apart is a constructor.
use mathlib.Core.Bool.{Bool, true, false}

pub data Error : Type 0 where
  memory_fault unmapped_access protection_fault invalid_mapping : Error
  invalid_range overlap not_mapped no_hole outside not_terminated stack_underflow : Error
  invalid_argument end_of_file again broken_pipe would_block not_runnable : Error
  bad_signal no_frame bad_saved_state out_of_fuel : Error
  unsupported division_by_zero division_overflow no_interrupt : Error
  x87_overflow x87_underflow x87_register instruction_limit privileged_halt : Error

pub data Result {ℓ} (A : Type ℓ) : Type ℓ where
  ok : A → Result A
  err : Error → Result A

-- `if test { return error }`
abbrev pub fail_if : Bool → Error → Result (Unit {0})
fail_if true e = err e
fail_if false e = ok tt

module _ {ℓ κ} {A : Type ℓ} {B : Type κ} where
  infixl 5 ◌>>=◌
  abbrev pub ◌>>=◌ : Result A → (A → Result B) → Result B
  err e >>= rest = err e
  ok value >>= rest = rest value

module _ {κ} {B : Type κ} where
  infixl 5 ◌>>◌
  abbrev pub ◌>>◌ : Result (Unit {0}) → Result B → Result B
  check >> rest = check >>= λ done. rest
