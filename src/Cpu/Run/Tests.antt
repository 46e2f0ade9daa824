-- ===== src/Cpu/Run/Tests.antt =====
-- Runs of the CPU on a small guest with x87 instructions, and the witnesses of the properties of the
-- x87 stack and of `Run`. The numbers stand for `float64`.
use ish_port_go.Prelude.{
  true, ℕ, ◌+◌, ◌-◌, ◌*◌, ◌/◌, ◌%◌, ◌^◌, ◌≡◌, refl, arith, false, ltb, ◌==◌, List, [], ◌∷◌, none,
  some, Result, ok, replicate,
}
use ish_port_go.Prelude.Int.{pos}
use ish_port_go.AddressSpace.{AddressSpace}
use ish_port_go.Cpu.{Cpu, new_cpu}
use ish_port_go.Cpu.Exec.{give, resume, ◌>>=◌}
use ish_port_go.Cpu.X87.{Floats, fpu_push, fpu_pop, fpu_st, fpu_put}
use ish_port_go.Cpu.X87.Register.{combine, faddp, fmulp, fsubp, fsubrp}
use ish_port_go.Cpu.X87.Machine.{Refines, push_top, pop_top, nth, put_nth}
use ish_port_go.Cpu.X87.Refine.{primitives-Refines}
use ish_port_go.Cpu.X87.Forms.{reduce, arithmetic-Refines}
use ish_port_go.Cpu.Run.{run}
use ish_port_go.Cpu.Run.Total.{Ran, run_total}

abbrev numbers : Floats ℕ
numbers = record {
  zero = 0;
  one = 1;
  two = 2;
  two63 = 2 ^ 63;
  nan = 0;
  inf = λ sign. 2 ^ 64;
  neg = λ x. x;
  abs = λ x. x;
  sqrt = λ x. x;
  add = λ x y. x + y;
  sub = λ x y. x - y;
  mul = λ x y. x * y;
  div = λ x y. x / y;
  fmod = λ x y. x % y;
  floor = λ x. x;
  ceil = λ x. x;
  trunc = λ x. x;
  round_to_even = λ x. x;
  lt = ltb;
  eq = λ x y. x == y;
  is_nan = λ x. false;
  is_inf = λ x. false;
  sign_bit = λ x. false;
  ldexp = λ x e. x;
  frexp = λ x. (x, pos 0);
  of_int32 = λ v. v;
  of_int64 = λ v. v;
  of_uint64 = λ v. v;
  to_int64 = λ x. x % 2 ^ 64;
  to_uint64 = λ x. x % 2 ^ 64;
  of_bits32 = λ v. v;
  of_bits64 = λ v. v;
  to_bits64 = λ x. x % 2 ^ 64;
}

-- Sixteen bytes of text that may be read and run, and eight that may be written.
abbrev layout : AddressSpace
layout = record {
  mappings =
      record { start = 0; end = 16; prot = 5; name = "text" }
      ∷ record { start = 16; end = 24; prot = 3; name = "bytes" }
      ∷ [];
  max = 32;
  next_hint = 24;
}

-- FLD1, FLD1, FADDP ST(1), FISTP m32 at 16, HLT
abbrev text : List ℕ
text =
    0xd9
    ∷ 0xe8
    ∷ 0xd9
    ∷ 0xe8
    ∷ 0xde
    ∷ 0xc1
    ∷ 0xdb
    ∷ 0x1d
    ∷ 16
    ∷ 0
    ∷ 0
    ∷ 0
    ∷ 0xf4
    ∷ 0
    ∷ 0
    ∷ 0
    ∷ replicate 16 0

abbrev start : Cpu ℕ
start = new_cpu 0 (record { bytes = text; protected = true; space = layout })

run_total_example :
    (r : Result (Unit {0}) × Cpu ℕ) × (run numbers none 30 20 start ≡ some r) × Ran start r
unfolding new_cpu
run_total_example =
    run_total numbers none tt 30 20 start (omega arith) (omega arith) (omega arith)
      (record { on = refl; valid = omega arith })

arithmetic-Refines_example :
    Refines 0 (faddp numbers 3) (reduce (λ x y. x + y) 3)
    × Refines 0 (fmulp numbers) (reduce (λ x y. x * y) 1)
    × Refines 0 (fsubp numbers) (reduce (λ x y. x - y) 1)
    × Refines 0 (fsubrp numbers) (reduce (λ value top. top - value) 2)
arithmetic-Refines_example = arithmetic-Refines numbers 3 (omega arith)

primitives-Refines_example :
    Refines {F = ℕ} 0 (fpu_push 7) (push_top 7)
    × Refines 0 (fpu_pop numbers) pop_top
    × Refines 0 (fpu_st numbers 3) (nth 3)
    × Refines {F = ℕ} 0 (fpu_put 3 7) (put_nth 3 7)
primitives-Refines_example = primitives-Refines numbers 3 7 (omega arith)

-- FADDP ST(1) on two values.
faddp_test : (faddp numbers 1 (fpu_push 3 (fpu_push 2 start).1).1).0 ≡ ok tt
unfolding faddp combine fpu_push fpu_pop fpu_st fpu_put new_cpu give resume ◌>>=◌
faddp_test = refl
