-- ===== src/Cpu/X87/Refine.antt =====
-- internal/i386/cpu.go: `fpuPush`, `fpuPop`, `fpuST` and the forms of `stepX87` on registers are what the
-- machine over the list of values says.
use ish_port_go.Prelude.{
  ℕ, ◌+◌, ◌%◌, ◌<◌, ◌≡◌, refl, sym, ◌∙◌, arith, true, false, ◌==◌, ◌||◌, leb, Bool-cases, inl, inr,
  lt-or-ge, set, length-set,
}
use ish_port_go.Cpu.{Cpu}
use ish_port_go.Cpu.Exec.Confines.{IsStack}
use ish_port_go.Cpu.X87.{Floats, fpu_push, fpu_pop, fpu_st, fpu_put, fpu_compare, slot}
use ish_port_go.Cpu.X87.Stack.{
  window, stack, length-window, window-set_outside, window-set_inside, get_elem?-window,
  get_elem?-window-none, set-window-none, window-push, window-pop, window-zero,
}
use ish_port_go.Cpu.X87.Machine.{pure, push_top, pop_top, found, nth, put_nth, Refines}

module _ {F : Type 0} (nought : F) where
  pub fpu_push-Refines : (v : F) → Refines nought (fpu_push v) (push_top v)
  unfolding fpu_push push_top
  fpu_push-Refines v = record {
    at = λ c s.
        let count = length-window nought c.fpu c.fpu_top c.fpu_count in
        elim (Bool-cases (leb 8 c.fpu_count)) [
          | inl full ↦
              rw (count, full) (record { result = refl; values = refl; is_stack = s; rest = refl })
          | inr room ↦
              rw (count, room)
                (record {
                  result = refl;
                  values =
                      window-push nought c.fpu c.fpu_top c.fpu_count v s.registers s.top_small
                        (ground (arith, room));
                  is_stack = record {
                    registers = length-set c.fpu ((c.fpu_top + 7) % 8) v ∙ s.registers;
                    top_small = omega arith;
                    count_small = ground (arith, room);
                  };
                  rest = refl;
                })
        ];
  }

module _ {F : Type 0} (fl : Floats F) where
  pub fpu_pop-Refines : Refines fl.zero (fpu_pop fl) pop_top
  unfolding fpu_pop pop_top
  fpu_pop-Refines = record {
    at = λ c s. elim (Bool-cases (c.fpu_count == 0)) [
      | inl bare ↦
          let nothing_left =
            window-zero fl.zero c.fpu c.fpu_top c.fpu_count (ground (arith, bare)) in
          rw (bare, nothing_left)
            (record { result = refl; values = nothing_left; is_stack = s; rest = refl })
      | inr more ↦
          rw (more, window-pop fl.zero c.fpu c.fpu_top c.fpu_count (ground (arith, more)))
            (record {
              result = refl;
              values = refl;
              is_stack = record {
                registers = s.registers;
                top_small = omega arith;
                count_small = omega (arith, s.count_small);
              };
              rest = refl;
            })
    ];
  }

  pub fpu_st-Refines : (i : ℕ) → Refines fl.zero (fpu_st fl i) (nth i)
  unfolding fpu_st nth found
  fpu_st-Refines i = record {
    at = λ c s. elim (lt-or-ge i c.fpu_count) [
      | inl inside ↦
          let valid : (leb c.fpu_count i || leb 8 i) ≡ false = ground (arith, s.count_small) in
          rw (valid, get_elem?-window fl.zero c.fpu c.fpu_top c.fpu_count i s.top_small inside)
            (record { result = refl; values = refl; is_stack = s; rest = refl })
      | inr beyond ↦
          let invalid : (leb c.fpu_count i || leb 8 i) ≡ true = ground arith in
          rw (invalid, get_elem?-window-none fl.zero c.fpu c.fpu_top c.fpu_count i beyond)
            (record { result = refl; values = refl; is_stack = s; rest = refl })
    ];
  }

  put_values :
      (c : Cpu F) (i : ℕ) (v : F)
      → IsStack c
      → i < 8
      → window fl.zero (set c.fpu (slot c i) v) c.fpu_top c.fpu_count ≡ set (stack fl.zero c) i v
  put_values c i v s small = elim (lt-or-ge i c.fpu_count) [
    | inl inside ↦
        window-set_inside fl.zero c.fpu c.fpu_top c.fpu_count i v s.registers s.top_small
          s.count_small inside
    | inr beyond ↦
        window-set_outside fl.zero c.fpu (slot c i) c.fpu_top c.fpu_count v (omega arith)
          s.top_small (omega arith)
        ∙ sym (set-window-none fl.zero c.fpu c.fpu_top c.fpu_count i v beyond)
  ]

  pub fpu_put-Refines : (i : ℕ) (v : F) → i < 8 → Refines fl.zero (fpu_put i v) (put_nth i v)
  unfolding fpu_put put_nth
  fpu_put-Refines i v small = record {
    at = λ c s. record {
      result = refl;
      values = put_values c i v s small;
      is_stack = record {
        registers = length-set c.fpu (slot c i) v ∙ s.registers;
        top_small = s.top_small;
        count_small = s.count_small;
      };
      rest = refl;
    };
  }

  pub fpu_compare-Refines : (lhs rhs : F) → Refines fl.zero (fpu_compare fl lhs rhs) (pure tt)
  unfolding fpu_compare pure
  fpu_compare-Refines lhs rhs = record {
    at = λ c s. record {
      result = refl;
      values = refl;
      is_stack = record {
        registers = s.registers;
        top_small = s.top_small;
        count_small = s.count_small;
      };
      rest = refl;
    };
  }

  -- From well formed x87 registers, `fpuPush`, `fpuPop`, `fpuST(i)` and a write of register i below 8
  -- are, on the list of the values on the stack: a new head, unless there are eight values; the head
  -- taken off, if there is one; the value at place i, if there is one; and a write at place i, which
  -- beyond the end changes nothing. A failure leaves the list as it is; the registers stay well formed,
  -- and the CPU keeps all but its x87 registers and status.
  pub primitives-Refines :
      (i : ℕ) (value : F)
      → i < 8
      → Refines fl.zero (fpu_push value) (push_top value)
        × Refines fl.zero (fpu_pop fl) pop_top
        × Refines fl.zero (fpu_st fl i) (nth i)
        × Refines fl.zero (fpu_put i value) (put_nth i value)
  primitives-Refines i value small = (
    fpu_push-Refines fl.zero value,
    fpu_pop-Refines,
    fpu_st-Refines i,
    fpu_put-Refines i value small,
  )
