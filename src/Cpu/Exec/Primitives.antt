-- ===== src/Cpu/Exec/Primitives.antt =====
-- One rule for each action of Cpu/Exec: it stays within what the guest may write.
use ish_port_go.Prelude.{
  ℕ, ◌≡◌, refl, Bool, true, false, Result, ok, err, length-set, set, if◌then◌else◌, Bool-cases, inl,
  inr, get_or, ltb, bit_and, ◌-◌, add32, List, ◌<◌, length,
}
use ish_port_go.Memory.{Memory, write8, write16, write32, write_bytes}
use ish_port_go.Memory.Kept.{
  KeepsMemory, write_bytes-KeepsMemory, write8-KeepsMemory, write16-KeepsMemory,
  write32-KeepsMemory,
}
use ish_port_go.Cpu.{Cpu, esp, push, pop, pushed, popped}
use ish_port_go.Cpu.Operand.{
  ModRm, fetch8, fetch16, fetch32, decode_mod_rm, decode_mod_rm_byte, set_byte_reg, write_rm,
  write_rm8, write_rm16, with_memory,
}
use ish_port_go.Cpu.Operand.Decode.{
  MovesEip, fetch8-MovesEip, fetch32-MovesEip, after-MovesEip, decode_mod_rm-MovesEip,
  decode_mod_rm_byte-MovesEip,
}
use ish_port_go.Cpu.Exec.{
  get_reg, put_reg, get_reg8, put_reg8, get_eip, jump, get_eflags, flags_by, get_segment_base, halt,
  put_fs, put_gs, load8, load16, load32, load_bytes, wrote, stored, store8, store16, store32,
  store_bytes, get_rm, get_rm8, get_rm16, put_rm, put_rm8, put_rm16, push_word, pop_word,
}
use ish_port_go.Cpu.Exec.Confines.{
  Confined, Confines, Confined-refl, Confined-trans, Confined-regs, Confined-memory, Confined-eip,
  Confines-give, Confines-raise, Confines-if, Confines-bind,
}

module _ {F : Type 0} where
  pub Confines-get_reg : (r : ℕ) → Confines {F = F} (get_reg r)
  unfolding get_reg
  Confines-get_reg r = record { at = λ c g. Confined-refl c }

  pub Confines-put_reg : (r v : ℕ) → Confines {F = F} (put_reg r v)
  unfolding put_reg
  Confines-put_reg r v = record { at = λ c g. Confined-regs c _ refl refl (length-set c.regs r v) }

  pub Confines-get_reg8 : (r : ℕ) → Confines {F = F} (get_reg8 r)
  unfolding get_reg8
  Confines-get_reg8 r = record { at = λ c g. Confined-refl c }

  set_byte_reg-Confined : (c : Cpu F) (r v : ℕ) → Confined c (set_byte_reg c r v)
  unfolding set_byte_reg
  set_byte_reg-Confined c r v = elim (Bool-cases (ltb (bit_and r 7) 4)) [
    | inl low ↦ rw low (Confined-regs c _ refl refl (length-set c.regs _ _))
    | inr high ↦ rw high (Confined-regs c _ refl refl (length-set c.regs _ _))
  ]

  pub Confines-put_reg8 : (r v : ℕ) → Confines {F = F} (put_reg8 r v)
  unfolding put_reg8
  Confines-put_reg8 r v = record { at = λ c g. set_byte_reg-Confined c r v }

  pub Confines-get_eip : Confines {F = F} get_eip
  unfolding get_eip
  Confines-get_eip = record { at = λ c g. Confined-refl c }

  pub Confines-jump : (target : ℕ) → Confines {F = F} (jump target)
  unfolding jump
  Confines-jump target = record { at = λ c g. Confined-regs c _ refl refl refl }

  pub Confines-get_eflags : Confines {F = F} get_eflags
  unfolding get_eflags
  Confines-get_eflags = record { at = λ c g. Confined-refl c }

  pub Confines-flags_by : (f : ℕ → ℕ) → Confines {F = F} (flags_by f)
  unfolding flags_by
  Confines-flags_by f = record { at = λ c g. Confined-regs c _ refl refl refl }

  pub Confines-get_segment_base : Confines {F = F} get_segment_base
  unfolding get_segment_base
  Confines-get_segment_base = record { at = λ c g. Confined-refl c }

  pub Confines-halt : Confines {F = F} halt
  unfolding halt
  Confines-halt = record { at = λ c g. Confined-regs c _ refl refl refl }

  pub Confines-put_fs : (v : ℕ) → Confines {F = F} (put_fs v)
  unfolding put_fs
  Confines-put_fs v = record { at = λ c g. Confined-regs c _ refl refl refl }

  pub Confines-put_gs : (v : ℕ) → Confines {F = F} (put_gs v)
  unfolding put_gs
  Confines-put_gs v = record { at = λ c g. Confined-regs c _ refl refl refl }

  pub Confines-load8 : (a : ℕ) → Confines {F = F} (load8 a)
  unfolding load8
  Confines-load8 a = record { at = λ c g. Confined-refl c }

  pub Confines-load32 : (a : ℕ) → Confines {F = F} (load32 a)
  unfolding load32
  Confines-load32 a = record { at = λ c g. Confined-refl c }

  pub Confines-load16 : (a : ℕ) → Confines {F = F} (load16 a)
  unfolding load16
  Confines-load16 a = record { at = λ c g. Confined-refl c }

  pub Confines-load_bytes : (a count : ℕ) → Confines {F = F} (load_bytes a count)
  unfolding load_bytes
  Confines-load_bytes a count = record { at = λ c g. Confined-refl c }

  pub Confines-get_rm : (m : ModRm) → Confines {F = F} (get_rm m)
  unfolding get_rm
  Confines-get_rm m = record { at = λ c g. Confined-refl c }

  pub Confines-get_rm8 : (m : ModRm) → Confines {F = F} (get_rm8 m)
  unfolding get_rm8
  Confines-get_rm8 m = record { at = λ c g. Confined-refl c }

  pub Confines-get_rm16 : (m : ModRm) → Confines {F = F} (get_rm16 m)
  unfolding get_rm16
  Confines-get_rm16 m = record { at = λ c g. Confined-refl c }

  pub Confines-fetch8 : Confines {F = F} fetch8
  Confines-fetch8 = record { at = λ c g. Confined-eip c (fetch8 c).1 (fetch8-MovesEip c) }

  fetch16-MovesEip : (c : Cpu F) → MovesEip c (fetch16 c).1
  unfolding fetch16
  fetch16-MovesEip c =
      after-MovesEip c (fetch8 c) _ (fetch8-MovesEip c)
        (λ lo c1. after-MovesEip c1 (fetch8 c1) _ (fetch8-MovesEip c1) (λ hi c2. refl))

  pub Confines-fetch16 : Confines {F = F} fetch16
  Confines-fetch16 = record { at = λ c g. Confined-eip c (fetch16 c).1 (fetch16-MovesEip c) }

  pub Confines-decode_mod_rm_byte : (v : ℕ) → Confines {F = F} (decode_mod_rm_byte v)
  Confines-decode_mod_rm_byte v = record {
    at = λ c g. Confined-eip c (decode_mod_rm_byte v c).1 (decode_mod_rm_byte-MovesEip v c);
  }

  pub Confines-fetch32 : Confines {F = F} fetch32
  Confines-fetch32 = record { at = λ c g. Confined-eip c (fetch32 c).1 (fetch32-MovesEip c) }

  pub Confines-decode_mod_rm : Confines {F = F} decode_mod_rm
  Confines-decode_mod_rm = record {
    at = λ c g. Confined-eip c (decode_mod_rm c).1 (decode_mod_rm-MovesEip c);
  }

  -- A checked write of the memory.
  stored-Confined :
      (c : Cpu F) (r : Result Memory)
      → ((m : Memory) → r ≡ ok m → KeepsMemory c.mem m)
      → Confined c (stored c r).1
  unfolding stored
  stored-Confined c (ok m) keeps = Confined-memory c m (keeps m refl)
  stored-Confined c (err e) keeps = Confined-refl c

  pub Confines-store8 : (a v : ℕ) → Confines {F = F} (store8 a v)
  unfolding store8
  Confines-store8 a v = record {
    at = λ c g. stored-Confined c (write8 c.mem a v) (λ m. write8-KeepsMemory c.mem a v m g);
  }

  pub Confines-store32 : (a v : ℕ) → Confines {F = F} (store32 a v)
  unfolding store32
  Confines-store32 a v = record {
    at = λ c g. stored-Confined c (write32 c.mem a v) (λ m. write32-KeepsMemory c.mem a v m g);
  }

  pub Confines-store16 : (a v : ℕ) → Confines {F = F} (store16 a v)
  unfolding store16
  Confines-store16 a v = record {
    at = λ c g. stored-Confined c (write16 c.mem a v) (λ m. write16-KeepsMemory c.mem a v m g);
  }

  -- A write of some bytes, at least one.
  pub Confines-store_bytes :
      (a : ℕ) (vs : List ℕ) → 0 < length vs → Confines {F = F} (store_bytes a vs)
  unfolding store_bytes
  Confines-store_bytes a vs some_bytes = record {
    at = λ c g.
        stored-Confined c (write_bytes c.mem a vs)
          (λ m. write_bytes-KeepsMemory c.mem a vs m g some_bytes);
  }

  -- A write of an operand, whose register or memory is changed.
  with_memory-Confined :
      (c : Cpu F) (r : Result Memory)
      → ((m : Memory) → r ≡ ok m → KeepsMemory c.mem m)
      → Confined c (wrote c (with_memory c r)).1
  unfolding wrote
  with_memory-Confined c (ok m) keeps = Confined-memory c m (keeps m refl)
  with_memory-Confined c (err e) keeps = Confined-refl c

  operand-Confined :
      (c d : Cpu F) (test : Bool) (r : Result (Cpu F))
      → Confined c d
      → Confined c (wrote c r).1
      → Confined c (wrote c (if test then ok d else r)).1
  unfolding wrote
  operand-Confined c d true r p q = p
  operand-Confined c d false r p q = q

  pub Confines-put_rm : (m : ModRm) (v : ℕ) → Confines {F = F} (put_rm m v)
  unfolding put_rm write_rm
  Confines-put_rm m v = record {
    at = λ c g.
        operand-Confined c _ m.is_reg _ (Confined-regs c _ refl refl (length-set c.regs m.rm v)) (
          with_memory-Confined c (write32 c.mem (add32 m.addr c.segment_base) v)
            (λ n. write32-KeepsMemory c.mem (add32 m.addr c.segment_base) v n g));
  }

  pub Confines-put_rm8 : (m : ModRm) (v : ℕ) → Confines {F = F} (put_rm8 m v)
  unfolding put_rm8 write_rm8
  Confines-put_rm8 m v = record {
    at = λ c g. operand-Confined c _ m.is_reg _ (set_byte_reg-Confined c m.rm v) (
        with_memory-Confined c (write8 c.mem (add32 m.addr c.segment_base) v)
          (λ n. write8-KeepsMemory c.mem (add32 m.addr c.segment_base) v n g));
  }

  pub Confines-put_rm16 : (m : ModRm) (v : ℕ) → Confines {F = F} (put_rm16 m v)
  unfolding put_rm16 write_rm16
  Confines-put_rm16 m v = record {
    at = λ c g.
        operand-Confined c _ m.is_reg _ (Confined-regs c _ refl refl (length-set c.regs m.rm _)) (
          with_memory-Confined c (write16 c.mem (add32 m.addr c.segment_base) v)
            (λ n. write16-KeepsMemory c.mem (add32 m.addr c.segment_base) v n g));
  }

  pushed-Confined :
      (c : Cpu F) (r : Result Memory)
      → ((m : Memory) → r ≡ ok m → KeepsMemory c.mem m)
      → Confined c (pushed c r).1
  unfolding pushed
  pushed-Confined c (ok m) keeps = Confined-memory c m (keeps m refl)
  pushed-Confined c (err e) keeps = Confined-refl c

  pub Confines-push_word : (v : ℕ) → Confines {F = F} (push_word v)
  unfolding push_word push
  Confines-push_word v = record {
    at = λ c g.
        let top = get_or c.regs esp 0 in
        let moved = record c { regs = set c.regs esp (top - 4) } in
        elim (Bool-cases (ltb top 4)) [
          | inl low ↦ rw low (Confined-refl c)
          | inr room ↦ rw room (
              Confined-trans c moved _
                (Confined-regs c moved refl refl (length-set c.regs esp (top - 4)))
                (pushed-Confined moved _ (λ m. write32-KeepsMemory c.mem (top - 4) v m g)))
        ];
  }

  popped-Confined : (c : Cpu F) (r : Result ℕ) → Confined c (popped c r).1
  unfolding popped
  popped-Confined c (ok v) = Confined-regs c _ refl refl (length-set c.regs _ _)
  popped-Confined c (err e) = Confined-refl c

  pub Confines-pop_word : Confines {F = F} pop_word
  unfolding pop_word pop
  Confines-pop_word = record { at = λ c g. popped-Confined c _ }

pub ruleset confining = (
  Confines-give, Confines-raise, Confines-if, Confines-bind, Confines-get_reg, Confines-put_reg,
  Confines-get_reg8, Confines-put_reg8, Confines-get_eip, Confines-jump, Confines-get_eflags,
  Confines-flags_by, Confines-get_segment_base, Confines-halt, Confines-put_fs, Confines-put_gs,
  Confines-load8, Confines-load16, Confines-load32, Confines-load_bytes, Confines-store16,
  Confines-decode_mod_rm_byte, Confines-get_rm, Confines-get_rm8, Confines-get_rm16,
  Confines-fetch8, Confines-fetch16, Confines-fetch32, Confines-decode_mod_rm, Confines-store8,
  Confines-store32, Confines-put_rm, Confines-put_rm8, Confines-put_rm16, Confines-push_word,
  Confines-pop_word,
)
