-- ===== src/Cpu/Step/Strings/Fill.antt =====
-- REP STOSB as a fill of the memory.
use ish_port_go.Prelude.{
  ℕ, zero, suc, ◌+◌, ◌^◌, ◌<◌, ◌≡◌, refl, true, false, List, [], ◌∷◌, arith, length, length-set,
  length-replicate, get_or, set, get_or-set_self, get_or-set_ne, set-set, set-get_or, ap, ◌∙◌, sym,
  ok, err, Result, add32, replicate, has,
}
use ish_port_go.Memory.{Memory, write8, copy_to, check_access, check}
use ish_port_go.Cpu.{Cpu}
use ish_port_go.Cpu.Flags.{flag_df}
use ish_port_go.Cpu.Operand.{byte_reg}
use ish_port_go.Cpu.Exec.{
  ◌>>=◌, resume, give, get_reg, put_reg, get_reg8, get_eflags, store8, stored,
}
use ish_port_go.Cpu.Exec.Returns.{resume-inv}
use ish_port_go.Cpu.Step.Move.{ecx, edi}
use ish_port_go.Cpu.Step.Strings.{stos, stos_round, times, advance, repeat_count, string_step}

write8-inv :
    (m : Memory) (a v : ℕ) (n : Memory)
    → write8 m a v ≡ ok n
    → (a < length m.bytes) × (n ≡ record m { bytes = set m.bytes a v })
unfolding write8 check_access check
write8-inv m a v n e = ground arith

module _ {F : Type 0} where
  -- The CPU after the bytes have been stored at EDI.
  filled : Cpu F → List ℕ → Cpu F
  filled c vs = record c {
    mem = record c.mem { bytes = copy_to c.mem.bytes (get_or c.regs edi 0) vs };
    regs = set c.regs edi (get_or c.regs edi 0 + length vs);
  }

  stored-inv :
      (c d : Cpu F) (r : Result Memory)
      → stored c r ≡ (ok tt, d)
      → (m : Memory) × (r ≡ ok m) × (d ≡ record c { mem = m })
  unfolding stored
  stored-inv c d (ok m) e = (m, refl, sym (ap (λ (t : Result (Unit {0}) × Cpu F). t.1) e))
  stored-inv c d (err x) e = absurd cc

  moved_on : Cpu F → Cpu F
  moved_on c = record c { regs = set c.regs edi (add32 (get_or c.regs edi 0) 1) }

  round-inv :
      (c d : Cpu F)
      → length c.mem.bytes < 2 ^ 32
      → stos_round false 1 c ≡ (ok tt, d)
      → (get_or c.regs edi 0 < length c.mem.bytes) × (d ≡ filled c (byte_reg c 0 ∷ []))
  unfolding stos_round ◌>>=◌ resume get_reg get_reg8 store8 advance put_reg filled copy_to moved_on
  round-inv c d small e =
      let (done, c1, wrote, rest) =
        resume-inv (λ _. advance edi 1)
          (stored c (write8 c.mem (get_or c.regs edi 0) (byte_reg c 0))) tt d e in
      let (m, write, same) = stored-inv c c1 _ wrote in
      let (inside, bytes) = write8-inv c.mem (get_or c.regs edi 0) (byte_reg c 0) m write in
      let plain : add32 (get_or c.regs edi 0) 1 ≡ get_or c.regs edi 0 + 1 = omega arith in
      (
        inside,
        sym (ap (λ (t : Result (Unit {0}) × Cpu F). t.1) rest)
            ∙ ap moved_on (same ∙ ap (λ (n : Memory). record c { mem = n }) bytes)
            ∙ ap
                (λ (x : ℕ). record c {
                  mem = record c.mem {
                    bytes = set c.mem.bytes (get_or c.regs edi 0) (byte_reg c 0);
                  };
                  regs = set c.regs edi x;
                })
                plain,
      )

  filled-none : (c : Cpu F) → filled c [] ≡ c
  unfolding filled copy_to
  filled-none c =
      let plain : get_or c.regs edi 0 + 0 ≡ get_or c.regs edi 0 = omega arith in
      ap (λ (regs : List ℕ). record c { regs = regs })
        (ap (set c.regs edi) plain ∙ set-get_or c.regs edi 0)

  -- A store, and then a fill from where EDI stands after it.
  filled-filled :
      (c : Cpu F) (n : ℕ)
      → length c.regs ≡ 8
      → (let once = filled c (byte_reg c 0 ∷ []) in filled once (replicate n (byte_reg once 0)))
        ≡ filled c (replicate (suc n) (byte_reg c 0))
  unfolding filled byte_reg copy_to
  filled-filled c n count =
      let x = get_or c.regs edi 0 in
      rw
        (
          get_or-set_ne c.regs edi 0 (x + 1) 0 (λ e. omega arith),
          get_or-set_self c.regs edi (x + 1) 0 (omega (arith, count)),
          set-set c.regs edi (x + 1),
        )
        (ap
          (λ (k : ℕ). record c {
            mem = record c.mem {
              bytes =
                  copy_to (set c.mem.bytes x (byte_reg c 0)) (x + 1) (replicate n (byte_reg c 0));
            };
            regs = set c.regs edi k;
          })
          (omega arith))

  -- The rounds of a fill that succeeds.
  times-fill :
      (n : ℕ) (c d : Cpu F)
      → length c.regs ≡ 8
      → length c.mem.bytes < 2 ^ 32
      → times n (stos_round false 1) c ≡ (ok tt, d)
      → d ≡ filled c (replicate n (byte_reg c 0))
  unfolding times give ◌>>=◌ filled copy_to
  times-fill zero c d count small e =
      sym (ap (λ (t : Result (Unit {0}) × Cpu F). t.1) e) ∙ sym (filled-none c)
  times-fill (suc n) c d count small e =
      let (done, c1, first, rest) =
        resume-inv (λ _. times n (stos_round false 1)) (stos_round false 1 c) tt d e in
      let (inside, same) = round-inv c c1 small first in
      times-fill n c1 d (ap (λ (t : Cpu F). length t.regs) same ∙ length-set c.regs edi _ ∙ count)
        (rw (ap (λ (t : Cpu F). length t.mem.bytes) same)
          (omega (arith, length-set c.mem.bytes (get_or c.regs edi 0) (byte_reg c 0))))
        rest
      ∙ ap (λ (t : Cpu F). filled t (replicate n (byte_reg t 0))) same
      ∙ filled-filled c n count

  -- A REP STOSB that succeeds with DF clear has written AL to the ECX bytes from EDI, moved EDI past
  -- them and cleared ECX, and changed nothing else, for a memory of less than 4 GiB.
  pub stos-fill :
      (c d : Cpu F)
      → length c.regs ≡ 8
      → length c.mem.bytes < 2 ^ 32
      → has c.eflags flag_df ≡ false
      → stos true false c ≡ (ok tt, d)
      → (let at = get_or c.regs edi 0 in
          let count = get_or c.regs ecx 0 in
          d ≡ record c {
            mem = record c.mem { bytes = copy_to c.mem.bytes at (replicate count (byte_reg c 0)) };
            regs = set (set c.regs ecx 0) edi (at + count);
          })
  unfolding stos repeat_count string_step ◌>>=◌ resume give get_reg put_reg get_eflags filled
      byte_reg
  stos-fill c d count small up e =
      let cleared = record c { regs = set c.regs ecx 0 } in
      let n = get_or c.regs ecx 0 in
      let rounds : times n (stos_round false 1) cleared ≡ (ok tt, d) = rw up at e in
      rw
        (
          get_or-set_ne c.regs ecx edi 0 0 (λ e. omega arith),
          get_or-set_ne c.regs ecx 0 0 0 (λ e. omega arith),
          length-replicate n (byte_reg c 0),
        )
        at (times-fill n cleared d (length-set c.regs ecx 0 ∙ count) small rounds)
