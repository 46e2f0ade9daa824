-- ===== src/Cpu/Step/Move/Calls.antt =====
-- CALL and RET.
use ish_port_go.Prelude.{
  ℕ, ◌-◌, ◌^◌, ◌<◌, ◌≡◌, refl, ap, ◌∙◌, sym, arith, length, get_or, ok, err, Result,
}
use ish_port_go.AddressSpace.{prot_read}
use ish_port_go.Memory.{Memory, check_access}
use ish_port_go.Cpu.{Cpu, esp, push, pop, popped}
use ish_port_go.Cpu.Stack.{pop-push}
use ish_port_go.Cpu.Operand.{fetch8, fetch32, after}
use ish_port_go.Cpu.Operand.Decode.{MovesEip, fetch32-MovesEip}
use ish_port_go.Cpu.Exec.{◌>>=◌, resume, get_eip, jump, push_word, pop_word}
use ish_port_go.Cpu.Exec.Returns.{resume-inv}
use ish_port_go.Cpu.Step.Move.{call_rel32, ret_near, jump_by}

module _ {F : Type 0} where
  after-eip :
      {A B : Type 0} (r : Result A × Cpu F) (next : A → Cpu F → Result B × Cpu F)
      → r.1.eip < 2 ^ 32
      → ((a : A) (d : Cpu F) → d.eip < 2 ^ 32 → (next a d).1.eip < 2 ^ 32)
      → (after r next).1.eip < 2 ^ 32
  after-eip (ok a, d) next first later = later a d first
  after-eip (err e, d) next first later = first

  fetch8-eip : (c : Cpu F) → (fetch8 c).1.eip < 2 ^ 32
  unfolding fetch8
  fetch8-eip c = omega arith

  fetch32-eip : (c : Cpu F) → (fetch32 c).1.eip < 2 ^ 32
  unfolding fetch32
  fetch32-eip c = after-eip (fetch8 c) _ (fetch8-eip c) (λ b0 c1 p.
      after-eip (fetch8 c1) _ (fetch8-eip c1) (λ b1 c2 q.
        after-eip (fetch8 c2) _ (fetch8-eip c2)
          (λ b2 c3 r. after-eip (fetch8 c3) _ (fetch8-eip c3) (λ b3 c4 s. s))))

  popped-eip :
      (c : Cpu F) (t : ℕ) (r : Result ℕ)
      → popped (record c { eip = t }) r ≡ ((popped c r).0, record (popped c r).1 { eip = t })
  unfolding popped
  popped-eip c t (ok v) = refl
  popped-eip c t (err e) = refl

  pop-eip :
      (c d : Cpu F) (t v : ℕ)
      → pop c ≡ (ok v, d)
      → pop (record c { eip = t }) ≡ (ok v, record d { eip = t })
  unfolding pop
  pop-eip c d t v e =
      popped-eip c t _ ∙ ap (λ (r : Result ℕ × Cpu F). (r.0, record r.1 { eip = t })) e

  -- After a CALL that succeeds, a RET from wherever EIP has got to since returns to the instruction
  -- after the CALL with every register as it was, if the return address can be read back.
  pub ret_near-call_rel32 :
      (c d : Cpu F) (t : ℕ)
      → length c.regs ≡ 8
      → get_or c.regs esp 0 < 2 ^ 32
      → check_access c.mem (get_or c.regs esp 0 - 4) 4 prot_read ≡ ok tt
      → call_rel32 c ≡ (ok tt, d)
      → ret_near (record d { eip = t }) ≡ (ok tt, record (fetch32 c).1 { mem = d.mem })
  unfolding call_rel32 ret_near jump_by ◌>>=◌ resume get_eip jump push_word pop_word
  ret_near-call_rel32 c d t count top-lt access e =
      let (rel, c1, fetched, e1) = resume-inv _ (fetch32 c) tt d e in
      let (done, c2, pushed, e2) = resume-inv (λ _. jump_by rel) (push c1 c1.eip) tt d e1 in
      let same : c1 ≡ (fetch32 c).1 = sym (ap (λ (r : Result ℕ × Cpu F). r.1) fetched) in
      let moves : MovesEip c c1 = rw same (fetch32-MovesEip c) in
      let regs : c1.regs ≡ c.regs = ap (λ (x : Cpu F). x.regs) moves in
      let mem : c1.mem ≡ c.mem = ap (λ (x : Cpu F). x.mem) moves in
      let popped_back : pop c2 ≡ (ok c1.eip, record c1 { mem = c2.mem }) =
        pop-push c1 c1.eip c2 (rw regs count) (rw regs top-lt) (rw same (fetch32-eip c))
          (rw (regs, mem) access) pushed in
      let landed = sym (ap (λ (r : Result (Unit {0}) × Cpu F). r.1) e2) in
      ap (λ (x : Cpu F). ret_near (record x { eip = t })) landed
      ∙ ap (resume (λ v. jump v)) (pop-eip c2 (record c1 { mem = c2.mem }) t c1.eip popped_back)
      ∙ ap (λ (m : Memory). (ok tt, record c1 { mem = m })) (sym (ap (λ (x : Cpu F). x.mem) landed))
      ∙ ap (λ (x : Cpu F). (ok tt, record x { mem = d.mem })) same
