-- ===== src/Cpu/Step/Prefix/Ends.antt =====
-- The loop over prefixes ends: EIP moves up to the end of the memory, where a fetch fails.
use ish_port_go.Prelude.{
  ℕ, zero, suc, ◌+◌, ◌^◌, ◌≤◌, ◌<◌, ◌≡◌, refl, Bool, false, arith, length, Result, ok, err,
  out_of_fuel, Bool-cases, inl, inr,
}
use ish_port_go.AddressSpace.{prot_exec}
use ish_port_go.AddressSpace.Ends.{check_range-Ends}
use ish_port_go.Memory
use ish_port_go.Memory.{Memory, check_access, check}
use ish_port_go.Cpu.{Cpu}
use ish_port_go.Cpu.Operand.{fetch8}
use ish_port_go.Cpu.Exec.{Exec, give, resume, ◌>>=◌}
use ish_port_go.Cpu.Step.Prefix.{
  is_prefix, choose_segment, prefix_loop, note_opcode, memory_size, read_opcode,
}

memory_fetch8-inside : (m : Memory) (a v : ℕ) → Memory.fetch8 m a ≡ ok v → a < length m.bytes
unfolding Memory.fetch8 check_access check
memory_fetch8-inside m a v e = ground arith

memory_fetch8-Ends : (m : Memory) (a : ℕ) → ¬ (Memory.fetch8 m a ≡ err out_of_fuel)
unfolding Memory.fetch8 check_access check
memory_fetch8-Ends m a = ground (arith, check_range-Ends m.space a 1 prot_exec)

module _ {F : Type 0} where
  -- The action does not run out of fuel.
  Stops : {A : Type 0} → Result A × Cpu F → Type 0
  Stops r = ¬ (r.0 ≡ err out_of_fuel)

  resume-Stops :
      {A B : Type 0} (next : A → Exec F B) (r : Result A × Cpu F)
      → Stops r
      → ((a : A) → r.0 ≡ ok a → Stops (next a r.1))
      → Stops (resume next r)
  unfolding resume Stops
  resume-Stops next (ok a, d) first later = later a refl
  resume-Stops next (err e, d) first later = λ stop. first cc

  -- With fuel for each byte from EIP to the end of the memory and two more, the loop stops by itself.
  prefix_loop-Stops :
      (fuel : ℕ) (operand16 rep : Bool) (c : Cpu F)
      → length c.mem.bytes < 2 ^ 32
      → 0 < fuel
      → length c.mem.bytes + 2 ≤ fuel + c.eip
      → Stops (prefix_loop fuel operand16 rep c)
  unfolding prefix_loop ◌>>=◌ fetch8 Stops resume choose_segment give
  prefix_loop-Stops zero operand16 rep c small some_fuel enough = absurd (omega arith)
  prefix_loop-Stops (suc fuel) operand16 rep c small some_fuel enough =
      resume-Stops _ (fetch8 c) (memory_fetch8-Ends c.mem c.eip) (λ op fetched.
        let inside = memory_fetch8-inside c.mem c.eip op fetched in
        elim (Bool-cases (is_prefix op)) [
          | inl prefixed ↦ rw prefixed (
              prefix_loop-Stops fuel _ _ _ small (omega (arith, small, enough))
                (omega (arith, small, enough)))
          | inr plain ↦ rw plain (λ stop. cc)
        ])

  -- With a memory of less than 4 GiB, reading an opcode never runs out of the fuel that it gives the
  -- loop over prefixes: it returns an opcode or the error of a fetch.
  pub read_opcode-Stops :
      (start : ℕ) (c : Cpu F)
      → length c.mem.bytes < 2 ^ 32
      → ¬ ((read_opcode start c).0 ≡ err out_of_fuel)
  unfolding read_opcode memory_size ◌>>=◌ resume note_opcode give Stops
  read_opcode-Stops start c small =
      resume-Stops _ (prefix_loop (length c.mem.bytes + 2) false false c)
        (prefix_loop-Stops _ false false c small (omega arith) (omega arith))
        (λ code found stop. cc)
