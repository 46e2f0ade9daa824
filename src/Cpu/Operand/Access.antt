-- ===== src/Cpu/Operand/Access.antt =====
-- An operand that was written is read back.
use ish_port_go.Prelude.{
  ℕ, ◌+◌, ◌^◌, ◌≤◌, ◌<◌, ◌≡◌, ◌⊎◌, refl, true, false, arith, length, get_or, set, get_or-set_self,
  get_or-set_ne, add32, ok, ◌≢◌, ap, ◌∙◌,
}
use ish_port_go.AddressSpace.{prot_read}
use ish_port_go.Memory.{check_access, read32, write32}
use ish_port_go.Memory.RoundTrip.{read32-write32}
use ish_port_go.Cpu.{Cpu}
use ish_port_go.Cpu.Operand.{ModRm, read_rm, write_rm}

write_rm-memory :
    {F : Type 0} (c : Cpu F) (m : ModRm) (value : ℕ) (d : Cpu F)
    → m.is_reg ≡ false
    → write_rm c m value ≡ ok d
    → (write32 c.mem (add32 m.addr c.segment_base) value ≡ ok d.mem)
      × (d ≡ record c { mem = d.mem })
unfolding write_rm
write_rm-memory c m value d kind e = ground arith

write_rm-register :
    {F : Type 0} (c : Cpu F) (m : ModRm) (value : ℕ) (d : Cpu F)
    → m.is_reg ≡ true
    → write_rm c m value ≡ ok d
    → d ≡ record c { regs = set c.regs m.rm value }
unfolding write_rm
write_rm-register c m value d kind e = ground arith

read_rm-memory :
    {F : Type 0} (c d : Cpu F) (m : ModRm)
    → m.is_reg ≡ false
    → d ≡ record c { mem = d.mem }
    → read_rm d m ≡ read32 d.mem (add32 m.addr c.segment_base)
unfolding read_rm
read_rm-memory {F = F} c d m kind same =
    let seg : d.segment_base ≡ c.segment_base = ap (λ (t : Cpu F). t.segment_base) same in
    rw (kind, seg)

-- A successful write of a 32-bit value to an operand. In memory, the CPU changes in its memory alone,
-- and the operand reads as the value if it can be read, while a word apart from it reads as before. In
-- a register, the register holds the value and the others are as they were.
pub write_rm_lem :
    {F : Type 0} (c : Cpu F) (m : ModRm) (value : ℕ) (d : Cpu F)
    → value < 2 ^ 32
    → m.rm < length c.regs
    → write_rm c m value ≡ ok d
    → (m.is_reg ≡ false
        → (d ≡ record c { mem = d.mem })
          × (check_access c.mem (add32 m.addr c.segment_base) 4 prot_read ≡ ok tt
              → read_rm d m ≡ ok value)
          × ((b : ℕ)
              → (b + 4 ≤ add32 m.addr c.segment_base) ⊎ (add32 m.addr c.segment_base + 4 ≤ b)
              → read32 d.mem b ≡ read32 c.mem b))
      × (m.is_reg ≡ true
          → (get_or d.regs m.rm 0 ≡ value)
            × ((r : ℕ) → m.rm ≢ r → get_or d.regs r 0 ≡ get_or c.regs r 0)
            × (d.mem ≡ c.mem))
write_rm_lem c m value d fits room e = (
  λ kind.
      let (wrote, same) = write_rm-memory c m value d kind e in
      let (back, apart) =
        read32-write32 c.mem (add32 m.addr c.segment_base) value d.mem fits wrote in
      (same, (λ access. read_rm-memory c d m kind same ∙ back access), apart),
  λ kind.
      let same = write_rm-register c m value d kind e in
      rw same (
        get_or-set_self c.regs m.rm value 0 room,
        (λ r other. get_or-set_ne c.regs m.rm r value 0 other),
        refl,
      ),
)
