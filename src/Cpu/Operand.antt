-- ===== src/Cpu/Operand.antt =====
-- internal/i386/cpu.go: the bytes of an instruction, the ModRM operand that they name, and reading and
-- writing it. A fetch moves EIP on whether it succeeds or not, so a decoder returns the CPU beside
-- its result.
pub mod Decode
pub mod Access
mod Tests
use ish_port_go.Prelude.{
  ℕ, ◌+◌, ◌-◌, ◌*◌, ◌/◌, ◌%◌, ◌^◌, Bool, true, false, ◌&&◌, List, [], ◌∷◌, ◌==◌, ltb, if◌then◌else◌,
  get_or, set, Result, ok, err, ◌>>=◌, u8, u16, u32, add32, sign_extend8, bit_and, bit_or, and_not,
}
use ish_port_go.Memory.{Memory, read8, read16, read32, write8, write16, write32, of_bytes}
use ish_port_go.Memory
use ish_port_go.Cpu.{Cpu}

-- `v, err := f(); if err != nil { return err }`, on the CPU that `f` leaves.
abbrev pub after :
    {F A B : Type 0} → Result A × Cpu F → (A → Cpu F → Result B × Cpu F) → Result B × Cpu F
after (ok a, c) next = next a c
after (err e, c) next = (err e, c)

unfoldable pub fetch8 : {F : Type 0} → Cpu F → Result ℕ × Cpu F
fetch8 c = (Memory.fetch8 c.mem c.eip, record c { eip = add32 c.eip 1 })

unfoldable pub fetch16 : {F : Type 0} → Cpu F → Result ℕ × Cpu F
fetch16 c = after (fetch8 c) (λ lo c1. after (fetch8 c1) (λ hi c2. (ok (lo + hi * 2 ^ 8), c2)))

unfoldable pub fetch32 : {F : Type 0} → Cpu F → Result ℕ × Cpu F
fetch32 c = after (fetch8 c) (λ b0 c1. after (fetch8 c1) (λ b1 c2.
    after (fetch8 c2) (λ b2 c3.
      after (fetch8 c3) (λ b3 c4. (ok (b0 + b1 * 2 ^ 8 + b2 * 2 ^ 16 + b3 * 2 ^ 24), c4)))))

pub record ModRm : Type 0 where
  pub reg : ℕ
  pub rm : ℕ
  pub is_reg : Bool
  pub reg_val : ℕ
  pub addr : ℕ

-- The displacement that the mode asks for, added to the base.
unfoldable pub displaced : {F : Type 0} → ℕ → ℕ → Cpu F → Result ℕ × Cpu F
displaced mode base c =
    if mode == 1
    then after (fetch8 c) (λ d c1. (ok (add32 base (sign_extend8 d)), c1))
    else if mode == 2
    then after (fetch32 c) (λ d c1. (ok (add32 base d), c1))
    else (ok base, c)

-- The address of a SIB byte.
unfoldable pub sib_address : {F : Type 0} → ℕ → ℕ → Cpu F → Result ℕ × Cpu F
sib_address mode sib c =
    let scale = 2 ^ (sib / 64) in
    let index = (sib / 8) % 8 in
    let base_reg = sib % 8 in
    let base = if index == 4 then 0 else u32 (get_or c.regs index 0 * scale) in
    if mode == 0 && base_reg == 5
    then after (fetch32 c) (λ d c1. (ok (add32 base d), c1))
    else displaced mode (add32 base (get_or c.regs base_reg 0)) c

unfoldable pub address : {F : Type 0} → ℕ → ℕ → Cpu F → Result ℕ × Cpu F
address mode rm c =
    if rm == 4
    then after (fetch8 c) (λ sib c1. sib_address mode sib c1)
    else if mode == 0 && rm == 5
    then fetch32 c
    else displaced mode (get_or c.regs rm 0) c

unfoldable pub decode_mod_rm_byte : {F : Type 0} → ℕ → Cpu F → Result ModRm × Cpu F
decode_mod_rm_byte v c =
    let mode = v / 64 in
    let r = (v / 8) % 8 in
    let rm = v % 8 in
    if mode == 3
    then (
      ok (record { reg = r; rm = rm; is_reg = true; reg_val = get_or c.regs rm 0; addr = 0 }),
      c,
    )
    else after (address mode rm c) (λ base c1.
      (ok (record { reg = r; rm = rm; is_reg = false; reg_val = 0; addr = base }), c1))

-- `decodeModRM` repeats the code of `decodeModRMByte` on the byte that it fetches.
unfoldable pub decode_mod_rm : {F : Type 0} → Cpu F → Result ModRm × Cpu F
decode_mod_rm c = after (fetch8 c) (λ v c1. decode_mod_rm_byte v c1)

unfoldable pub bool_bit : Bool → ℕ
bool_bit value = if value then 1 else 0

unfoldable pub byte_reg : {F : Type 0} → Cpu F → ℕ → ℕ
byte_reg c reg =
    let r = bit_and reg 7 in
    if ltb r 4 then u8 (get_or c.regs r 0) else u8 (get_or c.regs (r - 4) 0 / 2 ^ 8)

unfoldable pub set_byte_reg : {F : Type 0} → Cpu F → ℕ → ℕ → Cpu F
set_byte_reg c reg value =
    let r = bit_and reg 7 in
    if ltb r 4
    then record c { regs = set c.regs r (bit_or (and_not (get_or c.regs r 0) 0xff) value) }
    else record c {
      regs = set c.regs (r - 4) (bit_or (and_not (get_or c.regs (r - 4) 0) 0xff00) (value * 2 ^ 8));
    }

-- The CPU with the memory after a write.
abbrev pub with_memory : {F : Type 0} → Cpu F → Result Memory → Result (Cpu F)
with_memory c r = r >>= λ m. ok (record c { mem = m })

unfoldable pub write_rm16 : {F : Type 0} → Cpu F → ModRm → ℕ → Result (Cpu F)
write_rm16 c m value =
    if m.is_reg
    then ok (record c {
      regs = set c.regs m.rm (bit_or (bit_and (get_or c.regs m.rm 0) 0xffff_0000) value);
    })
    else with_memory c (write16 c.mem (add32 m.addr c.segment_base) value)

unfoldable pub read_rm16 : {F : Type 0} → Cpu F → ModRm → Result ℕ
read_rm16 c m =
    if m.is_reg then ok (u16 (get_or c.regs m.rm 0)) else read16 c.mem (add32 m.addr c.segment_base)

unfoldable pub read_rm8 : {F : Type 0} → Cpu F → ModRm → Result ℕ
read_rm8 c m = if m.is_reg then ok (byte_reg c m.rm) else read8 c.mem (add32 m.addr c.segment_base)

unfoldable pub write_rm8 : {F : Type 0} → Cpu F → ModRm → ℕ → Result (Cpu F)
write_rm8 c m value =
    if m.is_reg
    then ok (set_byte_reg c m.rm value)
    else with_memory c (write8 c.mem (add32 m.addr c.segment_base) value)

unfoldable pub read_rm : {F : Type 0} → Cpu F → ModRm → Result ℕ
read_rm c m = if m.is_reg then ok m.reg_val else read32 c.mem (add32 m.addr c.segment_base)

unfoldable pub write_rm : {F : Type 0} → Cpu F → ModRm → ℕ → Result (Cpu F)
write_rm c m value =
    if m.is_reg
    then ok (record c { regs = set c.regs m.rm value })
    else with_memory c (write32 c.mem (add32 m.addr c.segment_base) value)
