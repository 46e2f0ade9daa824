-- ===== src/Cpu/Operand/Tests.antt =====
-- Operands of a small guest, and the witnesses of their properties.
use ish_port_go.Prelude.{◌≡◌, refl, false, [], ◌∷◌, replicate, ok}
use ish_port_go.AddressSpace.{AddressSpace}
use ish_port_go.Memory.{Memory, check, check_access, read32, write32, copy_to, to_bytes}
use ish_port_go.Memory
use ish_port_go.Cpu.{Cpu, new_cpu}
use ish_port_go.Cpu.Operand.{
  ModRm, fetch8, displaced, sib_address, address, decode_mod_rm_byte, decode_mod_rm,
}

abbrev nowhere : AddressSpace
nowhere = record { mappings = []; max = 16; next_hint = 0 }

-- 0x44 0x8b 0xfc: [EBX + ECX * 4 - 4], in the register field 0
abbrev plain : Memory
plain = record { bytes = 0x44 ∷ 0x8b ∷ 0xfc ∷ replicate 13 0; protected = false; space = nowhere }

abbrev start : Cpu (Unit {0})
start = record (new_cpu tt plain) { regs = 0 ∷ 1 ∷ 0 ∷ 8 ∷ 0 ∷ 0 ∷ 0 ∷ 0 ∷ [] }

abbrev place : ModRm
place = record { reg = 0; rm = 4; is_reg = false; reg_val = 0; addr = 8 }

decode-sib : decode_mod_rm start ≡ (ok place, record start { eip = 3 })
unfolding new_cpu decode_mod_rm decode_mod_rm_byte address sib_address displaced fetch8
    Memory.fetch8 check_access check
decode-sib = refl
