-- ===== src/Cpu/Count/Laws.antt =====
-- DEC undoes INC, and both clear CF.
use ish_port_go.Prelude.{
  ℕ, ◌^◌, ◌<◌, ◌≡◌, refl, false, arith, length, get_or, get_or-set_self, set-get_or, set-set, add32,
  sub32, and_not, bit_and, not32, has,
}
use ish_port_go.Prelude.Bits.{bit, bit-bit_and, bit_and-pow}
use ish_port_go.Cpu.{Cpu}
use ish_port_go.Cpu.Flags.{flag_cf}
use ish_port_go.Cpu.Count.{inc_reg, dec_reg}

cleared_carry : (e : ℕ) → has (and_not e flag_cf) flag_cf ≡ false
cleared_carry e =
    let low : bit (and_not e flag_cf) 0 ≡ 0 = omega (arith, bit-bit_and e (not32 flag_cf) 0) in
    let none : bit_and (and_not e flag_cf) 1 ≡ 0 =
      omega (arith, bit_and-pow (and_not e flag_cf) 0, low) in
    rw none refl

-- An INC of a register, then a DEC of it, restores the registers; each leaves CF clear, whatever it
-- was.
pub dec_reg-inc_reg :
    {F : Type 0} (c : Cpu F) (r : ℕ)
    → r < length c.regs
    → get_or c.regs r 0 < 2 ^ 32
    → ((dec_reg (inc_reg c r) r).regs ≡ c.regs)
      × (has (inc_reg c r).eflags flag_cf ≡ false)
      × (has (dec_reg c r).eflags flag_cf ≡ false)
unfolding inc_reg dec_reg
dec_reg-inc_reg c r room word =
    let a = get_or c.regs r 0 in
    let back : sub32 (add32 a 1) 1 ≡ a = omega arith in
    (
      rw (
        get_or-set_self c.regs r (add32 a 1) 0 room,
        back,
        set-set c.regs r (add32 a 1) a,
        set-get_or c.regs r 0,
      ),
      cleared_carry _,
      cleared_carry _,
    )
