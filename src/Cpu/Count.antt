-- ===== src/Cpu/Count.antt =====
-- internal/i386/cpu.go: INC and DEC of a 32-bit register, which clear CF after their flags are set.
pub mod Laws
use ish_port_go.Prelude.{ℕ, get_or, set, add32, sub32, and_not}
use ish_port_go.Cpu.{Cpu}
use ish_port_go.Cpu.Flags.{set_add_flags, set_sub_flags, flag_cf}

unfoldable pub inc_reg : {F : Type 0} → Cpu F → ℕ → Cpu F
inc_reg c r =
    let a = get_or c.regs r 0 in
    let b = add32 a 1 in
    record c { regs = set c.regs r b; eflags = and_not (set_add_flags c.eflags a 1 b) flag_cf }

unfoldable pub dec_reg : {F : Type 0} → Cpu F → ℕ → Cpu F
dec_reg c r =
    let a = get_or c.regs r 0 in
    let b = sub32 a 1 in
    record c { regs = set c.regs r b; eflags = and_not (set_sub_flags c.eflags a 1 b) flag_cf }
