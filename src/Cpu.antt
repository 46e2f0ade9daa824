-- ===== src/Cpu.antt =====
-- internal/i386/cpu.go: the state of the interpreter, and its stack. `OnSyscall` is not modelled, and
-- the memory stands in the state. `F` is the type of `float64`.
pub mod Flags
pub mod Stack
pub mod Operand
pub mod Count
pub mod Exec
pub mod Step
pub mod Safety
pub mod X87
pub mod Run
mod Tests
use ish_port_go.Prelude.{
  ℕ, ◌-◌, Bool, false, List, [], ◌∷◌, get_or, set, replicate, Result, ok, err, stack_underflow,
  add32, sub32, ltb, bit_and, if◌then◌else◌,
}
use ish_port_go.Memory.{Memory, read32, write32}

pub record Cpu (F : Type 0) : Type 0 where
  pub regs : List ℕ
  pub eip : ℕ
  pub eflags : ℕ
  pub mem : Memory
  pub halted : Bool
  pub steps : ℕ
  pub fs_base : ℕ
  pub gs_base : ℕ
  pub fs_selector : ℕ
  pub gs_selector : ℕ
  pub segment_base : ℕ
  pub last_eip : ℕ
  pub last_opcode : ℕ
  pub fpu : List F
  pub fpu_top : ℕ
  pub fpu_count : ℕ
  pub fpu_status : ℕ
  pub fpu_control : ℕ

-- The index of ESP in `regs`.
abbrev pub esp : ℕ
esp = 4

-- `NewCPU`; `nought` is the zero value of `float64`.
unfoldable pub new_cpu : {F : Type 0} → F → Memory → Cpu F
new_cpu nought mem = record {
  regs = replicate 8 0;
  eip = 0;
  eflags = 2;
  mem = mem;
  halted = false;
  steps = 0;
  fs_base = 0;
  gs_base = 0;
  fs_selector = 0;
  gs_selector = 0;
  segment_base = 0;
  last_eip = 0;
  last_opcode = 0;
  fpu = replicate 8 nought;
  fpu_top = 0;
  fpu_count = 0;
  fpu_status = 0;
  fpu_control = 0x037f;
}

unfoldable pub reg : {F : Type 0} → Cpu F → ℕ → ℕ
reg c r = get_or c.regs (bit_and r 7) 0

unfoldable pub set_reg : {F : Type 0} → Cpu F → ℕ → ℕ → Cpu F
set_reg c r v = record c { regs = set c.regs (bit_and r 7) v }

-- What the write of a push leaves.
unfoldable pub pushed : {F : Type 0} → Cpu F → Result Memory → Result (Unit {0}) × Cpu F
pushed c (ok m) = (ok tt, record c { mem = m })
pushed c (err e) = (err e, c)

-- ESP is moved before the write, and stays moved if that fails.
unfoldable pub push : {F : Type 0} → Cpu F → ℕ → Result (Unit {0}) × Cpu F
unfolding pushed
push c v =
    let top = get_or c.regs esp 0 in
    if ltb top 4
    then (err stack_underflow, c)
    else pushed (record c { regs = set c.regs esp (top - 4) }) (write32 c.mem (top - 4) v)

unfoldable pub popped : {F : Type 0} → Cpu F → Result ℕ → Result ℕ × Cpu F
popped c (ok v) = (ok v, record c { regs = set c.regs esp (add32 (get_or c.regs esp 0) 4) })
popped c (err e) = (err e, c)

unfoldable pub pop : {F : Type 0} → Cpu F → Result ℕ × Cpu F
unfolding popped
pop c = popped c (read32 c.mem (get_or c.regs esp 0))
