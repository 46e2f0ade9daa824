-- ===== src/Cpu/Exec.antt =====
-- The body of an instruction of internal/i386/cpu.go as an action on the CPU: it returns or it stops
-- with an error, and either way what it has changed by then stays changed.
pub mod Confines
pub mod Primitives
pub mod Returns
use ish_port_go.Prelude.{
  ℕ, ◌+◌, ◌-◌, ◌*◌, ◌/◌, ◌%◌, ◌^◌, Bool, true, false, List, Option, ◌==◌, ltb, if◌then◌else◌,
  get_or, set, Result, ok, err, Error, u8, u16, add32, sub32,
}
use ish_port_go.Memory.{
  Memory, read8, read16, read32, read_bytes, write8, write16, write32, write_bytes,
}
use ish_port_go.Cpu.{Cpu, push, pop}
use ish_port_go.Cpu.Operand.{
  ModRm, byte_reg, set_byte_reg, read_rm, read_rm8, read_rm16, write_rm, write_rm8, write_rm16,
}

abbrev pub Exec : Type 0 → Type 0 → Type 0
Exec F A = Cpu F → Result A × Cpu F

module _ {F A : Type 0} where
  unfoldable pub give : A → Exec F A
  give a c = (ok a, c)

  unfoldable pub raise : Error → Exec F A
  raise e c = (err e, c)

module _ {F A B : Type 0} where
  unfoldable pub resume : (A → Exec F B) → Result A × Cpu F → Result B × Cpu F
  resume next (ok a, c) = next a c
  resume next (err e, c) = (err e, c)

  infixl 5 ◌>>=◌
  unfoldable pub ◌>>=◌ : Exec F A → (A → Exec F B) → Exec F B
  unfolding resume
  ◌>>=◌ first next c = resume next (first c)

  infixl 5 ◌>>◌
  abbrev pub ◌>>◌ : Exec F A → Exec F B → Exec F B
  first >> next = first >>= λ a. next

module _ {F : Type 0} where
  abbrev pub nothing : Exec F (Unit {0})
  nothing = give tt

  unfoldable pub get_reg : ℕ → Exec F ℕ
  get_reg r c = (ok (get_or c.regs r 0), c)

  unfoldable pub put_reg : ℕ → ℕ → Exec F (Unit {0})
  put_reg r v c = (ok tt, record c { regs = set c.regs r v })

  unfoldable pub get_reg8 : ℕ → Exec F ℕ
  get_reg8 r c = (ok (byte_reg c r), c)

  unfoldable pub put_reg8 : ℕ → ℕ → Exec F (Unit {0})
  put_reg8 r v c = (ok tt, set_byte_reg c r v)

  unfoldable pub get_eip : Exec F ℕ
  get_eip c = (ok c.eip, c)

  unfoldable pub jump : ℕ → Exec F (Unit {0})
  jump target c = (ok tt, record c { eip = target })

  unfoldable pub get_eflags : Exec F ℕ
  get_eflags c = (ok c.eflags, c)

  unfoldable pub flags_by : (ℕ → ℕ) → Exec F (Unit {0})
  flags_by f c = (ok tt, record c { eflags = f c.eflags })

  unfoldable pub get_segment_base : Exec F ℕ
  get_segment_base c = (ok c.segment_base, c)

  unfoldable pub halt : Exec F (Unit {0})
  halt c = (ok tt, record c { halted = true })

  unfoldable pub put_fs : ℕ → Exec F (Unit {0})
  put_fs v c = (ok tt, record c { fs_selector = v })

  unfoldable pub put_gs : ℕ → Exec F (Unit {0})
  put_gs v c = (ok tt, record c { gs_selector = v })

  unfoldable pub load8 : ℕ → Exec F ℕ
  load8 a c = (read8 c.mem a, c)

  unfoldable pub load32 : ℕ → Exec F ℕ
  load32 a c = (read32 c.mem a, c)

  unfoldable pub load16 : ℕ → Exec F ℕ
  load16 a c = (read16 c.mem a, c)

  unfoldable pub load_bytes : ℕ → ℕ → Exec F (List ℕ)
  load_bytes a count c = (read_bytes c.mem a count, c)

  -- What a write leaves of the CPU; a failed one changes nothing.
  unfoldable pub wrote : Cpu F → Result (Cpu F) → Result (Unit {0}) × Cpu F
  wrote c (ok d) = (ok tt, d)
  wrote c (err e) = (err e, c)

  unfoldable pub stored : Cpu F → Result Memory → Result (Unit {0}) × Cpu F
  stored c (ok m) = (ok tt, record c { mem = m })
  stored c (err e) = (err e, c)

  unfoldable pub store8 : ℕ → ℕ → Exec F (Unit {0})
  unfolding stored
  store8 a v c = stored c (write8 c.mem a v)

  unfoldable pub store32 : ℕ → ℕ → Exec F (Unit {0})
  unfolding stored
  store32 a v c = stored c (write32 c.mem a v)

  unfoldable pub store16 : ℕ → ℕ → Exec F (Unit {0})
  unfolding stored
  store16 a v c = stored c (write16 c.mem a v)

  unfoldable pub store_bytes : ℕ → List ℕ → Exec F (Unit {0})
  unfolding stored
  store_bytes a value c = stored c (write_bytes c.mem a value)

  unfoldable pub get_rm : ModRm → Exec F ℕ
  get_rm m c = (read_rm c m, c)

  unfoldable pub get_rm8 : ModRm → Exec F ℕ
  get_rm8 m c = (read_rm8 c m, c)

  unfoldable pub get_rm16 : ModRm → Exec F ℕ
  get_rm16 m c = (read_rm16 c m, c)

  unfoldable pub put_rm : ModRm → ℕ → Exec F (Unit {0})
  unfolding wrote
  put_rm m v c = wrote c (write_rm c m v)

  unfoldable pub put_rm8 : ModRm → ℕ → Exec F (Unit {0})
  unfolding wrote
  put_rm8 m v c = wrote c (write_rm8 c m v)

  unfoldable pub put_rm16 : ModRm → ℕ → Exec F (Unit {0})
  unfolding wrote
  put_rm16 m v c = wrote c (write_rm16 c m v)

  unfoldable pub push_word : ℕ → Exec F (Unit {0})
  push_word v c = push c v

  unfoldable pub pop_word : Exec F ℕ
  pop_word c = pop c

-- Arithmetic on bytes, and shifts of words.
abbrev pub add8 : ℕ → ℕ → ℕ
add8 a b = (a + b) % 2 ^ 8

abbrev pub sub8 : ℕ → ℕ → ℕ
sub8 a b = (a + 2 ^ 8 - b) % 2 ^ 8

abbrev pub shl32 : ℕ → ℕ → ℕ
shl32 v n = (v * 2 ^ n) % 2 ^ 32

abbrev pub shr : ℕ → ℕ → ℕ
shr v n = v / 2 ^ n

-- An arithmetic shift to the right of a word of `bits` bits.
abbrev pub sar : ℕ → ℕ → ℕ → ℕ
sar bits v n =
    if ltb v (2 ^ (bits - 1)) then v / 2 ^ n else 2 ^ bits - 1 - (2 ^ bits - 1 - v) / 2 ^ n
