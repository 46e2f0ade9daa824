-- ===== src/Cpu/Step/Strings.antt =====
-- internal/i386/cpu.go, cases of `Step`: MOVS and STOS, with their repetitions.
pub mod Fill
use ish_port_go.Prelude.{ℕ, zero, suc, ◌^◌, ◌-◌, Bool, true, false, if◌then◌else◌, add32, has}
use ish_port_go.Cpu.Flags.{flag_df}
use ish_port_go.Cpu.Exec.{
  Exec, give, ◌>>=◌, ◌>>◌, nothing, get_reg, put_reg, get_reg8, get_eflags, load8, load32, store8,
  store32,
}
use ish_port_go.Cpu.Step.Move.{eax, ecx, esi, edi}

module _ {F : Type 0} where
  -- With a REP prefix the count is ECX, which is cleared first.
  unfoldable pub repeat_count : Bool → Exec F ℕ
  repeat_count rep = if rep then (do count ← get_reg ecx; put_reg ecx 0; give count) else give 1

  -- The width, or its negation with DF set.
  unfoldable pub string_step : Bool → Exec F ℕ
  string_step wide = do
    e ← get_eflags
    let width = if wide then 4 else 1
    give (if has e flag_df then 2 ^ 32 - width else width)

  unfoldable pub move_item : Bool → Exec F (Unit {0})
  move_item wide = do
    from ← get_reg esi
    to ← get_reg edi
    if wide then (do v ← load32 from; store32 to v) else (do v ← load8 from; store8 to v)

  unfoldable pub advance : ℕ → ℕ → Exec F (Unit {0})
  advance r by = do v ← get_reg r; put_reg r (add32 v by)

  -- for i := 0; i < count; i++
  unfoldable pub times : ℕ → Exec F (Unit {0}) → Exec F (Unit {0})
  times zero body = nothing
  times (suc n) body = do body; times n body

  unfoldable pub movs_round : Bool → ℕ → Exec F (Unit {0})
  movs_round wide by = do move_item wide; advance esi by; advance edi by

  -- 0xA4, 0xA5 (`wide`)
  unfoldable pub movs : Bool → Bool → Exec F (Unit {0})
  movs rep wide = do
    count ← repeat_count rep
    by ← string_step wide
    times count (movs_round wide by)

  unfoldable pub stos_round : Bool → ℕ → Exec F (Unit {0})
  stos_round wide by = do
    to ← get_reg edi
    if wide then (do v ← get_reg eax; store32 to v) else (do v ← get_reg8 0; store8 to v)
    advance edi by

  -- 0xAA, 0xAB (`wide`)
  unfoldable pub stos : Bool → Bool → Exec F (Unit {0})
  stos rep wide = do
    count ← repeat_count rep
    by ← string_step wide
    times count (stos_round wide by)
