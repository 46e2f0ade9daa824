-- ===== src/Cpu/Step/Flag.antt =====
-- internal/i386/cpu.go, cases of `Step` that only set flags or halt; INC and DEC of a register.
use ish_port_go.Prelude.{ℕ, ◌/◌, ◌^◌, bit_or, and_not, u8, has, ok}
use ish_port_go.Cpu.Flags.{flag_cf, flag_pf, flag_zf, flag_sf, raise_if}
use ish_port_go.Cpu.Count.{inc_reg, dec_reg}
use ish_port_go.Cpu.Exec.{Exec, ◌>>=◌, get_reg, flags_by}
use ish_port_go.Cpu.Step.Move.{eax}

-- FlagSF | FlagZF | FlagPF | FlagCF
abbrev pub sahf_flags : ℕ
sahf_flags = 0xc5

unfoldable pub load_ah : ℕ → ℕ → ℕ
unfolding raise_if
load_ah ah e = raise_if (has ah 0x01) flag_cf (
    raise_if (has ah 0x04) flag_pf
      (raise_if (has ah 0x40) flag_zf (raise_if (has ah 0x80) flag_sf (and_not e sahf_flags))))

module _ {F : Type 0} where
  -- 0x9E
  unfoldable pub sahf : Exec F (Unit {0})
  sahf = do a ← get_reg eax; flags_by (load_ah (u8 (a / 2 ^ 8)))

  -- 0xF8 to 0xFD
  unfoldable pub clear_flag : ℕ → Exec F (Unit {0})
  clear_flag flag = flags_by (λ e. and_not e flag)

  unfoldable pub set_flag : ℕ → Exec F (Unit {0})
  set_flag flag = flags_by (λ e. bit_or e flag)

  -- 0x40-0x47, 0x48-0x4F
  unfoldable pub inc_r32 : ℕ → Exec F (Unit {0})
  inc_r32 r c = (ok tt, inc_reg c r)

  unfoldable pub dec_r32 : ℕ → Exec F (Unit {0})
  dec_r32 r c = (ok tt, dec_reg c r)
