-- ===== src/Cpu/Flags/Tests.antt =====
-- Runs of the flag model, and the witnesses of its properties.
use ish_port_go.Prelude.{
  ◌+◌, ◌%◌, ◌^◌, ◌<◌, ◌≡◌, refl, true, false, not, arith, ltb, leb, ◌==◌, add32, sub32, has,
}
use ish_port_go.Prelude.Int.{int32, ltb_ℤ, leb_ℤ, fits_int32, ◌+ℤ◌}
use ish_port_go.Cpu.Flags.{
  even_byte, even_parity, parity_loop, set_add_flags, set_sub_flags, set_sbb_flags_n, condition,
  flag_cf, flag_of, flag_zf, flag_sf,
}
use ish_port_go.Cpu.Flags.Compare.{condition-sub}
use ish_port_go.Cpu.Flags.Carry.{add_flags, sbb_carry}

condition-sub_example :
    let f = set_sub_flags 0x202 1 0xffff_ffff (sub32 1 0xffff_ffff) in
    (condition f 0x2 ≡ ltb 1 0xffff_ffff)
    × (condition f 0x3 ≡ leb 0xffff_ffff 1)
    × (condition f 0x4 ≡ (1 == 0xffff_ffff))
    × (condition f 0x5 ≡ not (1 == 0xffff_ffff))
    × (condition f 0x6 ≡ leb 1 0xffff_ffff)
    × (condition f 0x7 ≡ ltb 0xffff_ffff 1)
    × (condition f 0xc ≡ ltb_ℤ (int32 1) (int32 0xffff_ffff))
    × (condition f 0xd ≡ leb_ℤ (int32 0xffff_ffff) (int32 1))
    × (condition f 0xe ≡ leb_ℤ (int32 1) (int32 0xffff_ffff))
    × (condition f 0xf ≡ ltb_ℤ (int32 0xffff_ffff) (int32 1))
condition-sub_example = condition-sub 0x202 1 0xffff_ffff (omega arith) (omega arith)

add_flags_example :
    let f = set_add_flags 0x202 0x7fff_ffff 1 (add32 0x7fff_ffff 1) in
    (has f flag_cf ≡ leb (2 ^ 32) (0x7fff_ffff + 1))
    × (has f flag_of ≡ not (fits_int32 (int32 0x7fff_ffff +ℤ int32 1)))
    × (has f flag_zf ≡ (add32 0x7fff_ffff 1 == 0))
    × (has f flag_sf ≡ leb (2 ^ 31) (add32 0x7fff_ffff 1))
add_flags_example = add_flags 0x202 0x7fff_ffff 1 (omega arith) (omega arith)

sbb_carry_example :
    (0xffff_ffff + 1 < 2 ^ 32
      → has (set_sbb_flags_n 0x202 0 0xffff_ffff 1 0 32) flag_cf
        ≡ ltb (0 % 2 ^ 32) (0xffff_ffff + 1))
    × (has (set_sbb_flags_n 0x202 0 0xffff_ffff 0 0 32) flag_cf ≡ ltb (0 % 2 ^ 32) 0xffff_ffff)
    × (0xffff_ffff + 1 ≡ 2 ^ 32 → has (set_sbb_flags_n 0x202 0 0xffff_ffff 1 0 32) flag_cf ≡ false)
sbb_carry_example = sbb_carry 0x202 0 0xffff_ffff 0 32 (omega arith)

parity-runs : (even_parity 0x1_0107 ≡ false) × (even_parity 0x33 ≡ true)
unfolding even_parity even_byte parity_loop
parity-runs = (refl, refl)
