-- ===== src/Cpu/Step/Shift.antt =====
-- internal/i386/cpu.go, cases of `Step`: shifts and rotations.
use ish_port_go.Prelude.{
  ℕ, ◌-◌, ◌*◌, ◌%◌, ◌^◌, Bool, true, false, ◌&&◌, not, ◌==◌, ltb, if◌then◌else◌, bit_and, bit_or,
  u8, u16, has, nonzero, unsupported, Option, none, some,
}
use ish_port_go.Cpu.Flags.{set_shift_flags, set_shift_flags_n}
use ish_port_go.Cpu.Operand.{ModRm, fetch8, decode_mod_rm, bool_bit}
use ish_port_go.Cpu.Exec.{
  Exec, give, raise, ◌>>=◌, ◌>>◌, nothing, get_reg, get_reg8, flags_by, get_rm, get_rm8, put_rm,
  put_rm8, put_rm16, shl32, shr, sar,
}

-- (v>>i)&1
abbrev pub bit_at : ℕ → ℕ → ℕ
bit_at v i = bit_and (shr v i) 1

-- What a shift computes: the result, CF and OF.
pub record Shifted : Type 0 where
  pub result : ℕ
  pub cf : Bool
  pub of : Bool

-- `switch m.reg` of 0xC0 and 0xD0, for a count from 1 to 7.
unfoldable pub shift8 : ℕ → ℕ → ℕ → Option Shifted
shift8 op value count =
    let left = u8 (value * 2 ^ count) in
    let cf_left = nonzero (bit_at value (8 - count)) in
    let cf_right = nonzero (bit_at value (count - 1)) in
    let rol = bit_or left (shr value (8 - count)) in
    let ror = bit_or (shr value count) (u8 (value * 2 ^ (8 - count))) in
    if op == 4
    then some (record {
      result = left;
      cf = cf_left;
      of = count == 1 && not (bit_at left 7 == bool_bit cf_left);
    })
    else if op == 5
    then some
        (record { result = shr value count; cf = cf_right; of = count == 1 && has value 0x80 })
    else if op == 7
    then some (record { result = sar 8 value count; cf = cf_right; of = false })
    else if op == 0
    then some (record {
      result = rol;
      cf = has rol 1;
      of = count == 1 && not (bit_at rol 7 == bit_and rol 1);
    })
    else if op == 1
    then some (record {
      result = ror;
      cf = has ror 0x80;
      of = count == 1 && not (bit_at ror 7 == bit_at ror 6);
    })
    else none

-- `switch m.reg` of 0xC1, 0xD1 and 0xD3 at 16 or 32 bits, for a count from 1 to 31.
unfoldable pub shift : ℕ → ℕ → ℕ → ℕ → Option Shifted
shift bits op value count =
    let mask = 2 ^ bits - 1 in
    let top = 2 ^ (bits - 1) in
    let fits = ltb count bits in
    let left = if fits then bit_and (shl32 value count) mask else 0 in
    let cf_left = fits && nonzero (bit_at value (bits - count)) in
    let cf_right = nonzero (bit_at value (count - 1)) in
    let turn = count % bits in
    let rol =
      if turn == 0
      then value
      else bit_and (bit_or (shl32 value turn) (shr value (bits - turn))) mask in
    let ror =
      if turn == 0
      then value
      else bit_and (bit_or (shr value turn) (shl32 value (bits - turn))) mask in
    if op == 4
    then some (record {
      result = left;
      cf = cf_left;
      of = count == 1 && not (bit_at left (bits - 1) == bool_bit cf_left);
    })
    else if op == 5
    then some (record {
      result = if fits then shr value count else 0;
      cf = fits && cf_right;
      of = count == 1 && has value top;
    })
    else if op == 7
    then some (record {
      result = sar bits value count;
      cf = if fits then cf_right else has value top;
      of = false;
    })
    else if op == 0
    then some (record {
      result = rol;
      cf = has rol 1;
      of = turn == 1 && not (bit_at rol (bits - 1) == bit_and rol 1);
    })
    else if op == 1
    then some (record {
      result = ror;
      cf = has ror top;
      of = turn == 1 && not (bit_at ror (bits - 1) == bit_at ror (bits - 2));
    })
    else none

module _ {F : Type 0} where
  unfoldable pub put_shifted8 : ModRm → Option Shifted → Exec F (Unit {0})
  put_shifted8 m none = raise unsupported
  put_shifted8 m (some s) = do
    put_rm8 m s.result
    flags_by (λ e. set_shift_flags_n e s.result s.cf s.of 8)

  -- 0xC0 (`by_imm`), 0xD0
  unfoldable pub shift_rm8 : Bool → Exec F (Unit {0})
  shift_rm8 by_imm = do
    m ← decode_mod_rm
    given ← (if by_imm then fetch8 else give 1)
    let count = bit_and given 7
    value ← get_rm8 m
    if count == 0 then nothing else put_shifted8 m (shift8 m.reg value count)

  unfoldable pub put_shifted : Bool → ModRm → Option Shifted → Exec F (Unit {0})
  put_shifted operand16 m none = raise unsupported
  put_shifted operand16 m (some s) =
      if operand16
      then (do put_rm16 m (u16 s.result); flags_by (λ e. set_shift_flags_n e s.result s.cf s.of 16))
      else (do put_rm m s.result; flags_by (λ e. set_shift_flags e s.result s.cf s.of))

  -- 0xC1, 0xD1 and 0xD3 by what gives the count
  unfoldable pub shift_count : ℕ → Exec F ℕ
  shift_count op =
      if op == 0xc1
      then (do v ← fetch8; give (bit_and v 31))
      else if op == 0xd3
      then (do v ← get_reg8 1; give (bit_and v 31))
      else give 1

  unfoldable pub shift_rm : Bool → ℕ → Exec F (Unit {0})
  shift_rm operand16 op = do
    m ← decode_mod_rm
    count ← shift_count op
    value ← get_rm m
    if count == 0
        then nothing
        else if operand16
        then put_shifted true m (shift 16 m.reg (bit_and value 0xffff) count)
        else put_shifted false m (shift 32 m.reg value count)

  -- 0x0F 0xA4 (`to_left`) and 0x0F 0xAC
  unfoldable pub shift_double : Bool → Exec F (Unit {0})
  shift_double to_left = do
    m ← decode_mod_rm
    given ← fetch8
    let count = bit_and given 31
    if count == 0 then nothing else (do
      dest ← get_rm m
      src ← get_reg m.reg
      let result =
          if to_left
          then bit_or (shl32 dest count) (shr src (32 - count))
          else bit_or (shr dest count) (shl32 src (32 - count))
      let cf = if to_left then has dest (2 ^ (32 - count)) else has dest (2 ^ (count - 1))
      let of = count == 1 && not (bit_at dest 31 == bit_at result 31)
      put_rm m result
      flags_by (λ e. set_shift_flags e result cf of))
