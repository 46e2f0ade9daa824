-- ===== src/Cpu/Flags.antt =====
-- The functions of internal/i386/cpu.go that set the arithmetic flags of `EFLAGS`, and `condition`
-- that reads them. A method of `CPU` that writes `EFLAGS` alone is a function of its old value.
pub mod Bits
pub mod Compare
pub mod Carry
mod Tests
use ish_port_go.Prelude.{
  ℕ, zero, suc, ◌+◌, ◌-◌, ◌*◌, ◌/◌, ◌%◌, ◌^◌, Bool, true, false, ◌&&◌, ◌||◌, not, ltb, leb, ◌==◌,
  if◌then◌else◌, bit_and, bit_or, bit_xor, and_not, not32, has, nonzero, add32, sub32, u32, u8,
}

abbrev pub flag_cf : ℕ
flag_cf = 0x001

abbrev pub flag_pf : ℕ
flag_pf = 0x004

abbrev pub flag_zf : ℕ
flag_zf = 0x040

abbrev pub flag_sf : ℕ
flag_sf = 0x080

abbrev pub flag_if : ℕ
flag_if = 0x200

abbrev pub flag_df : ℕ
flag_df = 0x400

abbrev pub flag_of : ℕ
flag_of = 0x800

-- `for b != 0 { count++; b &= b - 1 }`: each round clears a bit of the byte, so eight are enough.
unfoldable pub parity_loop : ℕ → ℕ → ℕ → ℕ
parity_loop zero b count = count
parity_loop (suc fuel) b count =
    let rest = parity_loop fuel (bit_and b (b - 1)) (count + 1) in if b == 0 then count else rest

unfoldable pub even_byte : ℕ → Bool
unfolding parity_loop
even_byte b = parity_loop 8 b 0 % 2 == 0

unfoldable pub even_parity : ℕ → Bool
even_parity value = even_byte (u8 value)

-- if test { c.EFLAGS |= flag }
unfoldable pub raise_if : Bool → ℕ → ℕ → ℕ
raise_if test flag e = if test then bit_or e flag else e

-- FlagCF | FlagPF | FlagOF | FlagZF | FlagSF
abbrev pub arithmetic_flags : ℕ
arithmetic_flags = 0x8c5

-- What every setter ends with: the five flags cleared, then raised one by one.
unfoldable pub write_flags : ℕ → Bool → Bool → Bool → Bool → Bool → ℕ
unfolding raise_if
write_flags e cf zf sf of pf = raise_if pf flag_pf (
    raise_if of flag_of (
      raise_if sf flag_sf (raise_if zf flag_zf (raise_if cf flag_cf (and_not e arithmetic_flags)))))

unfoldable pub set_add_flags : ℕ → ℕ → ℕ → ℕ → ℕ
set_add_flags e a b result =
    write_flags e (ltb result a) (result == 0) (has result 0x8000_0000)
      (has (bit_and (not32 (bit_xor a b)) (bit_xor a result)) 0x8000_0000) (even_parity result)

unfoldable pub set_sub_flags : ℕ → ℕ → ℕ → ℕ → ℕ
set_sub_flags e a b result =
    write_flags e (ltb a b) (result == 0) (has result 0x8000_0000)
      (has (bit_and (bit_xor a b) (bit_xor a result)) 0x8000_0000) (even_parity result)

unfoldable pub set_logic_flags : ℕ → ℕ → ℕ
set_logic_flags e result =
    write_flags e false (result == 0) (has result 0x8000_0000) false (even_parity result)

-- mask := 1<<bits - 1; sign := 1 << (bits-1), for `bits` from 1 to 32
abbrev pub mask : ℕ → ℕ
mask bits = 2 ^ bits - 1

abbrev pub sign : ℕ → ℕ
sign bits = 2 ^ (bits - 1)

unfoldable pub set_logic_flags_n : ℕ → ℕ → ℕ → ℕ
set_logic_flags_n e result bits =
    let res = bit_and result (mask bits) in
    write_flags e false (res == 0) (has res (sign bits)) false (even_parity res)

unfoldable pub set_add_flags_n : ℕ → ℕ → ℕ → ℕ → ℕ → ℕ
set_add_flags_n e a b result bits =
    let sum = bit_and a (mask bits) + bit_and b (mask bits) in
    let res = bit_and sum (mask bits) in
    write_flags e (ltb (mask bits) sum) (res == 0) (has res (sign bits))
      (has (bit_and (not32 (bit_xor a b)) (bit_xor a res)) (sign bits)) (even_parity res)

unfoldable pub set_sub_flags_n : ℕ → ℕ → ℕ → ℕ → ℕ → ℕ
set_sub_flags_n e a b result bits =
    let res = bit_and result (mask bits) in
    write_flags e (ltb (bit_and a (mask bits)) (bit_and b (mask bits))) (res == 0)
      (has res (sign bits)) (has (bit_and (bit_xor a b) (bit_xor a res)) (sign bits))
      (even_parity res)

unfoldable pub set_adc_flags_n : ℕ → ℕ → ℕ → ℕ → ℕ → ℕ → ℕ
set_adc_flags_n e a b carry result bits =
    let sum = bit_and a (mask bits) + bit_and b (mask bits) + carry in
    let res = bit_and sum (mask bits) in
    write_flags e (ltb (mask bits) sum) (res == 0) (has res (sign bits))
      (has (bit_and (not32 (bit_xor a b)) (bit_xor a res)) (sign bits)
        || (nonzero carry
            && not (has (bit_xor a b) (sign bits))
            && has (bit_xor a res) (sign bits)))
      (even_parity res)

unfoldable pub set_sbb_flags_n : ℕ → ℕ → ℕ → ℕ → ℕ → ℕ → ℕ
set_sbb_flags_n e a b borrow result bits =
    let subtrahend = add32 b borrow in
    let res = bit_and result (mask bits) in
    write_flags e (ltb (bit_and a (mask bits)) subtrahend) (res == 0) (has res (sign bits))
      (has (bit_and (bit_xor a subtrahend) (bit_xor a res)) (sign bits)) (even_parity res)

-- `setShiftFlagsN` and `setShiftFlags`; they raise OF before ZF and SF, which is no difference.
unfoldable pub set_shift_flags_n : ℕ → ℕ → Bool → Bool → ℕ → ℕ
set_shift_flags_n e result cf of bits =
    let res = bit_and result (mask bits) in
    write_flags e cf (res == 0) (has res (sign bits)) of (even_parity res)

unfoldable pub set_shift_flags : ℕ → ℕ → Bool → Bool → ℕ
set_shift_flags e result cf of =
    write_flags e cf (result == 0) (has result 0x8000_0000) of (even_parity result)

-- The cases are tried in the order of the numbers; each number has one case in the source.
unfoldable pub condition : ℕ → ℕ → Bool
condition e op =
    let zf = has e flag_zf in
    let cf = has e flag_cf in
    let sf = has e flag_sf in
    let of = has e flag_of in
    let pf = has e flag_pf in
    let differ = if sf then not of else of in
    if op == 0x0
    then of
    else if op == 0x1
    then not of
    else if op == 0x2
    then cf
    else if op == 0x3
    then not cf
    else if op == 0x4
    then zf
    else if op == 0x5
    then not zf
    else if op == 0x6
    then cf || zf
    else if op == 0x7
    then not cf && not zf
    else if op == 0x8
    then sf
    else if op == 0x9
    then not sf
    else if op == 0xa
    then pf
    else if op == 0xb
    then not pf
    else if op == 0xc
    then differ
    else if op == 0xd
    then not differ
    else if op == 0xe
    then zf || differ
    else if op == 0xf
    then not zf && not differ
    else false
