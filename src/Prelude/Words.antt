-- ===== src/Prelude/Words.antt =====
-- `uint32` arithmetic on native numbers, with its wrap-around written out.
use Prim.Native.Nat.{ℕ, ◌+◌, ◌-◌, ◌%◌, ◌^◌, bit_and, bit_xor}
use mathlib.Core.Bool.{Bool, not}
use ish_port_go.Prelude.Tests.{◌==◌, ltb, if◌then◌else◌}

abbrev pub u8 : ℕ → ℕ
u8 n = n % 2 ^ 8

abbrev pub u16 : ℕ → ℕ
u16 n = n % 2 ^ 16

abbrev pub u32 : ℕ → ℕ
u32 n = n % 2 ^ 32

-- a + b
abbrev pub add32 : ℕ → ℕ → ℕ
add32 a b = (a + b) % 2 ^ 32

-- a - b, for b below 2 ^ 32
abbrev pub sub32 : ℕ → ℕ → ℕ
sub32 a b = (a + 2 ^ 32 - b) % 2 ^ 32

-- ^a
abbrev pub not32 : ℕ → ℕ
not32 a = bit_xor a 0xffff_ffff

-- a &^ b
abbrev pub and_not : ℕ → ℕ → ℕ
and_not a b = bit_and a (not32 b)

-- uint32(int32(int8(v)))
abbrev pub sign_extend8 : ℕ → ℕ
sign_extend8 v = if ltb v 0x80 then v else v + 0xffff_ff00

-- a != 0, a & b != 0
abbrev pub nonzero : ℕ → Bool
nonzero a = not (a == 0)

abbrev pub has : ℕ → ℕ → Bool
has a b = nonzero (bit_and a b)
