-- ===== src/Cpu/Step/Bits.antt =====
-- internal/i386/cpu.go, case 0x0F of `Step`: single bits, bit scans, CMPXCHG, IMUL, MOVZX and MOVSX,
-- SETcc and BSWAP.
pub mod Scan
use ish_port_go.Prelude.{
  ℕ, zero, suc, ◌+◌, ◌-◌, ◌*◌, ◌/◌, ◌%◌, ◌^◌, Bool, true, false, ◌&&◌, ◌||◌, not, ◌==◌, ltb, leb,
  if◌then◌else◌, bit_and, bit_or, bit_xor, and_not, add32, sub32, u8, sign_extend8, has,
  unsupported,
}
use ish_port_go.Cpu.Flags.{set_sub_flags, set_logic_flags, condition, flag_cf, flag_zf}
use ish_port_go.Cpu.Operand.{ModRm, fetch8, decode_mod_rm, bool_bit}
use ish_port_go.Cpu.Exec.{
  Exec, give, raise, ◌>>=◌, ◌>>◌, nothing, get_reg, put_reg, get_eflags, flags_by, get_segment_base,
  load32, store32, get_rm, get_rm8, get_rm16, put_rm, put_rm8,
}
use ish_port_go.Cpu.Step.Move.{eax}

-- Four bytes in the other order.
abbrev pub reverse_bytes : ℕ → ℕ
reverse_bytes v =
    u8 v * 2 ^ 24 + u8 (v / 2 ^ 8) * 2 ^ 16 + u8 (v / 2 ^ 16) * 2 ^ 8 + u8 (v / 2 ^ 24)

-- uint32(wordOffset * 4) for the signed index of a bit; the quotient rounds to zero
abbrev pub word_offset : ℕ → ℕ
word_offset index =
    if ltb index (2 ^ 31) then index / 32 * 4 else sub32 0 ((2 ^ 32 - index) / 32 * 4)

-- The word after BTS, BTR or BTC, by the operation 5, 6 or 7; BT is 4.
abbrev pub change_bit : ℕ → ℕ → ℕ → ℕ
change_bit op value bit =
    if op == 5
    then bit_or value (2 ^ bit)
    else if op == 6
    then and_not value (2 ^ bit)
    else if op == 7
    then bit_xor value (2 ^ bit)
    else value

abbrev pub copy_bit : ℕ → ℕ → ℕ → ℕ
copy_bit value bit e = if has value (2 ^ bit) then bit_or e flag_cf else and_not e flag_cf

-- The loops of BSF and BSR; a word has 32 bits.
unfoldable pub scan_up : ℕ → ℕ → ℕ → ℕ
scan_up zero value index = index
scan_up (suc fuel) value index =
    let rest = scan_up fuel (value / 2) (index + 1) in if bit_and value 1 == 0 then rest else index

unfoldable pub scan_down : ℕ → ℕ → ℕ
scan_down value zero = 0
scan_down value (suc index) =
    let rest = scan_down value index in if has value (2 ^ suc index) then suc index else rest

unfoldable pub bit_scan : Bool → ℕ → ℕ
unfolding scan_up scan_down
bit_scan forward value = if forward then scan_up 32 value 0 else scan_down value 31

module _ {F : Type 0} where
  -- 0x90-0x9F
  unfoldable pub setcc : ℕ → Exec F (Unit {0})
  setcc cc_code = do m ← decode_mod_rm; e ← get_eflags; put_rm8 m (bool_bit (condition e cc_code))

  -- 0xC8-0xCF
  unfoldable pub bswap : ℕ → Exec F (Unit {0})
  bswap r = do v ← get_reg r; put_reg r (reverse_bytes v)

  -- 0xBA
  unfoldable pub bit_imm8 : Exec F (Unit {0})
  bit_imm8 = do
    m ← decode_mod_rm
    imm ← fetch8
    if ltb m.reg 4 || ltb 7 m.reg then raise unsupported else (do
      value ← get_rm m
      let bit = bit_and imm 31
      flags_by (copy_bit value bit)
      if m.reg == 4 then nothing else put_rm m (change_bit m.reg value bit))

  -- 0xA3, 0xAB, 0xB3, 0xBB as the operations 4 to 7; an index may name a word apart from the operand
  unfoldable pub bit_reg : ℕ → Exec F (Unit {0})
  bit_reg op = do
    m ← decode_mod_rm
    index ← get_reg m.reg
    base ← get_segment_base
    let bit = bit_and index 31
    let addr = add32 (add32 m.addr (word_offset index)) base
    value ← (if m.is_reg then get_rm m else load32 addr)
    flags_by (copy_bit value bit)
    if op == 4
        then nothing
        else if m.is_reg
        then put_rm m (change_bit op value bit)
        else store32 addr (change_bit op value bit)

  -- 0xBC, 0xBD
  unfoldable pub bit_scan_rm : Bool → Exec F (Unit {0})
  bit_scan_rm forward = do
    m ← decode_mod_rm
    value ← get_rm m
    if value == 0
        then flags_by (λ e. bit_or e flag_zf)
        else (do put_reg m.reg (bit_scan forward value); flags_by (λ e. and_not e flag_zf))

  -- 0xB1
  unfoldable pub cmpxchg : Exec F (Unit {0})
  cmpxchg = do
    m ← decode_mod_rm
    dest ← get_rm m
    expected ← get_reg eax
    flags_by (λ e. set_sub_flags e expected dest (sub32 expected dest))
    if expected == dest
        then (do flags_by (λ e. bit_or e flag_zf); v ← get_reg m.reg; put_rm m v)
        else (do flags_by (λ e. and_not e flag_zf); put_reg eax dest)

  -- 0xAF
  unfoldable pub imul_r_rm : Exec F (Unit {0})
  imul_r_rm = do
    m ← decode_mod_rm
    value ← get_rm m
    old ← get_reg m.reg
    put_reg m.reg ((old * value) % 2 ^ 32)
    flags_by (λ e. set_logic_flags e ((old * value) % 2 ^ 32))

  -- 0xB6, 0xBE and 0xB7, 0xBF
  unfoldable pub mov_extend8 : Bool → Exec F (Unit {0})
  mov_extend8 is_signed = do
    m ← decode_mod_rm
    v ← get_rm8 m
    put_reg m.reg (if is_signed then sign_extend8 v else v)

  unfoldable pub mov_extend16 : Bool → Exec F (Unit {0})
  mov_extend16 is_signed = do
    m ← decode_mod_rm
    v ← get_rm16 m
    put_reg m.reg (if is_signed && leb 0x8000 v then v + 0xffff_0000 else v)
