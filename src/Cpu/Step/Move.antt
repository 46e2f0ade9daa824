-- ===== src/Cpu/Step/Move.antt =====
-- internal/i386/cpu.go, cases of `Step`: moves, exchanges, the stack and jumps.
pub mod Calls
use ish_port_go.Prelude.{
  ℕ, ◌+◌, ◌-◌, ◌*◌, ◌/◌, ◌%◌, ◌^◌, Bool, true, false, ◌&&◌, ◌||◌, not, ◌==◌, ltb, leb,
  if◌then◌else◌, bit_and, bit_or, add32, u16, sign_extend8, has, unsupported,
}
use ish_port_go.Cpu.{esp}
use ish_port_go.Cpu.Flags.{condition}
use ish_port_go.Cpu.Operand.{ModRm, fetch8, fetch16, fetch32, decode_mod_rm}
use ish_port_go.Cpu.Exec.{
  Exec, give, raise, ◌>>=◌, ◌>>◌, nothing, get_reg, put_reg, get_reg8, put_reg8, get_eip, jump,
  get_eflags, get_segment_base, put_fs, put_gs, load8, load32, store8, store32, get_rm, get_rm8,
  get_rm16, put_rm, put_rm8, put_rm16, push_word, pop_word,
}

abbrev pub eax : ℕ
eax = 0

abbrev pub ecx : ℕ
ecx = 1

abbrev pub edx : ℕ
edx = 2

abbrev pub ebp : ℕ
ebp = 5

abbrev pub esi : ℕ
esi = 6

abbrev pub edi : ℕ
edi = 7

-- (old & 0xffff0000) | uint32(value)
abbrev pub low16 : ℕ → ℕ → ℕ
low16 old value = bit_or (bit_and old 0xffff_0000) value

module _ {F : Type 0} where
  -- 0xB0-0xB7
  unfoldable pub mov_r8_imm8 : ℕ → Exec F (Unit {0})
  mov_r8_imm8 r = do v ← fetch8; put_reg8 r v

  -- 0xB8-0xBF
  unfoldable pub mov_r32_imm32 : ℕ → Exec F (Unit {0})
  mov_r32_imm32 r = do v ← fetch32; put_reg r v

  -- 0x50-0x57, 0x58-0x5F, 0x68, 0x6A
  unfoldable pub push_r32 : ℕ → Exec F (Unit {0})
  push_r32 r = do v ← get_reg r; push_word v

  unfoldable pub pop_r32 : ℕ → Exec F (Unit {0})
  pop_r32 r = do v ← pop_word; put_reg r v

  unfoldable pub push_imm32 : Exec F (Unit {0})
  push_imm32 = do v ← fetch32; push_word v

  unfoldable pub push_imm8 : Exec F (Unit {0})
  push_imm8 = do v ← fetch8; push_word (sign_extend8 v)

  -- 0x99
  unfoldable pub cdq : Exec F (Unit {0})
  cdq = do a ← get_reg eax; put_reg edx (if has a 0x8000_0000 then 0xffff_ffff else 0)

  -- 0x91-0x97
  unfoldable pub xchg_eax : ℕ → Exec F (Unit {0})
  xchg_eax r = do v ← get_reg r; a ← get_reg eax; put_reg eax v; put_reg r a

  -- 0xC3, 0xC2, 0xC9
  unfoldable pub ret_near : Exec F (Unit {0})
  ret_near = do v ← pop_word; jump v

  unfoldable pub ret_imm16 : Exec F (Unit {0})
  ret_imm16 = do
    v ← pop_word
    adjust ← fetch16
    top ← get_reg esp
    put_reg esp (add32 top adjust)
    jump v

  unfoldable pub leave : Exec F (Unit {0})
  leave = do frame ← get_reg ebp; put_reg esp frame; v ← pop_word; put_reg ebp v

  -- EIP moved on by a displacement
  unfoldable pub jump_by : ℕ → Exec F (Unit {0})
  jump_by rel = do at ← get_eip; jump (add32 at rel)

  -- 0xE8, 0xE9, 0xEB
  unfoldable pub call_rel32 : Exec F (Unit {0})
  call_rel32 = do rel ← fetch32; at ← get_eip; push_word at; jump_by rel

  unfoldable pub jmp_rel32 : Exec F (Unit {0})
  jmp_rel32 = do rel ← fetch32; jump_by rel

  unfoldable pub jmp_rel8 : Exec F (Unit {0})
  jmp_rel8 = do rel ← fetch8; jump_by (sign_extend8 rel)

  -- 0x70-0x7F, and 0x0F 0x80-0x8F
  unfoldable pub jcc_rel8 : ℕ → Exec F (Unit {0})
  jcc_rel8 cc_code = do
    rel ← fetch8
    e ← get_eflags
    if condition e cc_code then jump_by (sign_extend8 rel) else nothing

  unfoldable pub jcc_rel32 : ℕ → Exec F (Unit {0})
  jcc_rel32 cc_code = do
    rel ← fetch32
    e ← get_eflags
    if condition e cc_code then jump_by rel else nothing

  -- 0xC6, 0xC7
  unfoldable pub mov_rm8_imm8 : Exec F (Unit {0})
  mov_rm8_imm8 = do
    m ← decode_mod_rm
    if m.reg == 0 then (do value ← fetch8; put_rm8 m value) else raise unsupported

  unfoldable pub mov_rm_imm : Bool → Exec F (Unit {0})
  mov_rm_imm operand16 = do
    m ← decode_mod_rm
    if not (m.reg == 0)
        then raise unsupported
        else if operand16
        then (do value ← fetch16; put_rm16 m value)
        else (do value ← fetch32; put_rm m value)

  -- 0x87
  unfoldable pub xchg_rm : Exec F (Unit {0})
  xchg_rm = do
    m ← decode_mod_rm
    value ← get_rm m
    old ← get_reg m.reg
    put_reg m.reg value
    put_rm m old

  -- 0xA0-0xA3
  unfoldable pub mov_moffs : ℕ → Exec F (Unit {0})
  mov_moffs op = do
    offset ← fetch32
    base ← get_segment_base
    let addr = add32 offset base
    if op == 0xa0
        then (do value ← load8 addr; put_reg8 0 value)
        else if op == 0xa1
        then (do value ← load32 addr; put_reg eax value)
        else if op == 0xa2
        then (do value ← get_reg8 0; store8 addr value)
        else (do value ← get_reg eax; store32 addr value)

  -- 0x8E
  unfoldable pub mov_sreg : Exec F (Unit {0})
  mov_sreg = do
    m ← decode_mod_rm
    value ← get_rm16 m
    if m.reg == 2 || m.reg == 3
        then nothing
        else if m.reg == 4
        then put_fs value
        else if m.reg == 5
        then put_gs value
        else raise unsupported

  -- 0x88, 0x8A
  unfoldable pub mov_rm8_r8 : Exec F (Unit {0})
  mov_rm8_r8 = do m ← decode_mod_rm; value ← get_reg8 m.reg; put_rm8 m value

  unfoldable pub mov_r8_rm8 : Exec F (Unit {0})
  mov_r8_rm8 = do m ← decode_mod_rm; value ← get_rm8 m; put_reg8 m.reg value

  -- 0x89, 0x8B, 0x8D
  unfoldable pub mov_rm_r : Bool → Exec F (Unit {0})
  mov_rm_r operand16 = do
    m ← decode_mod_rm
    value ← get_reg m.reg
    if operand16 then put_rm16 m (u16 value) else put_rm m value

  unfoldable pub mov_r_rm : Bool → Exec F (Unit {0})
  mov_r_rm operand16 = do
    m ← decode_mod_rm
    if operand16
        then (do value ← get_rm16 m; old ← get_reg m.reg; put_reg m.reg (low16 old value))
        else (do value ← get_rm m; put_reg m.reg value)

  unfoldable pub lea : Exec F (Unit {0})
  lea = do m ← decode_mod_rm; put_reg m.reg (if m.is_reg then m.reg_val else m.addr)
