-- ===== src/Cpu/Step/Tests.antt =====
-- Runs of `Step` on a small guest, and the witnesses of its properties.
use ish_port_go.Prelude.{
  ℕ, ◌+◌, ◌*◌, ◌^◌, ◌≤◌, ◌<◌, ◌≡◌, refl, true, false, List, [], ◌∷◌, suc, arith, set, replicate,
  none, ok, err, out_of_fuel, unsupported,
}
use ish_port_go.AddressSpace.{AddressSpace, check_range, check_from, mapping_at_in}
use ish_port_go.Memory
use ish_port_go.Memory.{Memory, check, check_access, write8, write32, copy_to, to_bytes}
use ish_port_go.Cpu.{Cpu, new_cpu, push, pushed}
use ish_port_go.Cpu.Operand.{fetch8, fetch32, byte_reg}
use ish_port_go.Cpu.Exec.{
  Exec, raise, ◌>>=◌, ◌>>◌, resume, give, get_reg, put_reg, get_reg8, get_eflags, get_eip, jump,
  store8, stored, push_word,
}
use ish_port_go.Cpu.Exec.Confines.{Confines-raise}
use ish_port_go.Cpu.Safety.{Stepped, step-Confines}
use ish_port_go.Cpu.Step.{step, active_step, execute}
use ish_port_go.Cpu.Step.Cases.{simple_step}
use ish_port_go.Cpu.Step.Move.{call_rel32, ret_near, jump_by, push_r32}
use ish_port_go.Cpu.Step.Move.Calls.{ret_near-call_rel32}
use ish_port_go.Cpu.Step.Bits.{bit_scan}
use ish_port_go.Cpu.Step.Bits.Scan.{bit_scan_lem}
use ish_port_go.Cpu.Step.Unary.{mul_eax, div_eax}
use ish_port_go.Cpu.Step.Unary.Divide.{div_eax-mul_eax}
use ish_port_go.Cpu.Step.Strings.{stos, stos_round, times, advance, repeat_count, string_step}
use ish_port_go.Cpu.Step.Strings.Fill.{stos-fill}
use ish_port_go.Cpu.Step.Prefix.{
  read_opcode, prefix_loop, is_prefix, choose_segment, begin, note_opcode, memory_size, finish,
}
use ish_port_go.Cpu.Step.Prefix.Ends.{read_opcode-Stops}

-- Eight bytes of text that may be read and run, and 16 that may be written.
abbrev layout : AddressSpace
layout = record {
  mappings =
      record { start = 0; end = 8; prot = 5; name = "text" }
      ∷ record { start = 8; end = 24; prot = 3; name = "stack" }
      ∷ [];
  max = 32;
  next_hint = 24;
}

-- The text: PUSH EAX with two prefixes, and the displacement of a CALL.
abbrev guest : List ℕ → Memory
guest rest = record {
  bytes = 0x66 ∷ 0xf3 ∷ 0x50 ∷ 1 ∷ 0 ∷ 0 ∷ 0 ∷ 0 ∷ rest;
  protected = true;
  space = layout;
}

-- EAX 0x41, ECX 3, EDI 10, ESP 16
abbrev regs : List ℕ
regs = 0x41 ∷ 3 ∷ 9 ∷ 0 ∷ 16 ∷ 0 ∷ 0 ∷ 10 ∷ []

abbrev start : Cpu (Unit {0})
start = record (new_cpu tt (guest (replicate 24 0))) { regs = regs }

abbrev no_x87 : ℕ → Exec (Unit {0}) (Unit {0})
no_x87 op = raise unsupported

step-Confines_example : Stepped start.halted start (step no_x87 none start)
unfolding new_cpu
step-Confines_example =
    step-Confines no_x87 (λ op. Confines-raise unsupported) none tt start
      (record { on = refl; valid = omega arith })

read_opcode-Stops_example : ¬ ((read_opcode 0 start).0 ≡ err out_of_fuel)
unfolding new_cpu
read_opcode-Stops_example = read_opcode-Stops 0 start (omega arith)

abbrev forty : ℕ
forty = 40

bit_scan_lem_example :
    ((o : ℕ) × (forty ≡ (2 * o + 1) * 2 ^ bit_scan true forty))
    × (2 ^ bit_scan false forty ≤ forty)
    × (forty < 2 ^ suc (bit_scan false forty))
bit_scan_lem_example = bit_scan_lem forty (omega arith) (omega arith)

div_eax-mul_eax_example :
    (mul_eax false 7 >> div_eax false 7) start
    ≡ (ok tt, record start { regs = 0x41 ∷ 3 ∷ 0 ∷ 0 ∷ 16 ∷ 0 ∷ 0 ∷ 10 ∷ [] })
div_eax-mul_eax_example = div_eax-mul_eax start 7 refl (omega arith) (omega arith)

abbrev filled_guest : Cpu (Unit {0})
filled_guest = record start {
  mem = guest (0 ∷ 0 ∷ 0x41 ∷ 0x41 ∷ 0x41 ∷ replicate 19 0);
  regs = 0x41 ∷ 0 ∷ 9 ∷ 0 ∷ 16 ∷ 0 ∷ 0 ∷ 13 ∷ [];
}

stos-fill_example : filled_guest ≡ record start {
  mem = record (guest (replicate 24 0)) {
    bytes = copy_to (guest (replicate 24 0)).bytes 10 (0x41 ∷ 0x41 ∷ 0x41 ∷ []);
  };
  regs = set (set regs 1 0) 7 (10 + 3);
}
unfolding stos repeat_count string_step times stos_round advance ◌>>=◌ resume give get_reg put_reg
    get_reg8 get_eflags store8 stored write8 check_access check check_range check_from mapping_at_in
    byte_reg copy_to new_cpu
stos-fill_example = stos-fill start filled_guest refl (omega arith) refl refl

abbrev caller : Cpu (Unit {0})
caller = record start { eip = 3 }

abbrev called : Cpu (Unit {0})
called = record start {
  eip = 8;
  mem = guest (0 ∷ 0 ∷ 0 ∷ 0 ∷ 7 ∷ 0 ∷ 0 ∷ 0 ∷ replicate 16 0);
  regs = 0x41 ∷ 3 ∷ 9 ∷ 0 ∷ 12 ∷ 0 ∷ 0 ∷ 10 ∷ [];
}

ret_near-call_rel32_example :
    ret_near (record called { eip = 20 }) ≡ (ok tt, record (fetch32 caller).1 { mem = called.mem })
unfolding call_rel32 jump_by ◌>>=◌ resume get_eip jump push_word push pushed fetch32 fetch8
    Memory.fetch8 write32 check_access check check_range check_from mapping_at_in to_bytes copy_to
    new_cpu
ret_near-call_rel32_example = ret_near-call_rel32 caller called 20 refl (omega arith) refl refl

-- A prefixed push of EAX, with EIP after it and the step counted.
step_push : step no_x87 none start ≡ (
  ok tt,
  record start {
    eip = 3;
    steps = 1;
    last_opcode = 0x50;
    mem = guest (0 ∷ 0 ∷ 0 ∷ 0 ∷ 0x41 ∷ 0 ∷ 0 ∷ 0 ∷ replicate 16 0);
    regs = 0x41 ∷ 3 ∷ 9 ∷ 0 ∷ 12 ∷ 0 ∷ 0 ∷ 10 ∷ [];
  },
)
unfolding step active_step begin read_opcode memory_size prefix_loop is_prefix choose_segment
    note_opcode execute simple_step push_r32 finish ◌>>=◌ resume give get_reg push_word push pushed
    fetch8 Memory.fetch8 write32 check_access check check_range check_from mapping_at_in to_bytes
    copy_to new_cpu
step_push = refl
