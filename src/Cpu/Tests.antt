-- ===== src/Cpu/Tests.antt =====
-- A run of the stack.
use ish_port_go.Prelude.{◌≡◌, refl, false, [], replicate, err, stack_underflow, set}
use ish_port_go.AddressSpace.{AddressSpace}
use ish_port_go.Memory.{Memory}
use ish_port_go.Cpu.{Cpu, new_cpu, push}

abbrev nowhere : AddressSpace
nowhere = record { mappings = []; max = 32; next_hint = 0 }

abbrev plain : Memory
plain = record { bytes = replicate 32 0; protected = false; space = nowhere }

-- ESP at 16, and x87 registers that hold nothing.
abbrev start : Cpu (Unit {0})
start = record (new_cpu tt plain) { regs = set (replicate 8 0) 4 16 }

push-underflow : push (new_cpu tt plain) 1 ≡ (err stack_underflow, new_cpu tt plain)
unfolding new_cpu push
push-underflow = refl
