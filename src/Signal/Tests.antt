-- ===== src/Signal/Tests.antt =====
-- A delivery and a return on a small guest, which is the witness of the round trip.
use ish_port_go.Prelude.{
  ℕ, zero, suc, ◌+◌, ◌*◌, ◌^◌, ◌≤◌, ◌<◌, ◌≡◌, refl, Bool, true, false, not, [], ◌∷◌, arith,
  replicate, ok, err, bad_signal, inr, ◌==◌,
}
use ish_port_go.AddressSpace.{AddressSpace, prot_read}
use ish_port_go.Memory.{Memory, check, check_access, write32, copy_to, to_bytes}
use ish_port_go.Cpu.{Cpu, new_cpu}
use ish_port_go.Signal.{
  SignalAction, frame_base, float_words, frame_words, write_words, handler_mask, enter_handler,
  deliver_signal, rt_sigreturn, sa_sig_info,
}
use ish_port_go.Signal.Frame.{IsReadable}
use ish_port_go.Signal.Return.{IsCpu, rt_sigreturn-deliver_signal}

-- Two floating-point numbers, 0.0 and 1.0, with their bits.
abbrev float_bits : Bool → ℕ
float_bits false = 0
float_bits true = 0x3ff0_0000_0000_0000

abbrev from_bits : ℕ → Bool
from_bits n = not (n == 0)

abbrev nowhere : AddressSpace
nowhere = record { mappings = []; max = 256; next_hint = 0 }

abbrev plain : Memory
plain = record { bytes = replicate 256 0; protected = false; space = nowhere }

abbrev interrupted : Cpu Bool
interrupted = record (new_cpu false plain) {
  regs = 1 ∷ 2 ∷ 3 ∷ 4 ∷ 250 ∷ 6 ∷ 7 ∷ 8 ∷ [];
  eip = 0x8048000;
  fpu = true ∷ replicate 7 false;
  fpu_count = 1;
}

abbrev action : SignalAction
action = record { handler = 0x8049000; restorer = 0x804a000; flags = 0; mask = 0x100 }

abbrev delivered : Cpu Bool
delivered = (deliver_signal float_bits 1 interrupted 10 action).2

-- The handler has changed some registers and returned to the restorer, which pops one word.
abbrev returning : Cpu Bool
returning = record delivered { regs = 9 ∷ 9 ∷ 9 ∷ 9 ∷ 52 ∷ 9 ∷ 9 ∷ 9 ∷ []; eip = 0x804a002 }

float_law : (x : Bool) → from_bits (float_bits x) ≡ x
float_law false = refl
float_law true = refl

float_bits-lt : (x : Bool) → float_bits x < 2 ^ 64
float_bits-lt false = omega arith
float_bits-lt true = omega arith

interrupted-IsCpu : IsCpu interrupted
unfolding new_cpu
interrupted-IsCpu = omega arith

plain_check : (b : ℕ) → b + 4 ≤ 256 → check_access plain b 4 prot_read ≡ ok tt
unfolding check_access check
plain_check b h = ground arith

plain-IsReadable :
    (base offset n : ℕ) → base + offset + 4 * n ≤ 256 → IsReadable plain base offset n
plain-IsReadable base offset zero h = tt
plain-IsReadable base offset (suc n) h =
    (plain_check (base + offset) (omega arith), plain-IsReadable base (offset + 4) n (omega arith))

rt_sigreturn-deliver_signal_example :
    rt_sigreturn from_bits returning
    ≡ ok (
      1,
      record returning {
        regs = interrupted.regs;
        eip = interrupted.eip;
        eflags = interrupted.eflags;
        fs_base = interrupted.fs_base;
        gs_base = interrupted.gs_base;
        fs_selector = interrupted.fs_selector;
        gs_selector = interrupted.gs_selector;
        fpu = interrupted.fpu;
        fpu_top = interrupted.fpu_top;
        fpu_count = interrupted.fpu_count;
        fpu_status = interrupted.fpu_status;
        fpu_control = interrupted.fpu_control;
        halted = false;
      },
    )
unfolding new_cpu deliver_signal enter_handler write_words frame_words float_words frame_base
    write32 check_access check copy_to to_bytes
rt_sigreturn-deliver_signal_example =
    rt_sigreturn-deliver_signal float_bits from_bits float_law float_bits-lt 1 interrupted returning
      10 action (handler_mask 1 10 action) delivered interrupted-IsCpu (omega arith) (omega arith)
      refl (plain-IsReadable 48 0 42 (omega arith)) (λ b p q. refl) (inr refl)

deliver-sig_info :
    deliver_signal float_bits 1 interrupted 10 (record action { flags = sa_sig_info })
    ≡ (err bad_signal, 1, interrupted)
unfolding deliver_signal
deliver-sig_info = refl
