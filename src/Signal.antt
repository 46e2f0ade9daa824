-- ===== src/Signal.antt =====
-- internal/kernel/signal.go: the frame that `DeliverSignal` builds on the guest's stack, and
-- `rt_sigreturn`. `math.Float64bits` and `math.Float64frombits` are parameters. The tests for a nil
-- CPU or memory have no counterpart.
pub mod Pending
pub mod Frame
pub mod Return
mod Tests
use ish_port_go.Prelude.{
  ℕ, zero, suc, ◌+◌, ◌-◌, ◌*◌, ◌/◌, ◌^◌, Bool, true, false, ◌&&◌, ◌||◌, Option, none, some, List,
  [], ◌∷◌, ◌++◌, ltb, ◌==◌, if◌then◌else◌, get_or, set, Result, ok, err, ◌>>=◌, ◌>>◌, fail_if,
  bad_signal, stack_underflow, no_frame, bad_saved_state, memory_fault, u32, u16, u8, add32, sub32,
  and_not, has, bit_or, not,
}
use ish_port_go.Memory.{Memory, read32, write32}
use ish_port_go.Cpu.{Cpu, esp}

abbrev pub signal_frame_magic : ℕ
signal_frame_magic = 0x49534847

abbrev pub signal_frame_version : ℕ
signal_frame_version = 1

abbrev pub signal_frame_size : ℕ
signal_frame_size = 176

abbrev pub sa_sig_info : ℕ
sa_sig_info = 0x0000_0004

abbrev pub sa_nodefer : ℕ
sa_nodefer = 0x4000_0000

pub record SignalAction : Type 0 where
  pub handler : ℕ
  pub restorer : ℕ
  pub flags : ℕ
  pub mask : ℕ

-- (oldESP - signalFrameSize - 16) &^ 15
unfoldable pub frame_base : ℕ → ℕ
frame_base old_esp = and_not (sub32 (sub32 old_esp signal_frame_size) 16) 15

-- The loop over `cpu.FPU`: the low and the high half of each register.
unfoldable pub float_words : {F : Type 0} → (F → ℕ) → List F → List ℕ
float_words float_bits [] = []
float_words float_bits (x ∷ xs) =
    u32 (float_bits x) ∷ u32 (float_bits x / 2 ^ 32) ∷ float_words float_bits xs

-- The values that are written, at the offsets 0, 4, 8 and so on.
unfoldable pub frame_words : {F : Type 0} → (F → ℕ) → ℕ → Cpu F → ℕ → SignalAction → List ℕ
unfolding float_words
frame_words float_bits signal_mask c signal action =
    action.restorer
    ∷ signal
    ∷ signal_frame_magic
    ∷ signal_frame_version
    ∷ signal
    ∷ c.eip
    ∷ c.eflags
    ∷ get_or c.regs esp 0
    ∷ u32 signal_mask
    ∷ u32 (signal_mask / 2 ^ 32)
    ∷ c.fs_base
    ∷ c.gs_base
    ∷ c.fs_selector
    ∷ c.gs_selector
    ∷ c.fpu_top
    ∷ c.fpu_count
    ∷ c.fpu_status
    ∷ c.fpu_control
    ∷ (c.regs ++ float_words float_bits c.fpu)

-- The writes in their order, from an offset on, up to the first that fails.
unfoldable pub write_words : Memory → ℕ → ℕ → List ℕ → Result (Unit {0}) × Memory
write_words m base offset [] = (ok tt, m)
write_words m base offset (v ∷ vs) = elim (write32 m (add32 base offset) v) [
  | err e ↦ (err e, m)
  | ok n ↦ write_words n base (offset + 4) vs
]

-- newMask
unfoldable pub handler_mask : ℕ → ℕ → SignalAction → ℕ
handler_mask signal_mask signal action =
    let wider = bit_or signal_mask action.mask in
    if has action.flags sa_nodefer then wider else bit_or wider (2 ^ (signal - 1))

-- What follows the writes: the mask and the CPU; a failure leaves what was written.
unfoldable pub enter_handler :
    {F : Type 0}
    → ℕ
    → Cpu F
    → ℕ
    → SignalAction
    → Result (Unit {0}) × Memory
    → Result (Unit {0}) × ℕ × Cpu F
enter_handler signal_mask c signal action (err e, m) = (err e, signal_mask, record c { mem = m })
enter_handler signal_mask c signal action (ok done, m) = (
  ok tt,
  handler_mask signal_mask signal action,
  record c {
    mem = m;
    regs = set c.regs esp (frame_base (get_or c.regs esp 0));
    eip = action.handler;
  },
)

unfoldable pub deliver_signal :
    {F : Type 0} → (F → ℕ) → ℕ → Cpu F → ℕ → SignalAction → Result (Unit {0}) × ℕ × Cpu F
deliver_signal float_bits signal_mask c signal action =
    let old_esp = get_or c.regs esp 0 in
    let base = frame_base old_esp in
    if signal == 0 || ltb 64 signal || action.handler == 0
    then (err bad_signal, signal_mask, c)
    else if has action.flags sa_sig_info
    then (err bad_signal, signal_mask, c)
    else if action.restorer == 0
    then (err bad_signal, signal_mask, c)
    else if ltb old_esp (signal_frame_size + 32)
    then (err stack_underflow, signal_mask, c)
    else if ltb (add32 base signal_frame_size) base
    then (err memory_fault, signal_mask, c)
    else enter_handler signal_mask c signal action
        (write_words c.mem base 0 (frame_words float_bits signal_mask c signal action))

abbrev pub reads_as : Result ℕ → ℕ → Bool
reads_as (ok v) expected = v == expected
reads_as (err e) expected = false

-- A frame is known by its magic number and its version.
unfoldable pub is_frame : Memory → ℕ → Bool
is_frame m base =
    reads_as (read32 m (add32 base 8)) signal_frame_magic
    && reads_as (read32 m (add32 base 12)) signal_frame_version

-- The first of ESP and, if that is possible, ESP - 4, at which there is a frame.
unfoldable pub find_frame : Memory → ℕ → Result ℕ
unfolding is_frame
find_frame m top =
    if is_frame m top
    then ok top
    else if not (ltb top 4) && is_frame m (top - 4)
    then ok (top - 4)
    else err no_frame

unfoldable pub read_words : Memory → ℕ → ℕ → ℕ → Result (List ℕ)
read_words m base offset zero = ok []
read_words m base offset (suc n) = do
  v ← read32 m (add32 base offset)
  vs ← read_words m base (offset + 4) n
  ok (v ∷ vs)

-- uint64(lo) | uint64(hi)<<32, of two 32-bit words, which share no digit
abbrev pub join64 : ℕ → ℕ → ℕ
join64 lo hi = lo + hi * 2 ^ 32

unfoldable pub join_floats : {F : Type 0} → (ℕ → F) → List ℕ → List F
join_floats from_bits (lo ∷ hi ∷ ws) = from_bits (join64 lo hi) ∷ join_floats from_bits ws
join_floats from_bits (w ∷ []) = []
join_floats from_bits [] = []

-- All reads come before the first change, so an error leaves the CPU and the mask as they were.
unfoldable pub rt_sigreturn : {F : Type 0} → (ℕ → F) → Cpu F → Result (ℕ × Cpu F)
rt_sigreturn from_bits c = do
  base ← find_frame c.mem (get_or c.regs esp 0)
  mask_lo ← read32 c.mem (add32 base 32)
  mask_hi ← read32 c.mem (add32 base 36)
  old_eip ← read32 c.mem (add32 base 20)
  old_eflags ← read32 c.mem (add32 base 24)
  old_esp ← read32 c.mem (add32 base 28)
  fail_if (old_esp == 0) bad_saved_state
  regs ← read_words c.mem base 72 8
  floats ← read_words c.mem base 104 16
  fs_base ← read32 c.mem (add32 base 40)
  gs_base ← read32 c.mem (add32 base 44)
  fs_selector ← read32 c.mem (add32 base 48)
  gs_selector ← read32 c.mem (add32 base 52)
  fpu_top ← read32 c.mem (add32 base 56)
  fpu_count ← read32 c.mem (add32 base 60)
  fpu_status ← read32 c.mem (add32 base 64)
  fpu_control ← read32 c.mem (add32 base 68)
  fail_if (ltb 7 fpu_top || ltb 8 fpu_count || ltb 0xffff fs_selector || ltb 0xffff gs_selector)
      bad_saved_state
  ok (
    join64 mask_lo mask_hi,
    record c {
      regs = set regs esp old_esp;
      eip = old_eip;
      eflags = old_eflags;
      fs_base = fs_base;
      gs_base = gs_base;
      fs_selector = u16 fs_selector;
      gs_selector = u16 gs_selector;
      fpu_top = u8 fpu_top;
      fpu_count = u8 fpu_count;
      fpu_status = u16 fpu_status;
      fpu_control = u16 fpu_control;
      fpu = join_floats from_bits floats;
      halted = false;
    },
  )
