-- ===== src/Signal/Pending.antt =====
-- internal/kernel/syscall.go: the signals of a kernel: which are pending, which are blocked, and what
-- is done on each. The memory is that of the CPU that a system call is made on; a `Reply` stands for
-- what `ret` puts into EAX.
pub mod Lowest
mod Tests
use ish_port_go.Prelude.{
  ℕ, zero, suc, ◌+◌, ◌-◌, ◌*◌, ◌/◌, ◌%◌, ◌^◌, Bool, true, false, ◌&&◌, ◌||◌, not, ◌==◌, ltb,
  if◌then◌else◌, Option, none, some, Result, ok, err, ◌>>=◌, Error, memory_fault, bit_and, bit_or,
  bit_xor, has, add32,
}
use ish_port_go.Memory.{Memory, read32, write32}
use ish_port_go.Signal.{SignalAction}

pub record SignalState : Type 0 where
  pub mask : ℕ
  pub pending : ℕ
  pub actions : ℕ → SignalAction

-- a &^ b, of 64 bits
abbrev pub and_not64 : ℕ → ℕ → ℕ
and_not64 a b = bit_and a (bit_xor b (2 ^ 64 - 1))

-- The loop of `TakePendingSignal`: the first digit that is set, from `i` on.
unfoldable pub first_set : ℕ → ℕ → ℕ → Option ℕ
first_set zero i available = none
first_set (suc fuel) i available =
    let rest = first_set fuel (suc i) available in if has available (2 ^ i) then some i else rest

-- `TakePendingSignal`: digit `i` is signal `i + 1`
unfoldable pub take_pending : SignalState → Option (ℕ × SignalAction) × SignalState
take_pending s = elim (first_set 64 0 (and_not64 s.pending s.mask)) [
  | none ↦ (none, s)
  | some i ↦ (some (suc i, s.actions (suc i)), record s { pending = and_not64 s.pending (2 ^ i) })
]

unfoldable pub queue_signal : ℕ → SignalState → SignalState
queue_signal signal s =
    if signal == 0 || ltb 64 signal
    then s
    else record s { pending = bit_or s.pending (2 ^ (signal - 1)) }

pub data Answer : Type 0 where
  done no_process invalid fault : Answer

-- `kill`, with the process ids as words: 0 and -1 mean the caller too
unfoldable pub kill : ℕ → ℕ → ℕ → SignalState → Answer × SignalState
unfolding queue_signal
kill own pid signal s =
    if not (pid == own) && not (pid == 0) && not (pid == 0xffff_ffff)
    then (no_process, s)
    else if ltb 64 signal
    then (invalid, s)
    else (done, queue_signal signal s)

-- `readSignalSet`; both failures give the caller the same answer
unfoldable pub read_signal_set : Memory → ℕ → ℕ → Result ℕ
read_signal_set m addr size =
    if addr == 0 then ok 0 else if ltb size 4 || ltb 8 size then err memory_fault else (do
      low ← read32 m addr
      if size == 4 then ok low else (do high ← read32 m (add32 addr 4); ok (low + high * 2 ^ 32)))

-- `writeSignalSet`; the memory stays as a failed second write leaves it
unfoldable pub write_signal_set : Memory → ℕ → ℕ → ℕ → Bool × Memory
write_signal_set m addr mask size =
    if addr == 0
    then (true, m)
    else if ltb size 4 || ltb 8 size
    then (false, m)
    else elim (write32 m addr (mask % 2 ^ 32)) [
      | err e ↦ (false, m)
      | ok n ↦
          if size == 8
          then elim (write32 n (add32 addr 4) (mask / 2 ^ 32)) [
            | err e ↦ (false, n)
            | ok o ↦ (true, o)
          ]
          else (true, n)
    ]

-- `switch how` of `sigprocmask`
unfoldable pub change_mask : ℕ → ℕ → SignalState → Answer × SignalState
change_mask how set s =
    if how == 0
    then (done, record s { mask = bit_or s.mask set })
    else if how == 1
    then (done, record s { mask = and_not64 s.mask set })
    else if how == 2
    then (done, record s { mask = set })
    else (invalid, s)

unfoldable pub set_mask : ℕ → Result ℕ → SignalState → Answer × SignalState
unfolding change_mask
set_mask how (ok set) s = change_mask how set s
set_mask how (err e) s = (fault, s)

-- After the old mask is written.
unfoldable pub update_mask : ℕ → ℕ → ℕ → SignalState → Bool × Memory → Answer × SignalState × Memory
unfolding set_mask
update_mask how set_addr size s (false, m) = (fault, s, m)
update_mask how set_addr size s (true, m) =
    if set_addr == 0
    then (done, s, m)
    else let r = set_mask how (read_signal_set m set_addr size) s in (r.0, r.1, m)

unfoldable pub sigprocmask :
    ℕ → ℕ → ℕ → ℕ → Bool → SignalState → Memory → Answer × SignalState × Memory
unfolding update_mask
sigprocmask how set_addr old_addr size realtime s m =
    if realtime && not (size == 8)
    then (invalid, s, m)
    else (let word = if realtime then 8 else 4 in
        update_mask how set_addr word s (write_signal_set m old_addr s.mask word))

-- A write after one that succeeded.
unfoldable pub also : (Memory → Bool × Memory) → Bool × Memory → Bool × Memory
also next (true, m) = next m
also next (false, m) = (false, m)

unfoldable pub put_word : ℕ → ℕ → Memory → Bool × Memory
put_word addr v m = elim (write32 m addr v) [ ok n ↦ (true, n) | err e ↦ (false, m) ]

-- The action of a signal as the guest reads it: handler, flags, restorer and mask.
unfoldable pub write_action : ℕ → SignalAction → Memory → Bool × Memory
unfolding also put_word
write_action addr a m =
    also (λ n. write_signal_set n (add32 addr 12) a.mask 8)
      (also (put_word (add32 addr 8) a.restorer)
        (also (put_word (add32 addr 4) a.flags) (put_word addr a.handler m)))

unfoldable pub read_action : ℕ → Memory → Result SignalAction
read_action addr m = do
  handler ← read32 m addr
  flags ← read32 m (add32 addr 4)
  restorer ← read32 m (add32 addr 8)
  mask ← read_signal_set m (add32 addr 12) 8
  ok (record { handler = handler; restorer = restorer; flags = flags; mask = mask })

unfoldable pub set_action : ℕ → Result SignalAction → SignalState → Answer × SignalState
set_action signal (ok a) s =
    (done, record s { actions = λ k. if k == signal then a else s.actions k })
set_action signal (err e) s = (fault, s)

-- After the old action is written.
unfoldable pub update_action : ℕ → ℕ → SignalState → Bool × Memory → Answer × SignalState × Memory
unfolding set_action
update_action signal addr s (false, m) = (fault, s, m)
update_action signal addr s (true, m) =
    if addr == 0
    then (done, s, m)
    else let r = set_action signal (read_action addr m) s in (r.0, r.1, m)

unfoldable pub rt_sigaction : ℕ → ℕ → ℕ → ℕ → SignalState → Memory → Answer × SignalState × Memory
unfolding update_action write_action
rt_sigaction signal addr old_addr size s m =
    if signal == 0 || ltb 64 signal || signal == 9 || signal == 19 || not (size == 8)
    then (invalid, s, m)
    else update_action signal addr s
        (if old_addr == 0 then (true, m) else write_action old_addr (s.actions signal) m)
