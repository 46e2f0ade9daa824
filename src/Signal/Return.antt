-- ===== src/Signal/Return.antt =====
-- A handler that leaves its frame alone returns to the state that the signal interrupted.
use ish_port_go.Prelude.{
  ℕ, zero, suc, ◌+◌, ◌-◌, ◌*◌, ◌/◌, ◌%◌, ◌^◌, ◌≤◌, ◌<◌, ◌≡◌, ◌⊎◌, inl, inr, refl, List, [], ◌∷◌,
  ◌++◌, arith, length, length-append, All, All-append, get_or, set, get_or-set_self, set-get_or,
  add32, sub32, u32, u16, u8, sym, ok, err, Result, ltb, ◌==◌, ◌||◌, append-nil, false,
}
use ish_port_go.Prelude.Bits.{bit_and-shift, bit_and-mask}
use ish_port_go.Memory.{Memory, read32}
use ish_port_go.Cpu.{Cpu, esp}
use ish_port_go.Signal.{
  SignalAction, frame_base, float_words, frame_words, write_words, read_words, enter_handler,
  deliver_signal, is_frame, find_frame, join64, join_floats, rt_sigreturn, signal_frame_magic,
  signal_frame_version,
}
use ish_port_go.Signal.Frame.{
  IsReadable, Stored, Stored-at, Stored-from, Stored-kept, write_words-Stored, read_words-Stored,
}

-- The sizes of the fields, and the stack discipline of the x87 registers.
pub record IsCpu {F : Type 0} (c : Cpu F) : Type 0 where
  pub regs_count : length c.regs ≡ 8
  pub regs_lt : All (λ v. v < 2 ^ 32) c.regs
  pub eip_lt : c.eip < 2 ^ 32
  pub eflags_lt : c.eflags < 2 ^ 32
  pub fs_base_lt : c.fs_base < 2 ^ 32
  pub gs_base_lt : c.gs_base < 2 ^ 32
  pub fs_selector_lt : c.fs_selector < 2 ^ 16
  pub gs_selector_lt : c.gs_selector < 2 ^ 16
  pub fpu_count8 : length c.fpu ≡ 8
  pub fpu_top_lt : c.fpu_top < 8
  pub fpu_count_le : c.fpu_count ≤ 8
  pub fpu_status_lt : c.fpu_status < 2 ^ 16
  pub fpu_control_lt : c.fpu_control < 2 ^ 16

get_or-lt : (xs : List ℕ) (i : ℕ) → All (λ v. v < 2 ^ 32) xs → get_or xs i 0 < 2 ^ 32
get_or-lt [] i h = omega arith
get_or-lt (x ∷ xs) zero h = h.0
get_or-lt (x ∷ xs) (suc i) h = get_or-lt xs i h.1

frame_base-eq :
    (top : ℕ) → 208 ≤ top → top < 2 ^ 32 → frame_base top ≡ (top - 192) - (top - 192) % 16
unfolding frame_base
frame_base-eq top h w =
    let room : sub32 (sub32 top 176) 16 ≡ top - 192 = omega arith in
    rw (room, bit_and-shift (top - 192) 0xfffffff 4, bit_and-mask ((top - 192) / 16) 28)
      (omega arith)

find_frame-lem :
    (m : Memory) (base top : ℕ)
    → read32 m (add32 base 8) ≡ ok signal_frame_magic
    → read32 m (add32 base 12) ≡ ok signal_frame_version
    → base + 16 < 2 ^ 32
    → (top ≡ base) ⊎ (top ≡ base + 4)
    → find_frame m top ≡ ok base
unfolding find_frame is_frame
find_frame-lem m base top magic version room (inl e) = rw (e, magic, version)
find_frame-lem m base top magic version room (inr e) =
    let next : add32 (base + 4) 8 ≡ add32 base 12 = omega arith in
    let back : base + 4 - 4 ≡ base = omega arith in
    rw (e, next, version, back, magic) (ground arith)

enter_handler-inv :
    {F : Type 0} (signal_mask : ℕ) (c : Cpu F) (signal : ℕ) (action : SignalAction)
    (r : Result (Unit {0}) × Memory) (new_mask : ℕ) (d : Cpu F)
    → enter_handler signal_mask c signal action r ≡ (ok tt, new_mask, d)
    → (r ≡ (ok tt, d.mem)) × (d.regs ≡ set c.regs esp (frame_base (get_or c.regs esp 0)))
unfolding enter_handler
enter_handler-inv signal_mask c signal action (err x, m) new_mask d e = ground arith
enter_handler-inv signal_mask c signal action (ok done, m) new_mask d e = ground arith

deliver_signal-inv :
    {F : Type 0} (float_bits : F → ℕ) (signal_mask : ℕ) (c : Cpu F) (signal : ℕ)
    (action : SignalAction) (new_mask : ℕ) (d : Cpu F)
    → deliver_signal float_bits signal_mask c signal action ≡ (ok tt, new_mask, d)
    → (signal ≤ 64)
      × (208 ≤ get_or c.regs esp 0)
      × (enter_handler signal_mask c signal action (
            write_words c.mem
              (frame_base (get_or c.regs esp 0))
              0
              (frame_words float_bits signal_mask c signal action))
          ≡ (ok tt, new_mask, d))
unfolding deliver_signal
deliver_signal-inv float_bits signal_mask c signal action new_mask d e = ground arith

module _ {F : Type 0} (float_bits : F → ℕ) (from_bits : ℕ → F)
    (law : (x : F) → from_bits (float_bits x) ≡ x) (bits-lt : (x : F) → float_bits x < 2 ^ 64) where
  join_float_words : (xs : List F) → join_floats from_bits (float_words float_bits xs) ≡ xs
  unfolding join_floats float_words
  join_float_words [] = refl
  join_float_words (x ∷ xs) =
      let whole : join64 (u32 (float_bits x)) (u32 (float_bits x / 2 ^ 32)) ≡ float_bits x =
        omega (arith, bits-lt x) in
      rw (whole, law x, join_float_words xs)

  length-float_words : (xs : List F) → length (float_words float_bits xs) ≡ 2 * length xs
  unfolding float_words
  length-float_words [] = refl
  length-float_words (x ∷ xs) = omega (arith, length-float_words xs)

  float_words-lt : (xs : List F) → All (λ v. v < 2 ^ 32) (float_words float_bits xs)
  unfolding float_words
  float_words-lt [] = tt
  float_words-lt (x ∷ xs) = (omega arith, (omega arith, float_words-lt xs))

  -- A CPU whose memory holds the frame of `c` returns to `c`.
  return_lem :
      (signal_mask : ℕ) (c h : Cpu F) (signal base : ℕ) (action : SignalAction)
      → IsCpu c
      → signal_mask < 2 ^ 64
      → 0 < get_or c.regs esp 0
      → base + 16 < 2 ^ 32
      → Stored h.mem base 0 (frame_words float_bits signal_mask c signal action)
      → (get_or h.regs esp 0 ≡ base) ⊎ (get_or h.regs esp 0 ≡ base + 4)
      → rt_sigreturn from_bits h
        ≡ ok (
          signal_mask,
          record h {
            regs = c.regs;
            eip = c.eip;
            eflags = c.eflags;
            fs_base = c.fs_base;
            gs_base = c.gs_base;
            fs_selector = c.fs_selector;
            gs_selector = c.gs_selector;
            fpu = c.fpu;
            fpu_top = c.fpu_top;
            fpu_count = c.fpu_count;
            fpu_status = c.fpu_status;
            fpu_control = c.fpu_control;
            halted = false;
          },
        )
  unfolding rt_sigreturn frame_words
  return_lem signal_mask c h signal base action v mask-lt some_stack room s at_frame =
      let words = frame_words float_bits signal_mask c signal action in
      let fw = float_words float_bits c.fpu in
      let at = λ (i : ℕ) (lt : i < length words). Stored-at h.mem base 0 words i s lt in
      let found =
        find_frame-lem h.mem base (get_or h.regs esp 0) (at 2 (omega arith)) (at 3 (omega arith))
          room at_frame in
      let (regs_read, after) =
        read_words-Stored h.mem base 72 c.regs fw (Stored-from h.mem base 0 words 18 s) in
      let regs8 : read_words h.mem base 72 8 ≡ ok c.regs = rw v.regs_count at regs_read in
      let on_fpu : Stored h.mem base 104 fw = rw v.regs_count at after in
      let padded : Stored h.mem base 104 (fw ++ []) = rw (append-nil fw) on_fpu in
      let floats_read = (read_words-Stored h.mem base 104 fw [] padded).0 in
      let count : length fw ≡ 16 = omega (arith, length-float_words c.fpu, v.fpu_count8) in
      let floats16 : read_words h.mem base 104 16 ≡ ok fw = rw count at floats_read in
      let r32 : read32 h.mem (add32 base 32) ≡ ok (u32 signal_mask) = at 8 (omega arith) in
      let r36 : read32 h.mem (add32 base 36) ≡ ok (u32 (signal_mask / 2 ^ 32)) =
        at 9 (omega arith) in
      let r20 : read32 h.mem (add32 base 20) ≡ ok (c.eip) = at 5 (omega arith) in
      let r24 : read32 h.mem (add32 base 24) ≡ ok (c.eflags) = at 6 (omega arith) in
      let r28 : read32 h.mem (add32 base 28) ≡ ok (get_or c.regs esp 0) = at 7 (omega arith) in
      let r40 : read32 h.mem (add32 base 40) ≡ ok (c.fs_base) = at 10 (omega arith) in
      let r44 : read32 h.mem (add32 base 44) ≡ ok (c.gs_base) = at 11 (omega arith) in
      let r48 : read32 h.mem (add32 base 48) ≡ ok (c.fs_selector) = at 12 (omega arith) in
      let r52 : read32 h.mem (add32 base 52) ≡ ok (c.gs_selector) = at 13 (omega arith) in
      let r56 : read32 h.mem (add32 base 56) ≡ ok (c.fpu_top) = at 14 (omega arith) in
      let r60 : read32 h.mem (add32 base 60) ≡ ok (c.fpu_count) = at 15 (omega arith) in
      let r64 : read32 h.mem (add32 base 64) ≡ ok (c.fpu_status) = at 16 (omega arith) in
      let r68 : read32 h.mem (add32 base 68) ≡ ok (c.fpu_control) = at 17 (omega arith) in
      let alive : (get_or c.regs esp 0 == 0) ≡ false = ground arith in
      let sound : (ltb 7 c.fpu_top
            || ltb 8 c.fpu_count
            || ltb 0xffff c.fs_selector
            || ltb 0xffff c.gs_selector)
          ≡ false =
        ground arith in
      let mask_same : join64 (u32 signal_mask) (u32 (signal_mask / 2 ^ 32)) ≡ signal_mask =
        omega arith in
      let fs_same : u16 c.fs_selector ≡ c.fs_selector = omega arith in
      let gs_same : u16 c.gs_selector ≡ c.gs_selector = omega arith in
      let top_same : u8 c.fpu_top ≡ c.fpu_top = omega arith in
      let count_same : u8 c.fpu_count ≡ c.fpu_count = omega arith in
      let status_same : u16 c.fpu_status ≡ c.fpu_status = omega arith in
      let control_same : u16 c.fpu_control ≡ c.fpu_control = omega arith in
      rw (
        found,
        r32,
        r36,
        r20,
        r24,
        r28,
        alive,
        regs8,
        floats16,
        r40,
        r44,
        r48,
        r52,
        r56,
        r60,
        r64,
        r68,
        sound,
        mask_same,
        set-get_or c.regs esp 0,
        fs_same,
        gs_same,
        top_same,
        count_same,
        status_same,
        control_same,
        join_float_words c.fpu,
      )

  words-lt :
      (signal_mask : ℕ) (c : Cpu F) (signal : ℕ) (action : SignalAction)
      → IsCpu c
      → action.restorer < 2 ^ 32
      → signal ≤ 64
      → All (λ v. v < 2 ^ 32) (frame_words float_bits signal_mask c signal action)
  unfolding frame_words
  words-lt signal_mask c signal action v restorer-lt signal-le = (
    restorer-lt,
    (
      omega arith,
      (
        omega arith,
        (
          omega arith,
          (
            omega arith,
            (
              omega arith,
              (
                omega arith,
                (
                  get_or-lt c.regs esp v.regs_lt,
                  (
                    omega arith,
                    (
                      omega arith,
                      (
                        omega arith,
                        (
                          omega arith,
                          (
                            omega arith,
                            (
                              omega arith,
                              (
                                omega arith,
                                (
                                  omega arith,
                                  (
                                    omega arith,
                                    (
                                      omega arith,
                                      All-append (λ v. v < 2 ^ 32) c.regs
                                          (float_words float_bits c.fpu) v.regs_lt
                                          (float_words-lt c.fpu),
                                    ),
                                  ),
                                ),
                              ),
                            ),
                          ),
                        ),
                      ),
                    ),
                  ),
                ),
              ),
            ),
          ),
        ),
      ),
    ),
  )

  length-words :
      (signal_mask : ℕ) (c : Cpu F) (signal : ℕ) (action : SignalAction)
      → IsCpu c
      → length (frame_words float_bits signal_mask c signal action) ≡ 42
  unfolding frame_words
  length-words signal_mask c signal action v = omega (
    arith,
    length-append c.regs (float_words float_bits c.fpu),
    length-float_words c.fpu,
    v.regs_count,
    v.fpu_count8,
  )

  -- A delivered signal, then `rt_sigreturn` on any CPU whose memory reads the same over the frame,
  -- with ESP at the frame or one word above it, as the return from the handler leaves it: the mask,
  -- the registers, the segments and the x87 state are those before the delivery; the memory and the
  -- counters are those of that CPU, and it is not halted. The frame can be read, the fields of the
  -- CPU have their sizes, its x87 top is below 8 and its x87 count at most 8, and a `float64` is
  -- given back by its bits.
  pub rt_sigreturn-deliver_signal :
      (signal_mask : ℕ) (c h : Cpu F) (signal : ℕ) (action : SignalAction) (new_mask : ℕ)
      (d : Cpu F)
      → IsCpu c
      → signal_mask < 2 ^ 64
      → action.restorer < 2 ^ 32
      → deliver_signal float_bits signal_mask c signal action ≡ (ok tt, new_mask, d)
      → IsReadable c.mem (get_or d.regs esp 0) 0 42
      → ((b : ℕ)
          → get_or d.regs esp 0 ≤ b
          → b + 4 ≤ get_or d.regs esp 0 + 176
          → read32 h.mem b ≡ read32 d.mem b)
      → (get_or h.regs esp 0 ≡ get_or d.regs esp 0)
        ⊎ (get_or h.regs esp 0 ≡ get_or d.regs esp 0 + 4)
      → rt_sigreturn from_bits h
        ≡ ok (
          signal_mask,
          record h {
            regs = c.regs;
            eip = c.eip;
            eflags = c.eflags;
            fs_base = c.fs_base;
            gs_base = c.gs_base;
            fs_selector = c.fs_selector;
            gs_selector = c.gs_selector;
            fpu = c.fpu;
            fpu_top = c.fpu_top;
            fpu_count = c.fpu_count;
            fpu_status = c.fpu_status;
            fpu_control = c.fpu_control;
            halted = false;
          },
        )
  rt_sigreturn-deliver_signal signal_mask c h signal action new_mask d v mask-lt restorer-lt e
        access kept at_frame =
      let top = get_or c.regs esp 0 in
      let words = frame_words float_bits signal_mask c signal action in
      let (signal-le, deep, entered) =
        deliver_signal-inv float_bits signal_mask c signal action new_mask d e in
      let (wrote, regs) =
        enter_handler-inv signal_mask c signal action (write_words c.mem (frame_base top) 0 words)
          new_mask d entered in
      let top-lt : top < 2 ^ 32 = get_or-lt c.regs esp v.regs_lt in
      let moved : get_or d.regs esp 0 ≡ frame_base top =
        rw regs (get_or-set_self c.regs esp (frame_base top) 0 (omega (arith, v.regs_count))) in
      let count = length-words signal_mask c signal action v in
      let room : frame_base top + 176 < 2 ^ 32 = omega (arith, frame_base-eq top deep top-lt) in
      let readable : IsReadable c.mem (frame_base top) 0 (length words) =
        rw (count, sym moved) access in
      let stored =
        write_words-Stored c.mem (frame_base top) 0 words d.mem wrote (omega (arith, count))
          (words-lt signal_mask c signal action v restorer-lt signal-le) readable in
      let still =
        Stored-kept d.mem h.mem (frame_base top) 0 words room (omega (arith, count))
          (rw moved at kept) stored in
      return_lem signal_mask c h signal (frame_base top) action v mask-lt (omega arith)
        (omega arith) still (rw moved at at_frame)
