-- ===== src/Pipe/Ready.antt =====
-- What `poll` is told of a pipe agrees with what a call would do; and the blocking `Write`.
use ish_port_go.Prelude.{
  ℕ, suc, ◌+◌, ◌≤◌, ◌<◌, ◌≡◌, ◌≢◌, ◌↔◌, refl, true, false, none, some, List, [], ◌∷◌, ◌++◌, arith,
  leb, ◌==◌, if◌then◌else◌, length, take, drop, append-nil, length-append, length-take, length-drop,
  ap, ok, err, broken_pipe, again, would_block, end_of_file, inl, inr, lt-or-ge, ◌∙◌,
}
use ish_port_go.Pipe.{
  PipeBuffer, PipeEnd, returns, waits, read_nonblocking, write_nonblocking, write_rounds, write,
  fitting, read_ready, write_ready, hangup,
}
use ish_port_go.Pipe.Stream.{space}

length-eq-zero : (bs : List ℕ) → length bs ≡ 0 → bs ≡ []
length-eq-zero [] h = refl
length-eq-zero (b ∷ bs) h = absurd (omega arith)

module _ (r : PipeEnd) (size : ℕ) (p : PipeBuffer) (hr : r.write ≡ false) (hs : 0 < size) where
  read_ready_iff : (read_ready r p ≡ true) ↔ ((read_nonblocking r size p).0 ≢ err would_block)
  unfolding read_ready read_nonblocking
  read_ready_iff = (λ h. ground arith, λ h. ground arith)

  read_eof_iff :
      ((p.bytes ≡ []) × (p.writers ≡ 0)) ↔ ((read_nonblocking r size p).0 ≡ err end_of_file)
  unfolding read_nonblocking
  read_eof_iff = (λ h. ground (arith, ap length h.0), λ h. ground (arith, length-eq-zero p.bytes))

module _ (w : PipeEnd) (src : List ℕ) (p : PipeBuffer) (hw : w.write ≡ true)
    (hl : 0 < length src) where
  write_ready_iff :
      (write_ready w p ≡ true) ↔ ((n : ℕ) × (0 < n) × ((write_nonblocking w src p).0 ≡ ok n))
  unfolding write_ready write_nonblocking
  write_ready_iff = (
    λ h. (fitting (space p) (length src), ground arith, ground arith),
    λ h. let (n, some_bytes, e) = h in ground arith,
  )

  hangup_iff : (hangup w p ≡ true) ↔ ((write_nonblocking w src p).0 ≡ err broken_pipe)
  unfolding hangup write_nonblocking
  hangup_iff = (λ h. ground arith, λ h. ground arith)

-- On the read end a read of at least one byte does not block exactly if `ReadReady` holds, and it
-- reports the end of the stream exactly if the buffer is empty and no writer is left. On the write
-- end a write of at least one byte makes progress exactly if `WriteReady` holds, and it reports a
-- broken pipe exactly if `Hangup` holds.
pub ready_lem :
    (r w : PipeEnd) (size : ℕ) (src : List ℕ) (p : PipeBuffer)
    → r.write ≡ false
    → w.write ≡ true
    → 0 < size
    → 0 < length src
    → ((read_ready r p ≡ true) ↔ ((read_nonblocking r size p).0 ≢ err would_block))
      × (((p.bytes ≡ []) × (p.writers ≡ 0)) ↔ ((read_nonblocking r size p).0 ≡ err end_of_file))
      × ((write_ready w p ≡ true) ↔ ((n : ℕ) × (0 < n) × ((write_nonblocking w src p).0 ≡ ok n)))
      × ((hangup w p ≡ true) ↔ ((write_nonblocking w src p).0 ≡ err broken_pipe))
ready_lem r w size src p hr hw hs hl = (
  read_ready_iff r size p hr hs,
  read_eof_iff r size p hr hs,
  write_ready_iff w src p hw hl,
  hangup_iff w src p hw hl,
)

take-length : (bs : List ℕ) → take (length bs) bs ≡ bs
take-length [] = refl
take-length (b ∷ bs) = ap (λ rest. b ∷ rest) (take-length bs)

module _ (fuel : ℕ) (h : PipeEnd) (src : List ℕ) (written : ℕ) (p : PipeBuffer) where
  written_round :
      length src ≡ 0 → write_rounds (suc fuel) h src written p ≡ (returns written none, p)
  unfolding write_rounds
  written_round e = rw (e)

  broken_round :
      0 < length src
      → p.readers ≡ 0
      → write_rounds (suc fuel) h src written p ≡ (returns written (some broken_pipe), p)
  unfolding write_rounds
  broken_round hl e = ground arith

  full_round :
      0 < length src
      → p.readers ≢ 0
      → space p ≡ 0
      → write_rounds (suc fuel) h src written p
        ≡ (if h.nonblock then returns written (some again) else waits written, p)
  unfolding write_rounds
  full_round hl hr e = ground arith

  append_round :
      0 < length src
      → p.readers ≢ 0
      → 0 < space p
      → write_rounds (suc fuel) h src written p
        ≡ write_rounds fuel h
            (drop (fitting (space p) (length src)) src)
            (written + fitting (space p) (length src))
            (record p { bytes = p.bytes ++ take (fitting (space p) (length src)) src })
  unfolding write_rounds
  append_round hl hr e = ground arith

fitting-fits : (room n : ℕ) → n ≤ room → fitting room n ≡ n
fitting-fits room n h = ground arith

fitting-full : (room n : ℕ) → room < n → fitting room n ≡ room
fitting-full room n h = ground arith

module _ (fuel : ℕ) (h : PipeEnd) (src : List ℕ) (written : ℕ) (p : PipeBuffer) where
  -- All of `src` fits: one turn appends it and the next one is done.
  fits_rounds :
      0 < length src
      → p.readers ≢ 0
      → length src ≤ space p
      → write_rounds (suc (suc fuel)) h src written p
        ≡ (returns (written + length src) none, record p { bytes = p.bytes ++ src })
  fits_rounds hl hr fits =
      append_round (suc fuel) h src written p hl hr (omega arith)
      ∙ rw (fitting-fits (space p) (length src) fits, take-length src)
          (written_round fuel h (drop (length src) src) (written + length src)
            (record p { bytes = p.bytes ++ src }) (omega (arith, length-drop (length src) src)))

  -- It does not: one turn fills the buffer and the next one finds it full.
  fills_rounds :
      p.readers ≢ 0
      → 0 < space p
      → space p < length src
      → write_rounds (suc (suc fuel)) h src written p ≡ (
        if h.nonblock then returns (written + space p) (some again) else waits (written + space p),
        record p { bytes = p.bytes ++ take (space p) src },
      )
  fills_rounds hr some_room full =
      append_round (suc fuel) h src written p (omega arith) hr some_room
      ∙ rw (fitting-full (space p) (length src) full) (
          full_round fuel h (drop (space p) src) (written + space p)
            (record p { bytes = p.bytes ++ take (space p) src })
            (omega (arith, length-drop (space p) src)) hr
            (omega (arith, length-append p.bytes (take (space p) src), length-take (space p) src)))

-- The blocking `Write` on the write end of a pipe, with bytes to write. With no reader it reports a broken pipe and changes nothing. Else it appends as many bytes as there is
-- room for; it returns the length if all fit, and otherwise, with the buffer full, it reports EAGAIN
-- with the count so far on a non-blocking end and waits on a blocking one. Its loop does not run out
-- of turns.
pub write_lem :
    (h : PipeEnd) (src : List ℕ) (p : PipeBuffer)
    → h.write ≡ true
    → 0 < length src
    → write h src p ≡ (
        if p.readers == 0
        then (returns 0 (some broken_pipe), p)
        else if leb (length src) (space p)
        then (returns (length src) none, record p { bytes = p.bytes ++ src })
        else (
          if h.nonblock then returns (space p) (some again) else waits (space p),
          record p { bytes = p.bytes ++ take (space p) src },
        ))
unfolding write
write_lem h src p hw hl = elim (lt-or-ge 0 p.readers) [
  | inr hr ↦ let e = broken_round 2 h src 0 p hl (omega arith) in ground arith
  | inl hr ↦ elim (lt-or-ge (space p) (length src)) [
    | inr fits ↦ let e = fits_rounds 1 h src 0 p hl (omega arith) fits in ground arith
    | inl full ↦ elim (lt-or-ge 0 (space p)) [
      | inl some_room ↦
          let e = fills_rounds 1 h src 0 p (omega arith) some_room full in ground arith
      | inr no_room ↦
          let none_taken : space p ≡ 0 = omega arith in
          let e = full_round 2 h src 0 p hl (omega arith) none_taken in
          rw (none_taken, append-nil p.bytes) (ground arith)
    ]
  ]
]
