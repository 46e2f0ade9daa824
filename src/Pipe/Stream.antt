-- ===== src/Pipe/Stream.antt =====
-- A pipe is a bounded queue of bytes: nothing is lost, reordered or made up, and the buffer never
-- passes its capacity.
use ish_port_go.Prelude.{
  ℕ, ◌-◌, ◌≤◌, ◌≡◌, List, [], ◌∷◌, ◌++◌, arith, length, take, append-nil, append_assoc,
  length-append, length-take, length-drop, take-append-drop, ap, ◌∙◌, sym, ok, err, Result,
}
use ish_port_go.Pipe.{
  PipeBuffer, PipeEnd, read_nonblocking, write_nonblocking, pipe_capacity, fitting,
}

abbrev pub IsBounded : PipeBuffer → Type 0
IsBounded p = length p.bytes ≤ pipe_capacity

-- The room left in the buffer.
abbrev pub space : PipeBuffer → ℕ
space p = pipe_capacity - length p.bytes

-- A client's calls on the two ends of a pipe.
pub data Call : Type 0 where
  get : ℕ → Call
  put : List ℕ → Call

-- The bytes that a call has read, and those that it has written.
pub record Traffic : Type 0 where
  pub received : List ℕ
  pub sent : List ℕ
  pub buffer : PipeBuffer

unfoldable pub received_by : Result (List ℕ) → List ℕ
received_by (ok bs) = bs
received_by (err e) = []

unfoldable pub sent_by : List ℕ → Result ℕ → List ℕ
sent_by src (ok n) = take n src
sent_by src (err e) = []

unfoldable pub call : PipeEnd → PipeEnd → Call → Traffic → Traffic
unfolding received_by sent_by
call r w (get size) t =
    let (got, p) = read_nonblocking r size t.buffer in
    record { received = t.received ++ received_by got; sent = t.sent; buffer = p }
call r w (put src) t =
    let (count, p) = write_nonblocking w src t.buffer in
    record { received = t.received; sent = t.sent ++ sent_by src count; buffer = p }

unfoldable pub run : PipeEnd → PipeEnd → List Call → Traffic → Traffic
unfolding call
run r w [] t = t
run r w (c ∷ cs) t = run r w cs (call r w c t)

read-received :
    (h : PipeEnd) (size : ℕ) (p : PipeBuffer)
    → let (got, q) = read_nonblocking h size p in received_by got ++ q.bytes ≡ p.bytes
unfolding read_nonblocking received_by
read-received h size p = ground (arith, take-append-drop size p.bytes)

write-sent :
    (h : PipeEnd) (src : List ℕ) (p : PipeBuffer)
    → let (count, q) = write_nonblocking h src p in q.bytes ≡ p.bytes ++ sent_by src count
unfolding write_nonblocking sent_by
write-sent h src p = ground (arith, append-nil p.bytes, append-nil (take 0 src))

read-IsBounded :
    (h : PipeEnd) (size : ℕ) (p : PipeBuffer)
    → IsBounded p
    → IsBounded (read_nonblocking h size p).1
unfolding read_nonblocking
read-IsBounded h size p b = ground (arith, length-drop size p.bytes)

write-IsBounded :
    (h : PipeEnd) (src : List ℕ) (p : PipeBuffer)
    → IsBounded p
    → IsBounded (write_nonblocking h src p).1
unfolding write_nonblocking
write-IsBounded h src p b =
    let n = fitting (space p) (length src) in
    ground (arith, length-append p.bytes (take n src), length-take n src)

-- Bytes received so far, then those in the buffer, are the bytes there at first and those sent.
abbrev pub IsFifo : List ℕ → Traffic → Type 0
IsFifo first t = t.received ++ t.buffer.bytes ≡ first ++ t.sent

call-IsFifo :
    (r w : PipeEnd) (c : Call) (first : List ℕ) (t : Traffic)
    → IsFifo first t
    → IsFifo first (call r w c t)
unfolding call
call-IsFifo r w (get size) first t h =
    let (got, p) = read_nonblocking r size t.buffer in
    append_assoc t.received (received_by got) p.bytes
    ∙ ap (λ bs. t.received ++ bs) (read-received r size t.buffer)
    ∙ h
call-IsFifo r w (put src) first t h =
    let now = sent_by src (write_nonblocking w src t.buffer).0 in
    rw (write-sent w src t.buffer) (
      sym (append_assoc t.received t.buffer.bytes now)
      ∙ ap (λ bs. bs ++ now) h
      ∙ append_assoc first t.sent now)

call-IsBounded :
    (r w : PipeEnd) (c : Call) (t : Traffic) → IsBounded t.buffer → IsBounded (call r w c t).buffer
unfolding call
call-IsBounded r w (get size) t b = read-IsBounded r size t.buffer b
call-IsBounded r w (put src) t b = write-IsBounded w src t.buffer b

-- After any sequence of non-blocking reads and writes on the ends of a pipe that is within its
-- capacity, the buffer is within its capacity, and what was received followed by what is buffered
-- is what was buffered at first followed by what was sent.
pub run-IsFifo :
    (r w : PipeEnd) (calls : List Call) (first : List ℕ) (t : Traffic)
    → IsFifo first t
    → IsBounded t.buffer
    → IsFifo first (run r w calls t) × IsBounded (run r w calls t).buffer
unfolding run
run-IsFifo r w [] first t h b = (h, b)
run-IsFifo r w (c ∷ cs) first t h b =
    run-IsFifo r w cs first (call r w c t) (call-IsFifo r w c first t h) (call-IsBounded r w c t b)
