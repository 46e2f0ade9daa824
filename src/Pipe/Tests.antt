-- ===== src/Pipe/Tests.antt =====
-- Runs of the pipe model, and the witnesses of its properties.
use ish_port_go.Prelude.{◌≡◌, refl, true, false, some, List, [], ◌∷◌, arith, broken_pipe}
use ish_port_go.Pipe.{
  PipeBuffer, PipeEnd, returns, read_nonblocking, write_nonblocking, write_rounds, write, new_pipe,
  close_end,
}
use ish_port_go.Pipe.Stream.{
  Traffic, Call, put, get, call, run, IsFifo, IsBounded, run-IsFifo, sent_by, received_by,
}

abbrev reader : PipeEnd
reader = record { write = false; nonblock = true; closed = false }

abbrev writer : PipeEnd
writer = record { write = true; nonblock = true; closed = false }

abbrev idle : Traffic
idle = record { received = []; sent = []; buffer = new_pipe }

abbrev calls : List Call
calls = put (1 ∷ 2 ∷ 3 ∷ []) ∷ get 2 ∷ put (4 ∷ []) ∷ get 9 ∷ get 1 ∷ []

run-calls :
    run reader writer calls idle
    ≡ record { received = 1 ∷ 2 ∷ 3 ∷ 4 ∷ []; sent = 1 ∷ 2 ∷ 3 ∷ 4 ∷ []; buffer = new_pipe }
unfolding run call read_nonblocking write_nonblocking sent_by received_by
run-calls = refl

run-IsFifo_example :
    IsFifo [] (run reader writer calls idle) × IsBounded (run reader writer calls idle).buffer
run-IsFifo_example = run-IsFifo reader writer calls [] idle refl (omega arith)

-- The last read end closed.
abbrev unread : PipeBuffer
unread = record new_pipe { readers = 0 }

close-reader : (close_end reader new_pipe).1 ≡ unread
unfolding close_end
close-reader = refl

write-unread : write writer (7 ∷ []) unread ≡ (returns 0 (some broken_pipe), unread)
unfolding write write_rounds
write-unread = refl
