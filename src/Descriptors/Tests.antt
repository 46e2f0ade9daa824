-- ===== src/Descriptors/Tests.antt =====
-- Calls on the descriptors of a small kernel, and the witnesses of the properties.
use ish_port_go.Prelude.{
  ℕ, ◌+◌, ◌<◌, ◌≤◌, ◌≡◌, ◌≢◌, ◌↔◌, refl, arith, List, Bool-cases, inl, inr, Bool, true, false,
  Option, none, some, if◌then◌else◌, ◌==◌, ◌&&◌, leb, [], ◌∷◌, err, broken_pipe, end_of_file,
  length,
}
use ish_port_go.Prelude.Int.{pos}
use ish_port_go.Pipe.{PipeEnd, write_nonblocking, read_nonblocking}
use ish_port_go.Descriptors.{
  Handle, terminal, pipe_end, file, Table, World, allocate_fd, valid_fd, on_handle, dup_install,
  install_copy, install, close_old, clone_handle, handle_for_fd, is_some, close, bad_fd, dup,
}
use ish_port_go.Descriptors.Inherit.{clone_for_child}
use ish_port_go.Descriptors.Lowest.{allocate_fd_lem}
use ish_port_go.Descriptors.Files.{close_lem, close-dup}
use ish_port_go.Descriptors.Counted.{IsCounted, IsOpen, count}
use ish_port_go.Descriptors.Counted.Sums.{refs, weight}
use ish_port_go.Descriptors.Fork.{beside, clone_for_child-IsCounted}
use ish_port_go.Descriptors.Calls.{Calls, here, next, duplicates, closes, NoneRefers, pipe_ends_iff}

-- A file under 3, a reading end of a pipe under 4, its writing end under 5.
abbrev reader : PipeEnd
reader = record { write = false; nonblock = true; closed = false }

abbrev writer : PipeEnd
writer = record { write = true; nonblock = true; closed = false }

abbrev handles : ℕ → Option Handle
handles fd =
    if fd == 3
    then some (file 9)
    else if fd == 4
    then some (pipe_end 0 reader)
    else if fd == 5
    then some (pipe_end 0 writer)
    else none

abbrev table : Table
table = record {
  fds = handles;
  bound = 6;
  closed = λ fd. false;
  cloexec = λ fd. false;
  next_fd = 6;
  has_tty = true;
}

abbrev world : World
world = record {
  pipes = λ p.
      if p == 0
      then record { bytes = []; readers = 1; writers = 1 }
      else record { bytes = []; readers = 0; writers = 0 };
  next_pipe = 1;
  file_closed = λ f. false;
}

handles-IsOpen : (fd : ℕ) → IsOpen (handles fd)
handles-IsOpen fd = elim (Bool-cases (fd == 3)) [
  | inl at3 ↦ rw at3 tt
  | inr not3 ↦ rw not3 (elim (Bool-cases (fd == 4)) [
    | inl at4 ↦ rw at4 refl
    | inr not4 ↦
        rw not4 (elim (Bool-cases (fd == 5)) [ inl at5 ↦ rw at5 refl | inr not5 ↦ rw not5 tt ])
  ])
]

world-counts : (p : ℕ) (writes : Bool) → count world p writes ≡ refs p writes handles 6 + 0
unfolding count refs weight
world-counts p true = ground arith
world-counts p false = ground arith

world-fresh : (p : ℕ) (writes : Bool) → 1 ≤ p → count world p writes ≡ 0
unfolding count
world-fresh p true from = ground arith
world-fresh p false from = ground arith

table-IsCounted : IsCounted (λ p writes. 0) handles 6 world
table-IsCounted = record {
  bounded = λ fd above. ground arith;
  are_open = handles-IsOpen;
  counts = world-counts;
  fresh = world-fresh;
}

table-IsBounded : (fd : ℕ) → 6 ≤ fd → handles fd ≡ none
table-IsBounded fd above = ground arith

allocate_fd_lem_example :
    (1 ≤ allocate_fd table 1)
    × (valid_fd table (allocate_fd table 1) ≡ false)
    × ((j : ℕ) → 1 ≤ j → j < allocate_fd table 1 → valid_fd table j ≡ true)
allocate_fd_lem_example = allocate_fd_lem table 1 (record { at = table-IsBounded })

-- The reading end copied to 7, and then the writing end closed.
abbrev copied : Table
copied = (dup 4 7 0 false table world).1

abbrev copied_world : World
copied_world = (dup 4 7 0 false table world).2

abbrev left : Table
left = (close 5 copied copied_world).1

abbrev left_world : World
left_world = (close 5 copied copied_world).2

copy_then_close : Calls table world left left_world
copy_then_close =
    next (next here (duplicates 4 7 0 false table world)) (closes 5 copied copied_world)

abbrev letter : List ℕ
letter = 65 ∷ []

pipe_ends_iff_example :
    (writer.write ≡ true
      → 0 < length letter
      → ((write_nonblocking writer letter (left_world.pipes 0)).0 ≡ err broken_pipe)
        ↔ NoneRefers left 0 false)
    × (writer.write ≡ false
        → 0 < 8
        → (left_world.pipes 0).bytes ≡ []
        → ((read_nonblocking writer 8 (left_world.pipes 0)).0 ≡ err end_of_file)
          ↔ NoneRefers left 0 true)
pipe_ends_iff_example = pipe_ends_iff copy_then_close table-IsCounted 0 writer letter 8

close_lem_example :
    (valid_fd table 3 ≡ false → close 3 table world ≡ (bad_fd, table, world))
    × (valid_fd table 3 ≡ true
        → ((close 3 table world).0 ≡ pos 0)
          × ((j : ℕ) → j ≢ 3 → handle_for_fd (close 3 table world).1 j ≡ handle_for_fd table j)
          × (handle_for_fd (close 3 table world).1 3 ≡ (
              if is_some (table.fds 3) && leb 3 2 && table.has_tty then some terminal else none)))
close_lem_example = close_lem 3 table world

clone_for_child-IsCounted_example :
    IsCounted
      (beside (λ p writes. 0) table)
      (clone_for_child table world).0.fds
      (clone_for_child table world).0.bound
      (clone_for_child table world).1
    × IsCounted
        (beside (λ p writes. 0) (clone_for_child table world).0)
        handles
        6
        (clone_for_child table world).1
clone_for_child-IsCounted_example = clone_for_child-IsCounted table world table-IsCounted

close-dup_example :
    (handle_for_fd (close 3 (dup 3 1 0 false table world).1 (dup 3 1 0 false table world).2).1 1
      ≡ some (file 9))
    × ((close 3 (dup 3 1 0 false table world).1 (dup 3 1 0 false table world).2).2.file_closed 9
        ≡ true)
close-dup_example = close-dup 3 1 9 table world refl (λ e. absurd (omega arith))

-- Closing a descriptor of a file brings the terminal back under 0.
terminal_back : handle_for_fd (close 0 (dup 3 0 0 false table world).1 world).1 0 ≡ some terminal
unfolding handle_for_fd close dup on_handle dup_install install_copy install close_old clone_handle
terminal_back = refl
