-- ===== src/Descriptors.antt =====
-- internal/kernel/syscall.go with its callbacks, and internal/kernel/syscalls/io: the descriptors of a
-- kernel. Go's maps are functions; `bound` is above every descriptor in `fds`. What handles share is a
-- world: the pipes by number, and which files are closed. A pipe handle stands in one descriptor, since
-- `cloneHandle` makes a new one, and is open there; any other handle is shared by those that `dup` it.
pub mod Ends
pub mod Inherit
pub mod Lowest
pub mod Counted
pub mod Keeps
pub mod Loops
pub mod Fork
pub mod NewPipe
pub mod Calls
pub mod Files
mod Tests
use ish_port_go.Prelude.{
  ℕ, zero, suc, ◌+◌, ◌-◌, ◌^◌, max, Bool, true, false, ◌&&◌, ◌||◌, not, ◌==◌, ltb, leb,
  if◌then◌else◌, Option, none, some, Result, ok, err, has, and_not, nonzero, add32,
}
use ish_port_go.Prelude.Int.{ℤ, pos, negsuc}
use ish_port_go.Memory.{Memory, write32}
use ish_port_go.Pipe.{PipeBuffer, PipeEnd, new_pipe_pair, clone_end, close_end}

-- `ttyHandle`, `pipeHandle`, and by a number for the value in memory an `*os.File`, and a
-- `virtualHandle`, `nullHandle` or `zeroHandle`, whose `Close` does nothing.
pub data Handle : Type 0 where
  terminal : Handle
  pipe_end : ℕ → PipeEnd → Handle
  file virtual : ℕ → Handle

pub record Table : Type 0 where
  pub fds : ℕ → Option Handle
  pub bound : ℕ
  pub closed : ℕ → Bool
  pub cloexec : ℕ → Bool
  pub next_fd : ℕ
  pub has_tty : Bool

pub record World : Type 0 where
  pub pipes : ℕ → PipeBuffer
  pub next_pipe : ℕ
  pub file_closed : ℕ → Bool

-- m[k] = v
abbrev pub update : {A : Type 0} → (ℕ → A) → ℕ → A → ℕ → A
update m k v j = if j == k then v else m j

abbrev pub set_fd : Table → ℕ → Handle → Table
set_fd t fd h = record t { fds = update t.fds fd (some h); bound = max t.bound (fd + 1) }

-- handle.Close()
unfoldable pub close_handle : Handle → World → World
close_handle terminal w = w
close_handle (pipe_end p h) w = record w { pipes = update w.pipes p (close_end h (w.pipes p)).1 }
close_handle (virtual v) w = w
close_handle (file f) w = record w { file_closed = update w.file_closed f true }

unfoldable pub clone_handle : Handle → World → Handle × World
clone_handle terminal w = (terminal, w)
clone_handle (pipe_end p h) w =
    let (copy, buffer) = clone_end h (w.pipes p) in
    (pipe_end p copy, record w { pipes = update w.pipes p buffer })
clone_handle (file f) w = (file f, w)
clone_handle (virtual v) w = (virtual v, w)

unfoldable pub handle_for_fd : Table → ℕ → Option Handle
handle_for_fd t fd = elim (t.fds fd) [
  | some h ↦ some h
  | none ↦ if t.closed fd then none else if leb fd 2 && t.has_tty then some terminal else none
]

abbrev pub is_some : {A : Type 0} → Option A → Bool
is_some none = false
is_some (some a) = true

unfoldable pub valid_fd : Table → ℕ → Bool
valid_fd t fd = is_some (handle_for_fd t fd)

-- The two tests by which `allocateFD` passes over a descriptor.
unfoldable pub is_taken : Table → ℕ → Bool
is_taken t fd = is_some (t.fds fd) || (leb fd 2 && t.has_tty && not (t.closed fd))

-- The loop of `allocateFD`, for the rounds before the descriptors that are surely free.
unfoldable pub allocate_from : Table → ℕ → ℕ → ℕ
allocate_from t zero fd = fd
allocate_from t (suc rounds) fd =
    let later = allocate_from t rounds (fd + 1) in if is_taken t fd then later else fd

-- No descriptor from the bound on, and above 2, is taken.
unfoldable pub allocate_fd : Table → ℕ → ℕ
unfolding allocate_from is_taken
allocate_fd t start = allocate_from t (max t.bound 3 - start) start

-- A handle put under a descriptor, which is open from then on.
unfoldable pub install : ℕ → Handle → Bool → Table → Table
install fd h cloexec t =
    let t' = set_fd t fd h in
    record t' {
      closed = update t.closed fd false;
      cloexec = update t.cloexec fd cloexec;
      next_fd = if leb t.next_fd fd then fd + 1 else t.next_fd;
    }

-- What `open` does with the handle of the file that it has opened.
unfoldable pub install_open : Handle → Table → ℤ × Table
install_open h t =
    let fd = allocate_fd t 0 in
    let t' = set_fd t fd h in
    (
      pos fd,
      record t' {
        closed = update t.closed fd false;
        next_fd = if leb t.next_fd fd then fd + 1 else t.next_fd;
      },
    )

-- EBADF, EINVAL and EFAULT, negated
abbrev pub bad_fd : ℤ
bad_fd = negsuc 8

abbrev pub invalid : ℤ
invalid = negsuc 21

abbrev pub fault : ℤ
fault = negsuc 13

-- `if !ok { return without }`, of a handle that is looked up
unfoldable pub on_handle :
    Option Handle → ℤ × Table × World → (Handle → ℤ × Table × World) → ℤ × Table × World
on_handle none without found = without
on_handle (some h) without found = found h

-- The handles of two descriptors are one value in memory.
unfoldable pub same_handle : Handle → Handle → Bool
same_handle terminal terminal = true
same_handle (file f) (file g) = f == g
same_handle (virtual u) (virtual v) = u == v
same_handle _ _ = false

-- What stands under the new descriptor is closed, unless it is the same handle.
unfoldable pub close_old : Option Handle → Handle → World → World
close_old none h w = w
close_old (some old) h w = if same_handle old h then w else close_handle old w

unfoldable pub install_copy : ℕ → Bool → Table → Handle × World → ℤ × Table × World
install_copy fd cloexec t (h, w) = (pos fd, install fd h cloexec t, w)

-- `dupInstall`, of the handle of the old descriptor
unfoldable pub dup_install : Handle → ℕ → ℕ → Bool → Table → World → ℤ × Table × World
unfolding install_copy
dup_install h new_fd flags dup3 t w =
    install_copy new_fd (dup3 && has flags 0x80000) t
      (clone_handle h (close_old (t.fds new_fd) h w))

-- `Dup`; a descriptor of the guest is not negative
unfoldable pub dup : ℕ → ℕ → ℕ → Bool → Table → World → ℤ × Table × World
unfolding on_handle
dup old_fd new_fd flags dup3 t w =
    if not (flags == 0) && not (flags == 0x80000)
    then (invalid, t, w)
    else if old_fd == new_fd
    then (if not dup3 && valid_fd t old_fd then (pos new_fd, t, w) else (invalid, t, w))
    else on_handle (handle_for_fd t old_fd) (bad_fd, t, w)
        (λ h. dup_install h new_fd flags dup3 t w)

-- The descriptor taken out of the three maps.
unfoldable pub forget : ℕ → Table → Table
forget fd t = record t {
  fds = update t.fds fd none;
  closed = update t.closed fd false;
  cloexec = update t.cloexec fd false;
}

-- `Close`, of `closeDescriptor` and `closeTTY`
unfoldable pub close : ℕ → Table → World → ℤ × Table × World
unfolding forget on_handle
close fd t w =
    on_handle (t.fds fd)
      (if ltb 2 fd || not t.has_tty || t.closed fd
        then (bad_fd, t, w)
        else (pos 0, record t { closed = update t.closed fd true }, w))
      (λ h. (pos 0, forget fd t, close_handle h w))

-- F_DUPFD and F_DUPFD_CLOEXEC, of the handle of the descriptor
unfoldable pub fcntl_dup : Handle → Bool → ℕ → Table → World → ℤ × Table × World
unfolding install_copy
fcntl_dup h cloexec argument t w =
    install_copy (allocate_fd t argument) cloexec t (clone_handle h w)

-- F_GETFD, F_SETFD, F_GETFL and F_SETFL
unfoldable pub fcntl_flags : ℕ → ℕ → ℕ → Table → ℤ × Table
fcntl_flags fd command argument t =
    if command == 1
    then (if t.cloexec fd then pos 1 else pos 0, t)
    else if command == 2
    then (if nonzero (and_not argument 1)
        then (invalid, t)
        else (pos 0, record t { cloexec = update t.cloexec fd (has argument 1) }))
    else (pos 0, t)

unfoldable pub fcntl : ℕ → ℕ → ℕ → Table → World → ℤ × Table × World
unfolding on_handle
fcntl fd command argument t w =
    if leb 1 command && leb command 4
    then (if valid_fd t fd
        then (let (reply, t') = fcntl_flags fd command argument t in (reply, t', w))
        else (bad_fd, t, w))
    else if not (command == 0) && not (command == 1030)
    then (invalid, t, w)
    else if ltb (2 ^ 20) argument
    then (invalid, t, w)
    else on_handle (handle_for_fd t fd) (bad_fd, t, w)
        (λ h. fcntl_dup h (command == 1030) argument t w)
