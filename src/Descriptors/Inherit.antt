-- ===== src/Descriptors/Inherit.antt =====
-- internal/kernel/syscall.go: the descriptors at `execve`, at the end of a process, and of its children.
use ish_port_go.Prelude.{
  ℕ, zero, suc, Bool, true, false, ◌&&◌, not, if◌then◌else◌, Option, none, some,
}
use ish_port_go.Descriptors.{Handle, Table, World, update, close_handle, clone_handle}

-- One round of `CloseCloexec` and `CloseOnExit`: the handle of a descriptor that is chosen.
unfoldable pub close_if : Bool → Option Handle → World → World
close_if false o w = w
close_if true none w = w
close_if true (some h) w = close_handle h w

-- The rounds for the descriptors below a bound.
unfoldable pub close_chosen : (ℕ → Bool) → (ℕ → Option Handle) → ℕ → World → World
unfolding close_if
close_chosen chosen fds zero w = w
close_chosen chosen fds (suc n) w = close_if (chosen n) (fds n) (close_chosen chosen fds n w)

unfoldable pub close_cloexec : Table → World → Table × World
unfolding close_chosen
close_cloexec t w = (
  record t {
    fds = λ fd. if t.cloexec fd then none else t.fds fd;
    cloexec = λ fd. false;
    closed = λ fd. not (t.cloexec fd) && t.closed fd;
  },
  close_chosen t.cloexec t.fds t.bound w,
)

unfoldable pub close_on_exit : Table → World → Table × World
unfolding close_chosen
close_on_exit t w = (record t { fds = λ fd. none }, close_chosen (λ fd. true) t.fds t.bound w)

-- One round of `CloneForChild`: a copy of the handle of a descriptor.
unfoldable pub clone_if : Option Handle → World → Option Handle × World
clone_if none w = (none, w)
clone_if (some h) w = let (copy, after) = clone_handle h w in (some copy, after)

-- The rounds for the descriptors below a bound: the handles of the child and the world after them.
unfoldable pub clone_below : (ℕ → Option Handle) → ℕ → World → (ℕ → Option Handle) × World
unfolding clone_if
clone_below fds zero w = (λ fd. none, w)
clone_below fds (suc n) w =
    let (copies, w') = clone_below fds n w in
    let (copy, after) = clone_if (fds n) w' in (update copies n copy, after)

unfoldable pub clone_for_child : Table → World → Table × World
unfolding clone_below
clone_for_child t w =
    let (copies, w') = clone_below t.fds t.bound w in (record t { fds = copies }, w')

-- A thread shares the maps; the copies that `CloneForChild` has made for it stay without a descriptor.
unfoldable pub clone_for_thread : Table → World → Table × World
clone_for_thread t w = (t, (clone_for_child t w).1)
