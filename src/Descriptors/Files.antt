-- ===== src/Descriptors/Files.antt =====
-- internal/kernel/syscall.go: what a close does to the descriptors, and to a file that two of them share.
use ish_port_go.Prelude.{
  ℕ, ◌≡◌, ◌≢◌, arith, true, false, ◌&&◌, if◌then◌else◌, none, some, ◌==◌, leb,
}
use ish_port_go.Prelude.Int.{pos}
use ish_port_go.Descriptors.{
  Handle, terminal, file, Table, World, handle_for_fd, valid_fd, is_some, close, forget, on_handle,
  bad_fd, dup, close_handle, clone_handle, close_old, dup_install, install, install_copy,
}

module _ (fd : ℕ) (t : Table) (w : World) where
  close-invalid : valid_fd t fd ≡ false → close fd t w ≡ (bad_fd, t, w)
  unfolding close on_handle valid_fd handle_for_fd
  close-invalid invalid_fd = ground (arith, invalid_fd)

  close-reply : valid_fd t fd ≡ true → (close fd t w).0 ≡ pos 0
  unfolding close on_handle valid_fd handle_for_fd
  close-reply is_valid = ground (arith, is_valid)

  close-others : (j : ℕ) → j ≢ fd → handle_for_fd (close fd t w).1 j ≡ handle_for_fd t j
  unfolding close on_handle handle_for_fd forget
  close-others j apart = ground (arith, apart)

  close-itself :
      valid_fd t fd ≡ true
      → handle_for_fd (close fd t w).1 fd
        ≡ (if is_some (t.fds fd) && leb fd 2 && t.has_tty then some terminal else none)
  unfolding close on_handle valid_fd handle_for_fd forget
  close-itself is_valid = ground (arith, is_valid)

  -- A close of a descriptor that stands for nothing reports EBADF and changes nothing. Any other returns
  -- 0 and leaves every other descriptor what it stands for; the descriptor then stands for nothing,
  -- unless it is a standard one of a kernel with a terminal and had a handle of its own: then it stands
  -- for the terminal.
  pub close_lem :
      (valid_fd t fd ≡ false → close fd t w ≡ (bad_fd, t, w))
      × (valid_fd t fd ≡ true
          → ((close fd t w).0 ≡ pos 0)
            × ((j : ℕ) → j ≢ fd → handle_for_fd (close fd t w).1 j ≡ handle_for_fd t j)
            × (handle_for_fd (close fd t w).1 fd
                ≡ (if is_some (t.fds fd) && leb fd 2 && t.has_tty then some terminal else none)))
  close_lem =
      (close-invalid, λ is_valid. (close-reply is_valid, close-others, close-itself is_valid))

handle_for_fd-fds :
    (t : Table) (fd : ℕ) (h : Handle) → t.fds fd ≡ some h → handle_for_fd t fd ≡ some h
unfolding handle_for_fd
handle_for_fd-fds t fd h there = rw (there, handle_for_fd)

dup_file :
    (old_fd new_fd f : ℕ) (t : Table) (w : World)
    → t.fds old_fd ≡ some (file f)
    → old_fd ≢ new_fd
    → dup old_fd new_fd 0 false t w
      ≡ (pos new_fd, install new_fd (file f) false t, close_old (t.fds new_fd) (file f) w)
unfolding dup on_handle dup_install install_copy clone_handle
dup_file old_fd new_fd f t w there apart =
    let other : old_fd == new_fd ≡ false = ground (arith, apart) in
    rw (other, handle_for_fd-fds t old_fd (file f) there)

close_copied :
    (old_fd new_fd f : ℕ) (t : Table) (w : World)
    → t.fds old_fd ≡ some (file f)
    → old_fd ≢ new_fd
    → (handle_for_fd (close old_fd (install new_fd (file f) false t) w).1 new_fd ≡ some (file f))
      × ((close old_fd (install new_fd (file f) false t) w).2.file_closed f ≡ true)
unfolding install close on_handle forget close_handle handle_for_fd
close_copied old_fd new_fd f t w there apart =
    (ground (arith, there, apart), ground (arith, there, apart))

-- After dup2 of a descriptor of a file to another one, and close of the first, the second descriptor
-- stands for the file, and the file is closed.
pub close-dup :
    (old_fd new_fd f : ℕ) (t : Table) (w : World)
    → t.fds old_fd ≡ some (file f)
    → old_fd ≢ new_fd
    → (let (reply, u, v) = dup old_fd new_fd 0 false t w in
        (handle_for_fd (close old_fd u v).1 new_fd ≡ some (file f))
        × ((close old_fd u v).2.file_closed f ≡ true))
close-dup old_fd new_fd f t w there apart =
    rw (dup_file old_fd new_fd f t w there apart)
      (close_copied old_fd new_fd f t (close_old (t.fds new_fd) (file f) w) there apart)
