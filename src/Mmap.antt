-- ===== src/Mmap.antt =====
-- internal/kernel/syscalls/memory: the length and the rights of a mapping call, `Munmap` and
-- `Mprotect`. The result 0 is `ok` with the space after the call, and -22 is `err invalid_argument`,
-- which leaves the space as it was; the test for a nil space has no counterpart.
pub mod Laws
mod Tests
use ish_port_go.Prelude.{
  ℕ, ◌+◌, ◌-◌, ◌^◌, Bool, not, Option, none, some, ◌==◌, ◌||◌, ltb, if◌then◌else◌, Result, ok, err,
  invalid_argument, add32, and_not, bit_and, bit_or, nonzero, has, not32,
}
use ish_port_go.AddressSpace.{AddressSpace, remove, protect, prot_read, prot_write, prot_exec}

unfoldable pub page_length : ℕ → Option ℕ
page_length length =
    if length == 0 || ltb (not32 0 - 4094) length
    then none
    else some (and_not (add32 length 4095) 4095)

unfoldable pub prot : ℕ → ℕ
prot flags =
    let p = if has flags 1 then prot_read else 0 in
    let q = if has flags 2 then bit_or p prot_write else p in
    if has flags 4 then bit_or q prot_exec else q

-- What either call makes of the result of the operation on the space.
abbrev pub reply : Result AddressSpace → Result AddressSpace
reply (ok a) = ok a
reply (err e) = err invalid_argument

unfoldable pub munmap : AddressSpace → ℕ → ℕ → Result AddressSpace
munmap a addr length = elim (page_length length) [
  | none ↦ err invalid_argument
  | some size ↦
      if nonzero (bit_and addr 0xfff) then err invalid_argument else reply (remove a addr size)
]

unfoldable pub mprotect : AddressSpace → ℕ → ℕ → ℕ → Result AddressSpace
mprotect a addr length flags = elim (page_length length) [
  | none ↦ err invalid_argument
  | some size ↦
      if nonzero (bit_and addr 0xfff)
      then err invalid_argument
      else reply (protect a addr size (prot flags))
]
