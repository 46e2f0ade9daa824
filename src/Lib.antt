-- ===== src/Lib.antt =====
-- A model of the Go port of iSH: an i386 guest that runs under an interpreter, with the Linux system
-- calls that its programs make. Paths are from the repository's root.
--
-- AddressSpace     internal/i386/address_space.go: `Add`, `Remove`, `Protect`, `FindHole`,
--                  `checkRange`, `MapAnonymous` on the list of mappings. AddressSpace/Valid holds the
--                  invariant and the view that the other files compare operations by.
-- Memory           internal/i386/memory.go: the bytes, and the check of each access against the
--                  address space. The source's two structs point at each other; here the memory
--                  holds its address space.
-- Cpu/Flags        internal/i386/cpu.go: the setters of the arithmetic flags, and `condition`. A
--                  setter is a function of the old `EFLAGS`.
-- Cpu, Cpu/Stack   internal/i386/cpu.go: the state of the interpreter, `push` and `pop`.
-- Cpu/Operand      internal/i386/cpu.go: the fetches, `decodeModRM`, reading and writing operands.
-- Cpu/Count        internal/i386/cpu.go: INC and DEC of a register, two cases of `Step`.
-- Cpu/Exec         what a case of `Step` does, as an action on the CPU that returns or fails and keeps
--                  what it has changed; Cpu/Exec/Confines and Primitives say what actions may change.
-- Cpu/Step         internal/i386/cpu.go: `Step`, its prefixes and its cases by families of opcodes.
--                  The x87 instructions and `OnSyscall` are parameters.
-- Cpu/X87          internal/i386/cpu.go: the stack of x87 registers and `stepX87`; Go's `float64` and its
--                  `math` are a parameter. Cpu/X87/Machine has the stack as a list, and the rules by
--                  which an instruction is compared with an operation on the list.
-- Cpu/Run          internal/i386/cpu.go: `Step` with the x87 instructions in it, and `Run`.
-- Cpu/Safety       what the cases of `Step` may change, family by family.
-- Signal           internal/kernel/signal.go: `DeliverSignal` and `rt_sigreturn`, over Memory and
--                  Cpu. What `math` does with a `float64` is a parameter.
-- Signal/Pending   internal/kernel/syscall.go: the pending signals of a kernel, its mask and its actions.
-- Mmap             internal/kernel/syscalls/memory: `PageLength`, `Prot`, `Munmap`, `Mprotect`.
-- Remap            internal/kernel/syscall.go: `mmap2` and `mremap`. The bytes that `ReadAt` of a file
--                  returns are a parameter.
-- Pipe             internal/kernel/handles.go: `pipeBuffer` and `pipeHandle`. A locked section is one
--                  step; a call that waits is a round which the caller repeats.
-- Descriptors      internal/kernel/syscall.go with its callbacks, and internal/kernel/syscalls/io: the
--                  table of descriptors, `allocateFD`, `Dup`, `Close`, `fcntl`, `pipe`, and what `execve`,
--                  the end of a process and `CloneForChild` do to it, over the pipes of Pipe. Files on the
--                  host, and the virtual files whose `Close` does nothing, are numbers.
--                  Descriptors/Calls has the calls that a kernel can make.
-- Scheduler        internal/guest/scheduler.go: the tasks, `fork`, `clone`, `wait4` and `Step`. What
--                  a process does when it runs is an interface; Scheduler/Moves has the steps that a
--                  run of processes can take, and the other files what every run keeps.
-- Process          internal/guest/process.go: `Process.Step`, over Signal/Pending, Signal and Descriptors.
--                  `CPU.Step` with the kernel's system calls and `TryResumeBlocked` are parameters.
-- Futex            internal/kernel/syscall.go: `futex` and `TryResumeBlockedFutex` of a kernel that knows
--                  the scheduler. Channels are numbers; the memory and the time are arguments.
-- Pty              internal/pty/pty.go: the two queues of the terminal and when a read waits.
-- Prelude          tests on numbers, lists by number, words that wrap, bits, results.
--
-- A `uint32` is a number, with `% 2 ^ 32` written out where the source can wrap. A returned error is
-- `err`; a method that changes its receiver returns the new one. Slices are lists; `Remove` filters
-- its array in place, and its model writes to the array that it still reads.
--
-- Fuel: `checkRange` has one round for each byte of the range, and each round passes one; the
-- parity loop has eight, and each clears a bit of a byte; the loop of a pipe's `Write` has three: one
-- that appends, one that returns, and one to spare.
--
-- The loop of `Step` over prefixes has two rounds more than the memory has bytes; each moves EIP up,
-- and the fetch past the end fails. The repeated string instructions recurse on their count.
--
-- The loop of `mremap` over the mappings of the old range has one round for each byte of the range,
-- and each round moves up by a byte at least.
--
-- `Run` has one round for each step that is left to its limit, and one to end by; each step counts.
--
-- `allocateFD` has the rounds up to the bound of the descriptors, or to 3: from there on none is taken.
--
-- Not modelled: the completion of blocked pipe calls and waits; the futex wait of a kernel without a
-- scheduler, which waits on host timers; the ELF loader, the file system and the shells, which are
-- host input and output for the greater part.
pub mod Prelude
pub mod AddressSpace
pub mod Memory
pub mod Cpu
pub mod Pipe
pub mod Signal
pub mod Mmap
pub mod Remap
pub mod Scheduler
pub mod Descriptors
pub mod Process
pub mod Futex
pub mod Pty
