-- ===== src/Memory.antt =====
-- internal/i386/memory.go: the bytes of a guest, bounds-checked, and permission-checked once
-- protection is enabled. `Memory` and `AddressSpace` point at each other in the source; here the
-- memory holds the metadata of its address space.

pub mod Bytes
pub mod RoundTrip
pub mod Kept
mod Tests
use ish_port_go.Prelude.{
  ℕ, zero, suc, ◌+◌, ◌-◌, ◌*◌, ◌/◌, ◌%◌, Bool, true, false, ◌||◌, not, List, [], ◌∷◌, ltb, leb,
  ◌==◌, if◌then◌else◌, length, get_or, set, take, drop, Result, ok, err, ◌>>=◌, ◌>>◌, fail_if,
  memory_fault, not_terminated, replicate,
}
use ish_port_go.AddressSpace.{
  AddressSpace, check_range, check_from, prot_read, prot_write, prot_exec,
}

pub record Memory : Type 0 where
  pub bytes : List ℕ
  pub protected : Bool
  pub space : AddressSpace

-- `NewMemory`
unfoldable pub new_memory : ℕ → AddressSpace → Memory
new_memory size space = record {
  bytes = replicate (if size == 0 then 1 else size) 0;
  protected = false;
  space = space;
}

unfoldable pub size : Memory → ℕ
size m = length m.bytes

unfoldable pub check : Memory → ℕ → ℕ → Result (Unit {0})
check m addr width =
    fail_if (ltb (length m.bytes) addr || ltb (length m.bytes - addr) width) memory_fault

unfoldable pub check_access : Memory → ℕ → ℕ → ℕ → Result (Unit {0})
check_access m addr width prot = do
  check m addr width
  if not m.protected || width == 0 then ok tt else check_range m.space addr width prot

-- `Memory.EnableProtection`, as `AddressSpace.EnableProtection` calls it
unfoldable pub enable_protection : Memory → Memory
enable_protection m = record m { protected = true }

-- m.data[addr:addr+n], in range
unfoldable pub slice : List ℕ → ℕ → ℕ → List ℕ
slice d addr zero = []
slice d addr (suc n) = get_or d addr 0 ∷ slice d (addr + 1) n

-- copy(m.data[addr:], value), in range
unfoldable pub copy_to : List ℕ → ℕ → List ℕ → List ℕ
copy_to d addr [] = d
copy_to d addr (v ∷ vs) = copy_to (set d addr v) (addr + 1) vs

-- `binary.LittleEndian`: the number of some bytes, and the `n` bytes of a number
unfoldable pub of_bytes : List ℕ → ℕ
of_bytes [] = 0
of_bytes (b ∷ bs) = b + 256 * of_bytes bs

unfoldable pub to_bytes : ℕ → ℕ → List ℕ
to_bytes zero v = []
to_bytes (suc n) v = v % 256 ∷ to_bytes n (v / 256)

unfoldable pub read_raw : Memory → ℕ → ℕ → Result (List ℕ)
read_raw m addr size = do check m addr size; ok (slice m.bytes addr size)

unfoldable pub write_raw : Memory → ℕ → List ℕ → Result Memory
write_raw m addr value = do
  check m addr (length value)
  ok (record m { bytes = copy_to m.bytes addr value })

unfoldable pub fetch8 : Memory → ℕ → Result ℕ
fetch8 m addr = do check_access m addr 1 prot_exec; ok (get_or m.bytes addr 0)

unfoldable pub read8 : Memory → ℕ → Result ℕ
read8 m addr = do check_access m addr 1 prot_read; ok (get_or m.bytes addr 0)

unfoldable pub read_bytes : Memory → ℕ → ℕ → Result (List ℕ)
read_bytes m addr size = do check_access m addr size prot_read; ok (slice m.bytes addr size)

unfoldable pub read16 : Memory → ℕ → Result ℕ
read16 m addr = do check_access m addr 2 prot_read; ok (of_bytes (slice m.bytes addr 2))

unfoldable pub read32 : Memory → ℕ → Result ℕ
read32 m addr = do check_access m addr 4 prot_read; ok (of_bytes (slice m.bytes addr 4))

unfoldable pub write_bytes : Memory → ℕ → List ℕ → Result Memory
write_bytes m addr value = do
  check_access m addr (length value) prot_write
  ok (record m { bytes = copy_to m.bytes addr value })

unfoldable pub write8 : Memory → ℕ → ℕ → Result Memory
write8 m addr value = do
  check_access m addr 1 prot_write
  ok (record m { bytes = set m.bytes addr value })

unfoldable pub write16 : Memory → ℕ → ℕ → Result Memory
write16 m addr value = do
  check_access m addr 2 prot_write
  ok (record m { bytes = copy_to m.bytes addr (to_bytes 2 value) })

unfoldable pub write32 : Memory → ℕ → ℕ → Result Memory
write32 m addr value = do
  check_access m addr 4 prot_write
  ok (record m { bytes = copy_to m.bytes addr (to_bytes 4 value) })

-- The loop of `ReadCString` from `end`, with the bytes left up to its limit: where it stops.
unfoldable pub scan_string : Memory → ℕ → ℕ → Result ℕ
scan_string m zero end = ok end
scan_string m (suc left) end =
    let rest = scan_string m left (end + 1) in
    do value ← read8 m end; if value == 0 then ok end else rest

unfoldable pub read_cstring : Memory → ℕ → ℕ → Result (List ℕ)
read_cstring m addr max = if max == 0 then ok [] else do
  check m addr 1
  let left = if ltb max (length m.bytes - addr) then max else length m.bytes - addr
  end ← scan_string m left addr
  if end == addr + left then err not_terminated else ok (slice m.bytes addr (end - addr))

-- `AddressSpace.Clone`: the bytes and the mappings are copied, the protection with them.
unfoldable pub clone : Memory → Memory
clone m = record (new_memory (length m.bytes) m.space) {
  bytes = copy_to (new_memory (length m.bytes) m.space).bytes 0 (slice m.bytes 0 (length m.bytes));
  protected = m.protected;
}
