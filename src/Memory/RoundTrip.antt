-- ===== src/Memory/RoundTrip.antt =====
-- Reads after writes, and when an access is allowed.
use ish_port_go.Prelude.{
  ℕ, ◌+◌, ◌≤◌, ◌<◌, ◌^◌, ◌≡◌, refl, true, List, arith, length, ap, ◌⊎◌, ok, err, Result, ◌↔◌, ◌>>=◌,
}
use ish_port_go.AddressSpace.{check_range, prot_read, prot_write}
use ish_port_go.AddressSpace.Valid.{IsValid}
use ish_port_go.AddressSpace.Access.{IsAllowed, check_range_iff}
use ish_port_go.Memory.{
  Memory, check, check_access, read32, write32, read_bytes, write_bytes, slice, copy_to, of_bytes,
  to_bytes,
}
use ish_port_go.Memory.Bytes.{
  length-copy_to, slice-copy_to, slice-copy_to_apart, of_bytes-to_bytes, length-to_bytes,
}

-- The memory after a write of bytes.
abbrev pub written : Memory → ℕ → List ℕ → Memory
written m a vs = record m { bytes = copy_to m.bytes a vs }

pub check_access-written :
    (m : Memory) (a : ℕ) (vs : List ℕ) (b width prot : ℕ)
    → check_access (written m a vs) b width prot ≡ check_access m b width prot
unfolding check_access check
check_access-written m a vs b width prot = rw (length-copy_to m.bytes a vs)

check_access-inside :
    (m : Memory) (a width prot : ℕ)
    → check_access m a width prot ≡ ok tt
    → a + width ≤ length m.bytes
unfolding check_access check
check_access-inside m a width prot e = ground arith

pub write_bytes-inv :
    (m : Memory) (a : ℕ) (vs : List ℕ) (n : Memory)
    → write_bytes m a vs ≡ ok n
    → (check_access m a (length vs) prot_write ≡ ok tt)
      × (a + length vs ≤ length m.bytes)
      × (n ≡ written m a vs)
unfolding write_bytes
write_bytes-inv m a vs n e = ground (arith, check_access-inside m a (length vs) prot_write)

-- `Write32` writes the four bytes of its value.
pub write32-eq-write_bytes : (m : Memory) (a v : ℕ) → write32 m a v ≡ write_bytes m a (to_bytes 4 v)
unfolding write32 write_bytes
write32-eq-write_bytes m a v = rw (length-to_bytes 4 v)

-- `Read32` reads four bytes.
abbrev pub number_of : Result (List ℕ) → Result ℕ
number_of r = r >>= λ bs. ok (of_bytes bs)

read32-eq-read_bytes : (m : Memory) (a : ℕ) → read32 m a ≡ number_of (read_bytes m a 4)
unfolding read32 read_bytes
read32-eq-read_bytes m a =
    elim (check_access m a 4 prot_read)
      as (λ r.
        (r >>= λ _. ok (of_bytes (slice m.bytes a 4)))
        ≡ number_of (r >>= λ _. ok (slice m.bytes a 4))) [ ok u ↦ refl | err e ↦ refl ]

read_back :
    (m : Memory) (a : ℕ) (vs : List ℕ)
    → a + length vs ≤ length m.bytes
    → check_access m a (length vs) prot_read ≡ ok tt
    → read_bytes (written m a vs) a (length vs) ≡ ok vs
unfolding read_bytes
read_back m a vs room access =
    rw
      (check_access-written m a vs a (length vs) prot_read, access, slice-copy_to m.bytes a vs room)

read_apart :
    (m : Memory) (a : ℕ) (vs : List ℕ) (b k : ℕ)
    → (b + k ≤ a) ⊎ (a + length vs ≤ b)
    → read_bytes (written m a vs) b k ≡ read_bytes m b k
unfolding read_bytes
read_apart m a vs b k apart =
    rw (check_access-written m a vs b k prot_read, slice-copy_to_apart m.bytes a vs b k apart)

-- A successful `WriteBytes` is read back where the range is readable; it changes neither the size,
-- nor the protection, nor what a read of any range apart from it returns.
pub read_bytes-write_bytes :
    (m : Memory) (a : ℕ) (vs : List ℕ) (n : Memory)
    → write_bytes m a vs ≡ ok n
    → (length n.bytes ≡ length m.bytes)
      × (n.protected ≡ m.protected)
      × (n.space ≡ m.space)
      × (check_access m a (length vs) prot_read ≡ ok tt → read_bytes n a (length vs) ≡ ok vs)
      × ((b k : ℕ) → (b + k ≤ a) ⊎ (a + length vs ≤ b) → read_bytes n b k ≡ read_bytes m b k)
read_bytes-write_bytes m a vs n e =
    let (access, room, same) = write_bytes-inv m a vs n e in
    rw same (length-copy_to m.bytes a vs, refl, refl, read_back m a vs room, read_apart m a vs)

-- A successful `Write32` of a 32-bit value is read back by `Read32` where the word is readable, and
-- `Read32` of a word apart from it returns what it returned before.
pub read32-write32 :
    (m : Memory) (a v : ℕ) (n : Memory)
    → v < 2 ^ 32
    → write32 m a v ≡ ok n
    → (check_access m a 4 prot_read ≡ ok tt → read32 n a ≡ ok v)
      × ((b : ℕ) → (b + 4 ≤ a) ⊎ (a + 4 ≤ b) → read32 n b ≡ read32 m b)
read32-write32 m a v n fits e =
    let len = length-to_bytes 4 v in
    let (access, room, same) =
      write_bytes-inv m a (to_bytes 4 v) n (rw write32-eq-write_bytes at e) in
    let back = rw len at (read_back m a (to_bytes 4 v) room) in
    let apart = rw len at (read_apart m a (to_bytes 4 v)) in
    rw same (
      λ h. rw (read32-eq-read_bytes, back h) (ap ok (of_bytes-to_bytes 4 v fits)),
      λ b h. rw (read32-eq-read_bytes, read32-eq-read_bytes, apart b 4 h),
    )

-- A `Write32` changes no access right.
pub write32-check_access :
    (m : Memory) (a v : ℕ) (n : Memory) (b width prot : ℕ)
    → write32 m a v ≡ ok n
    → check_access n b width prot ≡ check_access m b width prot
write32-check_access m a v n b width prot e =
    let (access, room, same) =
      write_bytes-inv m a (to_bytes 4 v) n (rw write32-eq-write_bytes at e) in
    rw same (check_access-written m a (to_bytes 4 v) b width prot)

check_access-protected :
    (m : Memory) (a width prot : ℕ)
    → m.protected ≡ true
    → 0 < width
    → (check_access m a width prot ≡ ok tt)
      ↔ ((a + width ≤ length m.bytes) × (check_range m.space a width prot ≡ ok tt))
unfolding check_access check
check_access-protected m a width prot on p = ground arith

-- With protection on and a well formed space, an access to a range that is not empty passes exactly
-- if the range lies inside the bytes and inside the space and each of its addresses is mapped with
-- all the rights asked for.
pub check_access_iff :
    (m : Memory) (a width prot : ℕ)
    → m.protected ≡ true
    → IsValid m.space
    → 0 < width
    → (check_access m a width prot ≡ ok tt) ↔ (
        (a + width ≤ length m.bytes)
        × (a + width ≤ m.space.max)
        × ((x : ℕ) → a ≤ x → x < a + width → IsAllowed m.space.mappings prot x))
check_access_iff m a width prot on v p =
    let range = check_range_iff m.space a width prot v p in
    let step = check_access-protected m a width prot on p in
    (
      λ e.
          let (inside, checked) = step.0 e in
          let (top, all) = range.0 checked in (inside, top, all),
      λ t. step.1 (t.0, range.1 (t.1, t.2)),
    )
