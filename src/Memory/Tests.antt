-- ===== src/Memory/Tests.antt =====
-- Runs of the memory model, and the witnesses of its properties.
use ish_port_go.Prelude.{
  ℕ, ◌+◌, ◌≤◌, ◌<◌, ◌≡◌, ◌⊎◌, ◌↔◌, refl, true, [], ◌∷◌, arith, length, ok, err, protection_fault,
  replicate,
}
use ish_port_go.AddressSpace.{AddressSpace, check_range, check_from, mapping_at_in, prot_read}
use ish_port_go.AddressSpace.Access.{IsAllowed}
use ish_port_go.Memory.{Memory, check, check_access, copy_to, read_bytes, write_bytes}
use ish_port_go.Memory.RoundTrip.{read_bytes-write_bytes, check_access_iff}

abbrev layout : AddressSpace
layout = record {
  mappings =
      record { start = 0; end = 8; prot = 1; name = "text" }
      ∷ record { start = 8; end = 24; prot = 3; name = "data" }
      ∷ [];
  max = 32;
  next_hint = 24;
}

-- 32 bytes, with protection on
abbrev guest : Memory
guest = record { bytes = replicate 32 0; protected = true; space = layout }

abbrev stored : Memory
stored = record guest {
  bytes = 0 ∷ 0 ∷ 0 ∷ 0 ∷ 0 ∷ 0 ∷ 0 ∷ 0 ∷ 0 ∷ 0 ∷ 0x78 ∷ 0x56 ∷ 0x34 ∷ 0x12 ∷ replicate 18 0;
}

write_bytes-text : write_bytes guest 4 (1 ∷ []) ≡ err protection_fault
unfolding write_bytes check_access check check_range check_from mapping_at_in
write_bytes-text = refl

read_bytes-write_bytes_example :
    (length stored.bytes ≡ length guest.bytes)
    × (stored.protected ≡ guest.protected)
    × (stored.space ≡ guest.space)
    × (check_access guest 10 4 prot_read ≡ ok tt
        → read_bytes stored 10 4 ≡ ok (0x78 ∷ 0x56 ∷ 0x34 ∷ 0x12 ∷ []))
    × ((b k : ℕ) → (b + k ≤ 10) ⊎ (10 + 4 ≤ b) → read_bytes stored b k ≡ read_bytes guest b k)
unfolding write_bytes check_access check check_range check_from mapping_at_in copy_to
read_bytes-write_bytes_example =
    read_bytes-write_bytes guest 10 (0x78 ∷ 0x56 ∷ 0x34 ∷ 0x12 ∷ []) stored refl

check_access_iff_example : (check_access guest 4 8 prot_read ≡ ok tt) ↔ (
    (4 + 8 ≤ length guest.bytes)
    × (4 + 8 ≤ guest.space.max)
    × ((x : ℕ) → 4 ≤ x → x < 4 + 8 → IsAllowed guest.space.mappings prot_read x))
check_access_iff_example = check_access_iff guest 4 8 prot_read refl (omega arith) (omega arith)
