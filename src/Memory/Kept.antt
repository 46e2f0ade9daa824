-- ===== src/Memory/Kept.antt =====
-- What a checked write may change: with protection on, only bytes that are mapped writable.
use ish_port_go.Prelude.{
  ℕ, ◌+◌, ◌<◌, ◌≡◌, refl, true, List, [], ◌∷◌, arith, length, get_or, ◌∙◌, ok, lt-or-ge, inl, inr,
}
use ish_port_go.AddressSpace.{prot_write}
use ish_port_go.AddressSpace.Valid.{IsValid}
use ish_port_go.AddressSpace.Access.{IsAllowed}
use ish_port_go.Memory.{Memory, write_bytes, write8, write16, write32, copy_to, to_bytes}
use ish_port_go.Memory.Bytes.{length-copy_to, copy_to_outside, length-to_bytes}
use ish_port_go.Memory.RoundTrip.{write_bytes-inv, check_access_iff, write32-eq-write_bytes}

pub record IsGuarded (m : Memory) : Type 0 where
  pub on : m.protected ≡ true
  pub valid : IsValid m.space

-- The size, the mappings and the protection are as they were, and so is each byte that is not mapped
-- writable.
pub record KeepsMemory (m n : Memory) : Type 0 where
  pub space : n.space ≡ m.space
  pub protected : n.protected ≡ m.protected
  pub size : length n.bytes ≡ length m.bytes
  pub kept :
      (x : ℕ) → ¬ IsAllowed m.space.mappings prot_write x → get_or n.bytes x 0 ≡ get_or m.bytes x 0

pub KeepsMemory-refl : (m : Memory) → KeepsMemory m m
KeepsMemory-refl m = record { space = refl; protected = refl; size = refl; kept = λ x closed. refl }

pub KeepsMemory-trans : (l m n : Memory) → KeepsMemory l m → KeepsMemory m n → KeepsMemory l n
KeepsMemory-trans l m n p q = record {
  space = q.space ∙ p.space;
  protected = q.protected ∙ p.protected;
  size = q.size ∙ p.size;
  kept = λ x closed. q.kept x (rw p.space closed) ∙ p.kept x closed;
}

pub IsGuarded-kept : (m n : Memory) → KeepsMemory m n → IsGuarded m → IsGuarded n
IsGuarded-kept m n k g = record { on = k.protected ∙ g.on; valid = rw k.space g.valid }

pub write_bytes-KeepsMemory :
    (m : Memory) (a : ℕ) (vs : List ℕ) (n : Memory)
    → IsGuarded m
    → 0 < length vs
    → write_bytes m a vs ≡ ok n
    → KeepsMemory m n
write_bytes-KeepsMemory m a vs n g some_bytes e =
    let (access, room, same) = write_bytes-inv m a vs n e in
    let all = ((check_access_iff m a (length vs) prot_write g.on g.valid some_bytes).0 access).2 in
    rw same (record {
      space = refl;
      protected = refl;
      size = length-copy_to m.bytes a vs;
      kept = λ x closed. elim (lt-or-ge x a) [
        | inl below ↦ copy_to_outside m.bytes a vs x (inl below)
        | inr from_a ↦ elim (lt-or-ge x (a + length vs)) [
          | inl inside ↦ absurd (closed (all x from_a inside))
          | inr above ↦ copy_to_outside m.bytes a vs x (inr above)
        ]
      ];
    })

write8-eq-write_bytes : (m : Memory) (a v : ℕ) → write8 m a v ≡ write_bytes m a (v ∷ [])
unfolding write8 write_bytes copy_to
write8-eq-write_bytes m a v = refl

write16-eq-write_bytes : (m : Memory) (a v : ℕ) → write16 m a v ≡ write_bytes m a (to_bytes 2 v)
unfolding write16 write_bytes
write16-eq-write_bytes m a v = rw (length-to_bytes 2 v)

module _ (m : Memory) (a v : ℕ) (n : Memory) (g : IsGuarded m) where
  pub write8-KeepsMemory : write8 m a v ≡ ok n → KeepsMemory m n
  write8-KeepsMemory e =
      write_bytes-KeepsMemory m a (v ∷ []) n g (omega arith) (rw write8-eq-write_bytes at e)

  pub write16-KeepsMemory : write16 m a v ≡ ok n → KeepsMemory m n
  write16-KeepsMemory e =
      write_bytes-KeepsMemory m a (to_bytes 2 v) n g (omega (arith, length-to_bytes 2 v))
        (rw write16-eq-write_bytes at e)

  pub write32-KeepsMemory : write32 m a v ≡ ok n → KeepsMemory m n
  write32-KeepsMemory e =
      write_bytes-KeepsMemory m a (to_bytes 4 v) n g (omega (arith, length-to_bytes 4 v))
        (rw write32-eq-write_bytes at e)
