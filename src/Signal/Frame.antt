-- ===== src/Signal/Frame.antt =====
-- The words of a frame in memory: what was written is read back.
use ish_port_go.Prelude.{
  ℕ, zero, suc, ◌+◌, ◌*◌, ◌^◌, ◌≤◌, ◌<◌, ◌≡◌, refl, List, [], ◌∷◌, ◌++◌, arith, length, All, drop,
  get_or, add32, ◌∙◌, sym, ok, Result, inl, ap,
}
use ish_port_go.Memory.{Memory, read32, write32, check_access}
use ish_port_go.AddressSpace.{prot_read}
use ish_port_go.Memory.RoundTrip.{read32-write32, write32-check_access}
use ish_port_go.Signal.{write_words, read_words}

-- The words from an offset on can be read.
abbrev pub IsReadable : Memory → ℕ → ℕ → ℕ → Type 0
IsReadable m base offset zero = Unit
IsReadable m base offset (suc n) =
    (check_access m (base + offset) 4 prot_read ≡ ok tt) × IsReadable m base (offset + 4) n

-- The memory holds the words from an offset on.
abbrev pub Stored : Memory → ℕ → ℕ → List ℕ → Type 0
Stored m base offset [] = Unit
Stored m base offset (v ∷ vs) =
    (read32 m (add32 base offset) ≡ ok v) × Stored m base (offset + 4) vs

write_words-inv :
    (m : Memory) (base offset v : ℕ) (vs : List ℕ) (n : Memory)
    → write_words m base offset (v ∷ vs) ≡ (ok tt, n)
    → (k : Memory) × (write32 m (add32 base offset) v ≡ ok k)
      × (write_words k base (offset + 4) vs ≡ (ok tt, n))
unfolding write_words
write_words-inv m base offset v vs n e = ground arith

IsReadable-after :
    (m k : Memory) (base offset n : ℕ)
    → ((b : ℕ) → check_access k b 4 prot_read ≡ check_access m b 4 prot_read)
    → IsReadable m base offset n
    → IsReadable k base offset n
IsReadable-after m k base offset zero same h = tt
IsReadable-after m k base offset (suc n) same h =
    (same (base + offset) ∙ h.0, IsReadable-after m k base (offset + 4) n same h.1)

-- The writes leave the words below them alone.
write_words_below :
    (m : Memory) (base offset : ℕ) (vs : List ℕ) (n : Memory) (b : ℕ)
    → write_words m base offset vs ≡ (ok tt, n)
    → base + offset + 4 * length vs < 2 ^ 32
    → All (λ v. v < 2 ^ 32) vs
    → b + 4 ≤ base + offset
    → read32 n b ≡ read32 m b
unfolding write_words
write_words_below m base offset [] n b e top small le =
    ap (λ (t : Result (Unit {0}) × Memory). read32 t.1 b) (sym e)
write_words_below m base offset (v ∷ vs) n b e top small le =
    let (k, first, later) = write_words-inv m base offset v vs n e in
    write_words_below k base (offset + 4) vs n b later (omega arith) small.1 (omega arith)
    ∙ (read32-write32 m (add32 base offset) v k small.0 first).1 b (inl (omega arith))

pub write_words-Stored :
    (m : Memory) (base offset : ℕ) (vs : List ℕ) (n : Memory)
    → write_words m base offset vs ≡ (ok tt, n)
    → base + offset + 4 * length vs < 2 ^ 32
    → All (λ v. v < 2 ^ 32) vs
    → IsReadable m base offset (length vs)
    → Stored n base offset vs
write_words-Stored m base offset [] n e top small access = tt
write_words-Stored m base offset (v ∷ vs) n e top small access =
    let (k, first, later) = write_words-inv m base offset v vs n e in
    let here : add32 base offset ≡ base + offset = omega arith in
    let kept =
      write_words_below k base (offset + 4) vs n (add32 base offset) later (omega arith) small.1
        (omega arith) in
    let back = (read32-write32 m (add32 base offset) v k small.0 first).0 (rw here access.0) in
    (
      kept ∙ back,
      write_words-Stored k base (offset + 4) vs n later (omega arith) small.1 (
          IsReadable-after m k base (offset + 4) (length vs)
            (λ b. write32-check_access m (add32 base offset) v k b 4 prot_read first) access.1),
    )

zero_more : (offset : ℕ) → offset + 4 * 0 ≡ offset
zero_more offset = omega arith

-- Stored words are read in one go, and those after them stay stored.
pub read_words-Stored :
    (m : Memory) (base offset : ℕ) (vs ws : List ℕ)
    → Stored m base offset (vs ++ ws)
    → (read_words m base offset (length vs) ≡ ok vs) × Stored m base (offset + 4 * length vs) ws
unfolding read_words
read_words-Stored m base offset [] ws h = (refl, rw (zero_more offset) h)
read_words-Stored m base offset (v ∷ vs) ws h =
    let (later, rest) = read_words-Stored m base (offset + 4) vs ws h.1 in
    let shift : offset + 4 + 4 * length vs ≡ offset + 4 * suc (length vs) = omega arith in
    (rw (h.0, later), rw shift at rest)

pub Stored-from :
    (m : Memory) (base offset : ℕ) (vs : List ℕ) (i : ℕ)
    → Stored m base offset vs
    → Stored m base (offset + 4 * i) (drop i vs)
Stored-from m base offset vs zero h = rw (zero_more offset) h
Stored-from m base offset [] (suc i) h = tt
Stored-from m base offset (v ∷ vs) (suc i) h =
    let shift : offset + 4 + 4 * i ≡ offset + 4 * suc i = omega arith in
    rw shift at (Stored-from m base (offset + 4) vs i h.1)

pub Stored-at :
    (m : Memory) (base offset : ℕ) (vs : List ℕ) (i : ℕ)
    → Stored m base offset vs
    → i < length vs
    → read32 m (add32 base (offset + 4 * i)) ≡ ok (get_or vs i 0)
Stored-at m base offset [] i h lt = absurd (omega arith)
Stored-at m base offset (v ∷ vs) zero h lt = rw (zero_more offset) (h.0)
Stored-at m base offset (v ∷ vs) (suc i) h lt =
    let shift : offset + 4 + 4 * i ≡ offset + 4 * suc i = omega arith in
    rw shift at (Stored-at m base (offset + 4) vs i h.1 (omega arith))

-- The words stay stored in a memory that reads the same over the frame.
pub Stored-kept :
    (m n : Memory) (base offset : ℕ) (vs : List ℕ)
    → base + 176 < 2 ^ 32
    → offset + 4 * length vs ≤ 176
    → ((b : ℕ) → base ≤ b → b + 4 ≤ base + 176 → read32 n b ≡ read32 m b)
    → Stored m base offset vs
    → Stored n base offset vs
Stored-kept m n base offset [] room fits same h = tt
Stored-kept m n base offset (v ∷ vs) room fits same h = (
  same (add32 base offset) (omega arith) (omega arith) ∙ h.0,
  Stored-kept m n base (offset + 4) vs room (omega arith) same h.1,
)
