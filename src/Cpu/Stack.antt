-- ===== src/Cpu/Stack.antt =====
-- The guest's stack: a pop takes back what a push has put there.
use ish_port_go.Prelude.{
  ℕ, ◌-◌, ◌^◌, ◌≤◌, ◌<◌, ◌≡◌, List, arith, length, get_or, set, get_or-set_self, set-get_or,
  set-set, add32, ok, ap, ◌∙◌,
}
use ish_port_go.AddressSpace.{prot_read}
use ish_port_go.Memory.{Memory, check_access, read32, write32}
use ish_port_go.Memory.RoundTrip.{read32-write32}
use ish_port_go.Cpu.{Cpu, esp, push, pop, pushed, popped}

-- The CPU after a push that has left the memory `m`.
abbrev below : {F : Type 0} → Cpu F → Memory → Cpu F
below c m = record c { regs = set c.regs esp (get_or c.regs esp 0 - 4); mem = m }

push-inv :
    {F : Type 0} (c : Cpu F) (v : ℕ) (d : Cpu F)
    → push c v ≡ (ok tt, d)
    → (4 ≤ get_or c.regs esp 0)
      × (write32 c.mem (get_or c.regs esp 0 - 4) v ≡ ok d.mem)
      × (d ≡ below c d.mem)
unfolding push pushed
push-inv c v d e = ground arith

pop-below :
    {F : Type 0} (c : Cpu F) (v : ℕ) (m : Memory)
    → length c.regs ≡ 8
    → get_or c.regs esp 0 < 2 ^ 32
    → 4 ≤ get_or c.regs esp 0
    → read32 m (get_or c.regs esp 0 - 4) ≡ ok v
    → pop (below c m) ≡ (ok v, record c { mem = m })
unfolding pop popped
pop-below c v m count top-lt room back =
    let top = get_or c.regs esp 0 in
    let at_top = get_or-set_self c.regs esp (top - 4) 0 (omega (arith, count)) in
    let up : add32 (top - 4) 4 ≡ top = omega arith in
    let moved = set c.regs esp (top - 4) in
    let restored : set moved esp (add32 (get_or moved esp 0) 4) ≡ c.regs =
      rw (at_top, up, set-set c.regs esp (top - 4) top, set-get_or c.regs esp 0) in
    let read : read32 m (get_or moved esp 0) ≡ ok v = rw at_top back in
    rw read (ap (λ (r : List ℕ). (ok v, record c { mem = m; regs = r })) restored)

-- After a successful push of a 32-bit value the top word is below the old one; if it can be read, a
-- pop returns the value and restores every register, and the memory stays as the push left it.
pub pop-push :
    {F : Type 0} (c : Cpu F) (v : ℕ) (d : Cpu F)
    → length c.regs ≡ 8
    → get_or c.regs esp 0 < 2 ^ 32
    → v < 2 ^ 32
    → check_access c.mem (get_or c.regs esp 0 - 4) 4 prot_read ≡ ok tt
    → push c v ≡ (ok tt, d)
    → pop d ≡ (ok v, record c { mem = d.mem })
pop-push c v d count top-lt v-lt access e =
    let (room, wrote, same) = push-inv c v d e in
    ap pop same
    ∙ pop-below c v d.mem count top-lt room
        ((read32-write32 c.mem (get_or c.regs esp 0 - 4) v d.mem v-lt wrote).0 access)
