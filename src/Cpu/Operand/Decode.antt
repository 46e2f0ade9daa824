-- ===== src/Cpu/Operand/Decode.antt =====
-- What fetching and decoding change of the CPU.
use ish_port_go.Prelude.{
  ℕ, ◌/◌, ◌%◌, ◌≡◌, refl, Bool, true, false, ◌&&◌, ◌==◌, if◌then◌else◌, Result, ok, err,
}
use ish_port_go.Cpu.{Cpu}
use ish_port_go.Cpu.Operand.{
  after, fetch8, fetch32, displaced, sib_address, address, decode_mod_rm_byte, decode_mod_rm,
}

-- The CPU is another one but for EIP.
abbrev pub MovesEip : {F : Type 0} → Cpu F → Cpu F → Type 0
MovesEip c d = d ≡ record c { eip = d.eip }

MovesEip-trans : {F : Type 0} (a b c : Cpu F) → MovesEip a b → MovesEip b c → MovesEip a c
MovesEip-trans a b c p q = cc

pub after-MovesEip :
    {F A B : Type 0} (c : Cpu F) (r : Result A × Cpu F) (next : A → Cpu F → Result B × Cpu F)
    → MovesEip c r.1
    → ((a : A) (d : Cpu F) → MovesEip d (next a d).1)
    → MovesEip c (after r next).1
after-MovesEip c (ok a, d) next first later = MovesEip-trans c d (next a d).1 first (later a d)
after-MovesEip c (err e, d) next first later = first

pub fetch8-MovesEip : {F : Type 0} (c : Cpu F) → MovesEip c (fetch8 c).1
unfolding fetch8
fetch8-MovesEip c = refl

pub fetch32-MovesEip : {F : Type 0} (c : Cpu F) → MovesEip c (fetch32 c).1
unfolding fetch32
fetch32-MovesEip c = after-MovesEip c (fetch8 c) _ (fetch8-MovesEip c) (λ b0 c1.
    after-MovesEip c1 (fetch8 c1) _ (fetch8-MovesEip c1) (λ b1 c2.
      after-MovesEip c2 (fetch8 c2) _ (fetch8-MovesEip c2)
        (λ b2 c3. after-MovesEip c3 (fetch8 c3) _ (fetch8-MovesEip c3) (λ b3 c4. refl))))

branch-MovesEip :
    {F A : Type 0} (c : Cpu F) (test : Bool) (r s : Result A × Cpu F)
    → MovesEip c r.1
    → MovesEip c s.1
    → MovesEip c (if test then r else s).1
branch-MovesEip c true r s p q = p
branch-MovesEip c false r s p q = q

displaced-MovesEip : {F : Type 0} (mode base : ℕ) (c : Cpu F) → MovesEip c (displaced mode base c).1
unfolding displaced
displaced-MovesEip mode base c =
    branch-MovesEip c (mode == 1) _ _
      (after-MovesEip c (fetch8 c) _ (fetch8-MovesEip c) (λ d c1. refl))
      (branch-MovesEip c (mode == 2) _ _
        (after-MovesEip c (fetch32 c) _ (fetch32-MovesEip c) (λ d c1. refl)) refl)

sib_address-MovesEip :
    {F : Type 0} (mode sib : ℕ) (c : Cpu F) → MovesEip c (sib_address mode sib c).1
unfolding sib_address
sib_address-MovesEip mode sib c =
    branch-MovesEip c (mode == 0 && (sib % 8) == 5) _ _
      (after-MovesEip c (fetch32 c) _ (fetch32-MovesEip c) (λ d c1. refl))
      (displaced-MovesEip mode _ c)

address-MovesEip : {F : Type 0} (mode rm : ℕ) (c : Cpu F) → MovesEip c (address mode rm c).1
unfolding address
address-MovesEip mode rm c =
    branch-MovesEip c (rm == 4) _ _
      (after-MovesEip c (fetch8 c) _ (fetch8-MovesEip c)
        (λ sib c1. sib_address-MovesEip mode sib c1))
      (branch-MovesEip c (mode == 0 && rm == 5) _ _ (fetch32-MovesEip c)
        (displaced-MovesEip mode _ c))

pub decode_mod_rm_byte-MovesEip :
    {F : Type 0} (v : ℕ) (c : Cpu F) → MovesEip c (decode_mod_rm_byte v c).1
unfolding decode_mod_rm_byte
decode_mod_rm_byte-MovesEip v c = branch-MovesEip c (v / 64 == 3) _ _ refl (
    after-MovesEip c (address (v / 64) (v % 8) c) _ (address-MovesEip (v / 64) (v % 8) c)
      (λ base c1. refl))

-- Decoding a ModRM operand changes nothing of the CPU but EIP, whether it succeeds or fails.
pub decode_mod_rm-MovesEip : {F : Type 0} (c : Cpu F) → MovesEip c (decode_mod_rm c).1
unfolding decode_mod_rm
decode_mod_rm-MovesEip c =
    after-MovesEip c (fetch8 c) _ (fetch8-MovesEip c) (λ v c1. decode_mod_rm_byte-MovesEip v c1)
