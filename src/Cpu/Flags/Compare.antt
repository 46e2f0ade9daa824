-- ===== src/Cpu/Flags/Compare.antt =====
-- The conditions after a comparison: `setSubFlags` of `a - b`, then `condition`.
use ish_port_go.Prelude.{
  ℕ, ◌+◌, ◌<◌, ◌^◌, ◌≡◌, Bool, ◌&&◌, ◌||◌, not, arith, ltb, leb, ◌==◌, if◌then◌else◌, min, bit_and,
  bit_xor, has, to_ℕ, sub32, ◌∙◌, ap,
}
use Prim.Native.Nat.{differ}
use ish_port_go.Prelude.Bits.{bit-bit_and, bit-bit_xor, bit_top}
use ish_port_go.Prelude.Int.{int32, ltb_ℤ, leb_ℤ, pos_part, neg_part}
use ish_port_go.Cpu.Flags.{
  set_sub_flags, condition, even_parity, flag_cf, flag_zf, flag_sf, flag_of,
}
use ish_port_go.Cpu.Flags.Bits.{has-pow, has_top, has-cf, has-zf, has-sf, has-of}

-- The highest bit of a 32-bit word.
abbrev pub negative : ℕ → Bool
negative x = leb (2 ^ 31) x

abbrev pub xor : Bool → Bool → Bool
xor a b = if a then not b else b

-- The overflow term of a subtraction, by the signs of the operands and of the result.
pub of_sub_signs :
    (a b r : ℕ)
    → a < 2 ^ 32
    → b < 2 ^ 32
    → r < 2 ^ 32
    → has (bit_and (bit_xor a b) (bit_xor a r)) 0x8000_0000
      ≡ (xor (negative a) (negative b) && xor (negative a) (negative r))
of_sub_signs a b r ha hb hr =
    let x = bit_and (bit_xor a b) (bit_xor a r) in
    rw
      (
        has-pow x 31,
        bit-bit_and (bit_xor a b) (bit_xor a r) 31,
        bit-bit_xor a b 31,
        bit-bit_xor a r 31,
        bit_top a 31 ha,
        bit_top b 31 hb,
        bit_top r 31 hr,
      )
      (signs (negative a) (negative b) (negative r))
  where
    signs :
        (p q s : Bool)
        → (min (differ (to_ℕ p) (to_ℕ q)) (differ (to_ℕ p) (to_ℕ s)) == 1) ≡ (xor p q && xor p s)
    signs p q s = ground arith

zero_difference : (a b : ℕ) → a < 2 ^ 32 → b < 2 ^ 32 → (sub32 a b == 0) ≡ (a == b)
zero_difference a b ha hb = ground arith

overflow_order :
    (a b : ℕ)
    → a < 2 ^ 32
    → b < 2 ^ 32
    → (xor (negative a) (negative b) && xor (negative a) (negative (sub32 a b)))
      ≡ xor (negative (sub32 a b)) (ltb_ℤ (int32 a) (int32 b))
overflow_order a b ha hb = ground arith

-- The flags after `setSubFlags(a, b, a - b)`.
pub sub_flags :
    (e a b : ℕ)
    → a < 2 ^ 32
    → b < 2 ^ 32
    → let f = set_sub_flags e a b (sub32 a b) in
      (has f flag_cf ≡ ltb a b)
      × (has f flag_zf ≡ (a == b))
      × (has f flag_sf ≡ negative (sub32 a b))
      × (has f flag_of ≡ xor (negative (sub32 a b)) (ltb_ℤ (int32 a) (int32 b)))
unfolding set_sub_flags
sub_flags e a b ha hb =
    let r = sub32 a b in
    let hr : r < 2 ^ 32 = omega arith in
    let x = has (bit_and (bit_xor a b) (bit_xor a r)) 0x8000_0000 in
    let cf = ltb a b in
    let zf = r == 0 in
    let sf = has r 0x8000_0000 in
    let pf = even_parity r in
    (
      has-cf e cf zf sf x pf,
      has-zf e cf zf sf x pf ∙ zero_difference a b ha hb,
      has-sf e cf zf sf x pf ∙ has_top r 31 hr,
      has-of e cf zf sf x pf ∙ of_sub_signs a b r ha hb hr ∙ overflow_order a b ha hb,
    )

-- The conditions, by the flags that they read.
module _ (f : ℕ) (cf zf sf of : Bool) where
  condition_flags :
      has f flag_cf ≡ cf
      → has f flag_zf ≡ zf
      → has f flag_sf ≡ sf
      → has f flag_of ≡ of
      → (condition f 0x2 ≡ cf)
        × (condition f 0x3 ≡ not cf)
        × (condition f 0x4 ≡ zf)
        × (condition f 0x5 ≡ not zf)
        × (condition f 0x6 ≡ (cf || zf))
        × (condition f 0x7 ≡ (not cf && not zf))
        × (condition f 0xc ≡ xor sf of)
        × (condition f 0xd ≡ not (xor sf of))
        × (condition f 0xe ≡ (zf || xor sf of))
        × (condition f 0xf ≡ (not zf && not (xor sf of)))
  unfolding condition
  condition_flags hc hz hs ho = (
    hc,
    rw hc,
    hz,
    rw hz,
    rw (hc, hz),
    rw (hc, hz),
    rw (hs, ho),
    rw (hs, ho),
    rw (hz, hs, ho),
    rw (hz, hs, ho),
  )

not-ltb : (a b : ℕ) → not (ltb a b) ≡ leb b a
not-ltb a b = ground arith

ltb-or-eq : (a b : ℕ) → (ltb a b || a == b) ≡ leb a b
ltb-or-eq a b = ground arith

not-ltb-not-eq : (a b : ℕ) → (not (ltb a b) && not (a == b)) ≡ ltb b a
not-ltb-not-eq a b = ground arith

eq-or-ltb_ℤ :
    (a b : ℕ)
    → a < 2 ^ 32
    → b < 2 ^ 32
    → (a == b || ltb_ℤ (int32 a) (int32 b)) ≡ leb_ℤ (int32 a) (int32 b)
eq-or-ltb_ℤ a b ha hb = ground arith

not-eq-not-ltb_ℤ :
    (a b : ℕ)
    → a < 2 ^ 32
    → b < 2 ^ 32
    → (not (a == b) && not (ltb_ℤ (int32 a) (int32 b))) ≡ ltb_ℤ (int32 b) (int32 a)
not-eq-not-ltb_ℤ a b ha hb = ground arith

xor_twice : (p q : Bool) → xor p (xor p q) ≡ q
xor_twice p q = ground arith

-- After a comparison of two 32-bit words each condition code decides its order of the words, read
-- as unsigned numbers or as `int32`s, whatever the flags were.
pub condition-sub :
    (e a b : ℕ)
    → a < 2 ^ 32
    → b < 2 ^ 32
    → let f = set_sub_flags e a b (sub32 a b) in
      (condition f 0x2 ≡ ltb a b)
      × (condition f 0x3 ≡ leb b a)
      × (condition f 0x4 ≡ (a == b))
      × (condition f 0x5 ≡ not (a == b))
      × (condition f 0x6 ≡ leb a b)
      × (condition f 0x7 ≡ ltb b a)
      × (condition f 0xc ≡ ltb_ℤ (int32 a) (int32 b))
      × (condition f 0xd ≡ leb_ℤ (int32 b) (int32 a))
      × (condition f 0xe ≡ leb_ℤ (int32 a) (int32 b))
      × (condition f 0xf ≡ ltb_ℤ (int32 b) (int32 a))
condition-sub e a b ha hb =
    let f = set_sub_flags e a b (sub32 a b) in
    let (hc, hz, hs, ho) = sub_flags e a b ha hb in
    let s = negative (sub32 a b) in
    let l = ltb_ℤ (int32 a) (int32 b) in
    let (c2, c3, c4, c5, c6, c7, cc, cd, ce, cf) =
      condition_flags f (ltb a b) (a == b) s (xor s l) hc hz hs ho in
    let twice = xor_twice s l in
    (
      c2,
      c3 ∙ not-ltb a b,
      c4,
      c5,
      c6 ∙ ltb-or-eq a b,
      c7 ∙ not-ltb-not-eq a b,
      cc ∙ twice,
      cd
          ∙ ap not twice
          ∙ not-ltb (pos_part (int32 a) + neg_part (int32 b))
              (pos_part (int32 b) + neg_part (int32 a)),
      ce ∙ ap (λ t. (a == b) || t) twice ∙ eq-or-ltb_ℤ a b ha hb,
      cf ∙ ap (λ t. not (a == b) && not t) twice ∙ not-eq-not-ltb_ℤ a b ha hb,
    )
