-- ===== src/Futex/Open.antt =====
-- internal/kernel/syscall.go: `futex` closes no channel twice, for threads that share the waiters.
use ish_port_go.Prelude.{
  ℕ, zero, suc, ◌<◌, ◌≤◌, ◌≡◌, ◌⊎◌, inl, inr, refl, sym, ◌∙◌, arith, false, ◌||◌, ◌==◌,
  if◌then◌else◌, List, [], ◌∷◌, ◌++◌, drop, Bool-cases,
}
use mathlib.Core.Path.{subst}
use ish_port_go.Futex.{Futexes, set_waiters, without, close_waiter, close_waiters}

-- The number stands in the list.
abbrev pub Holds : ℕ → List ℕ → Type 0
Holds v [] = ⊥
Holds v (w ∷ ws) = (v ≡ w) ⊎ Holds v ws

-- No number stands in the list twice.
abbrev pub AreApart : List ℕ → Type 0
AreApart [] = Unit
AreApart (w ∷ ws) = ¬ Holds w ws × AreApart ws

-- Nothing has panicked; the channels that are queued are open and have been made, and each is queued once;
-- those not yet made are open.
pub record IsOpen (f : Futexes) : Type 0 where
  pub calm : f.panicked ≡ false
  pub queued : (a w : ℕ) → Holds w (f.waiters a) → (w < f.next_waiter) × (f.is_closed w ≡ false)
  pub apart : (a : ℕ) → AreApart (f.waiters a)
  pub one_queue : (a b w : ℕ) → Holds w (f.waiters a) → Holds w (f.waiters b) → a ≡ b
  pub unmade : (w : ℕ) → f.next_waiter ≤ w → f.is_closed w ≡ false

pub Holds-drop : (n v : ℕ) (ws : List ℕ) → Holds v (drop n ws) → Holds v ws
Holds-drop zero v ws h = h
Holds-drop (suc n) v [] h = h
Holds-drop (suc n) v (w ∷ ws) h = inr (Holds-drop n v ws h)

pub AreApart-drop : (n : ℕ) (ws : List ℕ) → AreApart ws → AreApart (drop n ws)
AreApart-drop zero ws h = h
AreApart-drop (suc n) [] h = h
AreApart-drop (suc n) (w ∷ ws) (first, rest) = AreApart-drop n ws rest

pub Holds-without : (u v : ℕ) (ws : List ℕ) → Holds v (without u ws) → Holds v ws
unfolding without
Holds-without u v [] h = h
Holds-without u v (w ∷ ws) h = elim (Bool-cases (w == u)) [
  | inl same ↦ inr (rw same at h)
  | inr other ↦ elim (rw other at h) [
    | inl here ↦ inl here
    | inr there ↦ inr (Holds-without u v ws there)
  ]
]

pub AreApart-without : (u : ℕ) (ws : List ℕ) → AreApart ws → AreApart (without u ws)
unfolding without
AreApart-without u [] h = h
AreApart-without u (w ∷ ws) (first, rest) = elim (Bool-cases (w == u)) [
  | inl same ↦ rw same rest
  | inr other ↦ rw other (λ held. first (Holds-without u w ws held), AreApart-without u ws rest)
]

pub Holds-snoc : (v u : ℕ) (ws : List ℕ) → Holds v (ws ++ u ∷ []) → Holds v ws ⊎ (v ≡ u)
Holds-snoc v u [] (inl same) = inr same
Holds-snoc v u [] (inr h) = inl h
Holds-snoc v u (w ∷ ws) (inl same) = inl (inl same)
Holds-snoc v u (w ∷ ws) (inr h) = elim (Holds-snoc v u ws h) [
  | inl before ↦ inl (inr before)
  | inr last ↦ inr last
]

pub AreApart-snoc : (u : ℕ) (ws : List ℕ) → ¬ Holds u ws → AreApart ws → AreApart (ws ++ u ∷ [])
AreApart-snoc u [] absent h = (λ held. held, tt)
AreApart-snoc u (w ∷ ws) absent (first, rest) = (
  λ held. elim (Holds-snoc w u ws held) [
    | inl before ↦ first before
    | inr last ↦ absent (inl (sym last))
  ],
  AreApart-snoc u ws (λ held. absent (inr held)) rest,
)

-- Closing the first of a queue of open channels panics nowhere, and closes these only.
pub close_waiters_calm :
    (n : ℕ) (ws : List ℕ) (f : Futexes)
    → f.panicked ≡ false
    → AreApart ws
    → ((w : ℕ) → Holds w ws → f.is_closed w ≡ false)
    → (close_waiters n ws f).panicked ≡ false
unfolding close_waiters close_waiter
close_waiters_calm zero ws f calm distinct are_open = calm
close_waiters_calm (suc n) [] f calm distinct are_open = calm
close_waiters_calm (suc n) (w ∷ ws) f calm (first, rest) are_open =
    let still : (f.panicked || f.is_closed w) ≡ false = rw (calm, are_open w (inl refl)) refl in
    close_waiters_calm n ws (close_waiter w f) still rest (λ v held. elim (Bool-cases (v == w)) [
      | inl same ↦ absurd (first (subst (λ x. Holds x ws) (ground (arith, same)) held))
      | inr other ↦ rw (other, are_open v (inr held)) refl
    ])

-- What is not among them stays open, and what is left of the queue is not among them.
pub close_waiters_only :
    (n : ℕ) (ws : List ℕ) (f : Futexes) (v : ℕ)
    → ¬ Holds v ws
    → (close_waiters n ws f).is_closed v ≡ f.is_closed v
unfolding close_waiters close_waiter
close_waiters_only zero ws f v absent = refl
close_waiters_only (suc n) [] f v absent = refl
close_waiters_only (suc n) (w ∷ ws) f v absent =
    close_waiters_only n ws (close_waiter w f) v (λ held. absent (inr held))
    ∙ elim (Bool-cases (v == w)) [
      | inl same ↦ absurd (absent (inl (ground (arith, same))))
      | inr other ↦ rw other refl
    ]

pub close_waiters_rest :
    (n : ℕ) (ws : List ℕ) (f : Futexes) (v : ℕ)
    → AreApart ws
    → Holds v (drop n ws)
    → (close_waiters n ws f).is_closed v ≡ f.is_closed v
unfolding close_waiters close_waiter
close_waiters_rest zero ws f v distinct held = refl
close_waiters_rest (suc n) [] f v distinct held = refl
close_waiters_rest (suc n) (w ∷ ws) f v (first, rest) held =
    close_waiters_rest n ws (close_waiter w f) v rest held ∙ elim (Bool-cases (v == w)) [
      | inl same ↦
          absurd (first (subst (λ x. Holds x ws) (ground (arith, same)) (Holds-drop n v ws held)))
      | inr other ↦ rw other refl
    ]

pub close_waiters_waiters :
    (n : ℕ) (ws : List ℕ) (f : Futexes) → (close_waiters n ws f).waiters ≡ f.waiters
unfolding close_waiters close_waiter
close_waiters_waiters zero ws f = refl
close_waiters_waiters (suc n) [] f = refl
close_waiters_waiters (suc n) (w ∷ ws) f = close_waiters_waiters n ws (close_waiter w f)

pub close_waiters_next :
    (n : ℕ) (ws : List ℕ) (f : Futexes) → (close_waiters n ws f).next_waiter ≡ f.next_waiter
unfolding close_waiters close_waiter
close_waiters_next zero ws f = refl
close_waiters_next (suc n) [] f = refl
close_waiters_next (suc n) (w ∷ ws) f = close_waiters_next n ws (close_waiter w f)

pub other_address : (a b : ℕ) → a == b ≡ false → a ≡ b → ⊥
other_address a b other same = ground (arith, other, same)

-- One queue is replaced by a part of it, and what is closed is not queued.
pub IsOpen-part :
    (uaddr : ℕ) (ws : List ℕ) (f g : Futexes)
    → IsOpen f
    → g.waiters ≡ f.waiters
    → g.next_waiter ≡ f.next_waiter
    → g.panicked ≡ false
    → AreApart ws
    → ((w : ℕ) → Holds w ws → Holds w (f.waiters uaddr) × (g.is_closed w ≡ f.is_closed w))
    → ((w : ℕ) → ¬ Holds w (f.waiters uaddr) → g.is_closed w ≡ f.is_closed w)
    → IsOpen (set_waiters uaddr ws g)
IsOpen-part uaddr ws f g o same next calm distinct part others =
    let holds : (a w : ℕ)
        → Holds w (if a == uaddr then ws else g.waiters a)
        → Holds w (f.waiters a) × (g.is_closed w ≡ f.is_closed w) =
      λ a w held. elim (Bool-cases (a == uaddr)) [
        | inl here ↦
            let at_here : a ≡ uaddr = ground (arith, here) in
            let (old, kept) = part w (rw here at held) in (rw at_here old, kept)
        | inr other ↦
            let old : Holds w (f.waiters a) =
              subst (λ (q : ℕ → List ℕ). Holds w (q a)) same (rw other at held) in
            (
              old,
              others w (λ elsewhere.
                  absurd (other_address a uaddr other (o.one_queue a uaddr w old elsewhere))),
            )
      ] in
    record {
      calm = calm;
      queued = λ a w held.
          let (old, kept) = holds a w held in
          let (made, is_open) = o.queued a w old in (omega (arith, made, next), kept ∙ is_open);
      apart = λ a. elim (Bool-cases (a == uaddr)) [
        | inl here ↦ rw here distinct
        | inr other ↦ rw (other, same) (o.apart a)
      ];
      one_queue = λ a b w left right. o.one_queue a b w (holds a w left).0 (holds b w right).0;
      unmade = λ w above.
          others w (λ held. absurd (omega (arith, (o.queued uaddr w held).0, above, next)))
          ∙ o.unmade w (omega (arith, above, next));
    }
