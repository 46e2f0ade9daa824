-- ===== src/Pty/Line.antt =====
-- When a read of the terminal's input makes progress, and what it leaves.
use ish_port_go.Prelude.{
  ℕ, ◌<◌, ◌≡◌, ◌≢◌, ◌↔◌, refl, ap, arith, Bool, true, false, ◌&&◌, ◌||◌, not, ◌==◌, if◌then◌else◌,
  List, ◌++◌, Option, none, some, Result, Error, ok, err, end_of_file, take, drop, take-append-drop,
}
use ish_port_go.Pty.{Terminal, holds_bytes, contains_newline, input_ready, input_round, read_input}

some-none : {A : Type 0} (a : A) → some a ≢ none
some-none a e = cc

or-true : (a : Bool) → (a || true) ≡ true
or-true true = refl
or-true false = refl

ok_inj : (a b : List ℕ) → some (ok a) ≡ some (ok b) → a ≡ b
ok_inj a b e = cc

err_ok : (e : Error) (b : List ℕ) → some (err e) ≢ some (ok b)
err_ok e b same = cc

none-some : (b : List ℕ) → none ≢ some (ok b)
none-some b e = cc

-- The three outcomes of a round, by the tests that it makes.
round-waits :
    (here closed shut : Bool) (x y : Result (List ℕ)) (s t : Terminal)
    → (closed || (shut || here)) ≡ true ↔ (
        (if◌then◌else◌ {A = Option (Result (List ℕ)) × Terminal} here
          (some x, s)
          (if closed || shut then (some y, t) else (none, t))).0
        ≢ none)
round-waits true closed true x y s t = (λ e. some-none x, λ e. or-true closed)
round-waits true closed false x y s t = (λ e. some-none x, λ e. or-true closed)
round-waits false true shut x y s t = (λ e. some-none y, λ e. refl)
round-waits false false true x y s t = (λ e. some-none y, λ e. refl)
round-waits false false false x y s t = (λ e. absurd (ground arith), λ e. absurd (e refl))

-- What a round that returns bytes leaves.
round-splits :
    (here gone : Bool) (size : ℕ) (bs : List ℕ) (t u : Terminal)
    → if◌then◌else◌ {A = Option (Result (List ℕ)) × Terminal} here
        (some (ok (take size t.input)), record t { input = drop size t.input })
        (if gone then (some (err end_of_file), t) else (none, t))
      ≡ (some (ok bs), u)
    → bs ++ u.input ≡ t.input
round-splits true gone size bs t u e =
    let taken : take size t.input ≡ bs =
      ok_inj (take size t.input) bs (ap (λ (r : Option (Result (List ℕ)) × Terminal). r.0) e) in
    let left : drop size t.input ≡ u.input =
      ap (λ (r : Option (Result (List ℕ)) × Terminal). r.1.input) e in
    rw⁻¹ (taken, left) (take-append-drop size t.input)
round-splits false true size bs t u e =
    absurd (err_ok end_of_file bs (ap (λ (r : Option (Result (List ℕ)) × Terminal). r.0) e))
round-splits false false size bs t u e =
    absurd (none-some bs (ap (λ (r : Option (Result (List ℕ)) × Terminal). r.0) e))

-- For a buffer of some bytes, the terminal reports its input as ready exactly if a read does not wait,
-- but returns bytes or the end of the input; and the bytes that a read returns are the first ones of
-- the input, which keeps the others.
pub input_ready_lem :
    (size : ℕ) (t : Terminal)
    → 0 < size
    → ((input_ready t ≡ true) ↔ ((read_input size t).0 ≢ none))
      × ((bs : List ℕ) (u : Terminal)
          → read_input size t ≡ (some (ok bs), u)
          → bs ++ u.input ≡ t.input)
unfolding input_ready read_input input_round
input_ready_lem size t positive =
    let test : (size == 0) ≡ false = ground arith in
    let here = holds_bytes t.input && (not t.canonical || contains_newline t.input) in
    rw test (
      round-waits here t.closed t.input_closed _ _ _ t,
      λ bs u e. round-splits here (t.closed || t.input_closed) size bs t u e,
    )
