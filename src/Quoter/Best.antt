-- ===== src/Quoter/Best.antt =====
-- What the search of src/quoter_revm.rs returns: an input with the output that was quoted for it.
use native.Mathlib.Nat.{div-le_self}
use arb_bot.Prelude.{
  ℕ, zero, suc, ◌+◌, ◌-◌, ◌*◌, ◌/◌, ◌≤◌, ◌<◌, ◌≡◌, ◌⊎◌, refl, inl, inr, min, Bool, true, false, not,
  ◌&&◌, Option, none, some, arith, ltb, leb, ◌==◌, if◌then◌else◌, unwrap_or, Bool-cases,
}
use arb_bot.Word.{u256_mod, add256, sub256, mul256, add256_exact, sub256_exact}
use arb_bot.Quoter.{
  BestQuote, Bracket, profit_of, improve, probing, refining, optimize_input_with_db,
}

ltb-ge : (a b : ℕ) → ltb a b ≡ false → b ≤ a
ltb-ge a b h = ground arith

leb-gt : (a b : ℕ) → leb a b ≡ false → b < a
leb-gt a b h = ground arith

if_cases {ℓ κ} :
    {A : Type ℓ} (P : A → Type κ) (b : Bool) (x y : A)
    → (b ≡ true → P x)
    → (b ≡ false → P y)
    → P (if b then x else y)
if_cases P true x y h k = h refl
if_cases P false x y h k = k refl

module _ {D : Type 0} (quote : D → ℕ → Option ℕ × D) (max_input : ℕ) where
  -- A gain that was quoted: some database of the search gave this output for this input.
  abbrev pub IsQuoted : ℕ → ℕ → Type 0
  IsQuoted input output =
      (sim_db : D) × ((quote sim_db input).0 ≡ some output) × (input < output) × (input ≤ max_input)

  -- The best quote is none yet, or one that was quoted with its profit.
  abbrev IsSound : BestQuote → Type 0
  IsSound b = (b.profit ≡ 0) ⊎ (IsQuoted b.input b.output × (b.profit ≡ b.output - b.input))

  improve-IsSound :
      (b : BestQuote) (sim_db : D) (input : ℕ) (quoted : Option ℕ)
      → (quote sim_db input).0 ≡ quoted
      → input ≤ max_input
      → IsSound b
      → IsSound (improve b input (unwrap_or quoted 0))
  improve-IsSound b sim_db input none e h k =
      let worse : ltb b.profit (profit_of 0 input) ≡ false = ground arith in rw worse k
  improve-IsSound b sim_db input (some out) e h k =
      elim (Bool-cases (ltb b.profit (profit_of out input))) [
        | inl better ↦
            let gain : input < out = ground arith in
            rw better (inr ((sim_db, e, gain, h), ground arith))
        | inr worse ↦ rw worse k
      ]

  -- What the first phase keeps of its bracket.
  record IsBracket (p : Bracket × D) : Type 0 where
    sound : IsSound p.0.best
    low : p.0.lo ≤ max_input

  -- The same for the second phase, which keeps a quote of at least the profit that it starts from.
  record IsRefined (least : ℕ) (r : BestQuote × D) : Type 0 where
    sound : IsSound r.0
    grown : least ≤ r.0.profit

  improve_grows : (b : BestQuote) (input out : ℕ) → b.profit ≤ (improve b input out).profit
  improve_grows b input out = elim (Bool-cases (ltb b.profit (profit_of out input))) [
    | inl better ↦ rw better (ground arith)
    | inr worse ↦ rw worse (omega arith)
  ]

  probing-IsBracket :
      (rounds min_input : ℕ) (sim_db : D) (probe : ℕ) (b : Bracket)
      → IsSound b.best
      → b.lo ≤ max_input
      → min_input ≤ max_input
      → IsBracket (probing quote rounds min_input max_input sim_db probe b)
  unfolding probing
  probing-IsBracket zero min_input sim_db probe b k l m = record { sound = k; low = l }
  probing-IsBracket (suc rounds) min_input sim_db probe b k l m =
      let out = unwrap_or (quote sim_db probe).0 0 in
      if_cases IsBracket (ltb max_input probe) _ _ (λ over. record { sound = k; low = l })
        (λ within.
          let improved =
            improve-IsSound b.best sim_db probe (quote sim_db probe).0 refl
              (ltb-ge max_input probe within) k in
          let used : Bracket = record b { best = improve b.best probe out; used = b.used + 1 } in
          let lo : ℕ = if ltb (mul256 min_input 2) probe then probe / 4 else min_input in
          let profit = profit_of out probe in
          let after = (quote sim_db probe).1 in
          let falls : Bool =
            not (ltb b.best.profit profit) && (ltb profit b.best.profit && ltb 0 b.best.profit) in
          let rest =
            probing quote rounds min_input max_input after (min (mul256 probe 2) max_input) used in
          if_cases IsBracket falls (record used { lo = lo; hi = probe }, after)
            (if leb max_input probe then (used, after) else rest)
            (λ worse. record {
              sound = improved;
              low =
                  if_cases (λ (n : ℕ). n ≤ max_input) (ltb (mul256 min_input 2) probe) (probe / 4)
                    min_input
                    (λ far. omega (arith, div-le_self probe 4, ltb-ge max_input probe within))
                    (λ near. m);
            })
            (λ go_on.
              if_cases IsBracket (leb max_input probe) (used, after) rest
                (λ last. record { sound = improved; low = l })
                (λ more.
                  probing-IsBracket rounds min_input after (min (mul256 probe 2) max_input) used
                    improved l m)))

  -- A point within the bracket.
  mid1_within :
      (lo hi : ℕ)
      → max_input + 1000 < u256_mod
      → hi ≤ max_input
      → lo + 1000 < hi
      → add256 lo (sub256 hi lo / 3) ≤ hi
  mid1_within lo hi f h l =
      let width = sub256_exact hi lo (omega arith) (omega arith) in
      let third = div-le_self (hi - lo) 3 in
      rw (width, add256_exact lo ((hi - lo) / 3) (omega (arith, third))) (omega (arith, third))

  mid2_within :
      (lo hi : ℕ)
      → max_input + 1000 < u256_mod
      → hi ≤ max_input
      → lo + 1000 < hi
      → sub256 hi (sub256 hi lo / 3) ≤ hi
  mid2_within lo hi f h l =
      let width = sub256_exact hi lo (omega arith) (omega arith) in
      let third = div-le_self (hi - lo) 3 in
      rw (width, sub256_exact hi ((hi - lo) / 3) (omega arith) (omega (arith, third))) (omega arith)

  refining-IsRefined :
      (rounds least : ℕ) (sim_db : D) (lo hi : ℕ) (best : BestQuote)
      → max_input + 1000 < u256_mod
      → lo ≤ max_input
      → hi ≤ max_input
      → IsSound best
      → least ≤ best.profit
      → IsRefined least (refining quote rounds sim_db lo hi best)
  unfolding refining
  refining-IsRefined zero least sim_db lo hi best f l h k g = record { sound = k; grown = g }
  refining-IsRefined (suc rounds) least sim_db lo hi best f l h k g =
      let mid1 = add256 lo (sub256 hi lo / 3) in
      let mid2 = sub256 hi (sub256 hi lo / 3) in
      let first = quote sim_db mid1 in
      let second = quote first.1 mid2 in
      let better = improve best mid1 (unwrap_or first.0 0) in
      let best' = improve better mid2 (unwrap_or second.0 0) in
      let grown : least ≤ best'.profit = omega (
        arith,
        improve_grows best mid1 (unwrap_or first.0 0),
        improve_grows better mid2 (unwrap_or second.0 0),
      ) in
      if_cases (IsRefined least) (leb hi (add256 lo 1000)) _ _
        (λ narrow. record { sound = k; grown = g })
        (λ wide.
          let room : lo + 1000 < hi =
            rw (add256_exact lo 1000 (omega arith)) at (leb-gt hi (add256 lo 1000) wide) in
          let w1 : mid1 ≤ max_input = omega (arith, mid1_within lo hi f h room) in
          let w2 : mid2 ≤ max_input = omega (arith, mid2_within lo hi f h room) in
          let sound =
            improve-IsSound better first.1 mid2 second.0 refl w2
              (improve-IsSound best sim_db mid1 first.0 refl w1 k) in
          if_cases (IsRefined least) _ _ _
            (λ left. refining-IsRefined rounds least second.1 lo mid2 best' f l w2 sound grown)
            (λ right. refining-IsRefined rounds least second.1 mid1 hi best' f w1 h sound grown))

  IsRefined-IsQuoted : (r : BestQuote × D) → IsRefined 1 r → IsQuoted r.0.input r.0.output
  IsRefined-IsQuoted r h = elim h.sound [
    | inl none_left ↦ absurd (omega (arith, h.grown))
    | inr quoted ↦ quoted.0
  ]

-- The search ends with an output of 0, where it found no gain, or with an input of at most
-- `max_input` and an output above it that the quoter gave for exactly this input, as long as
-- `min_input` is at most `max_input`, which is 1000 below 2^256.
pub optimize_input_with_db-IsQuoted :
    {D : Type 0} (quote : D → ℕ → Option ℕ × D) (sim_db : D) (min_input max_input steps : ℕ)
    → min_input ≤ max_input
    → max_input + 1000 < u256_mod
    → let r = (optimize_input_with_db quote sim_db min_input max_input steps).0 in
      ((r.0 ≡ min_input) × (r.1 ≡ 0)) ⊎ IsQuoted quote max_input r.0 r.1
unfolding optimize_input_with_db
optimize_input_with_db-IsQuoted {D = D} quote sim_db min_input max_input steps m f =
    let start : BestQuote = record { input = min_input; profit = 0; output = 0 } in
    let p =
      probing quote (steps / 2) min_input max_input sim_db min_input
        (record { best = start; lo = min_input; hi = max_input; used = 0 }) in
    let first =
      probing-IsBracket quote max_input (steps / 2) min_input sim_db min_input
        (record { best = start; lo = min_input; hi = max_input; used = 0 }) (inl refl) m m in
    if_cases
      (λ (r : (ℕ × ℕ) × D).
        ((r.0.0 ≡ min_input) × (r.0.1 ≡ 0)) ⊎ IsQuoted quote max_input r.0.0 r.0.1)
      (p.0.best.profit == 0) _ _ (λ no_gain. inl (refl, refl))
      (λ gain. inr (
        IsRefined-IsQuoted quote max_input _ (
          refining-IsRefined quote max_input (steps - p.0.used * 2) 1 p.1 p.0.lo
            (min p.0.hi max_input) p.0.best f first.low (omega arith) first.sound (ground arith))))
