-- ===== src/Calculation/V2/RoundTrip.antt =====
-- How the swaps of src/calculation/v2.rs compare: a larger input, and the input for a wanted output.
use native.Mathlib.Nat.{
  mul-le-mul_right, mul-pos, le-div_iff_mul-le, lt-div-mul-add, eq-zero-or-pos, le_of_lt,
  div-le_self,
}
use arb_bot.Prelude.{ℕ, ◌+◌, ◌-◌, ◌*◌, ◌/◌, ◌≤◌, ◌<◌, ◌≡◌, arith, inl, inr}
use arb_bot.Prelude.Arith.{mul-sub, mul-le-bound}
use arb_bot.Word.{add256_exact, mul256_exact, sub256_exact}
use arb_bot.Calculation.V2.{get_amount_out_v2, get_amount_in_v2}
use arb_bot.Calculation.V2.Product.{
  u112_mod, quotient, quotient-lt, quotient-mul-le, out_exact, zero_out,
}

quotient_mono :
    (a d ri ro fee : ℕ) → 0 < ri → 0 < ro → quotient a ri ro fee ≤ quotient (a + d) ri ro fee
quotient_mono a d ri ro fee p q =
    let out = quotient a ri ro fee in
    let extra : out * (d * fee) ≤ ro * (d * fee) =
      mul-le-mul_right (d * fee) (le_of_lt (quotient-lt a ri ro fee p q)) in
    (le-div_iff_mul-le {k = ri * 10_000 + (a + d) * fee} (omega arith)).1
      (omega (arith, quotient-mul-le a ri ro fee))

-- Within the 112-bit range, with an input reserve that is not empty and a fee factor of at most 10000, a
-- larger input never buys less.
pub get_amount_out_v2_mono :
    (a b ri ro fee : ℕ)
    → a ≤ b
    → b < u112_mod
    → 0 < ri
    → ri < u112_mod
    → ro < u112_mod
    → fee ≤ 10_000
    → get_amount_out_v2 a ri ro fee ≤ get_amount_out_v2 b ri ro fee
get_amount_out_v2_mono a b ri ro fee h hb p hi ho hf =
    rw (out_exact a ri ro fee (omega arith) hi ho hf p, out_exact b ri ro fee hb hi ho hf p)
      (elim (eq-zero-or-pos ro) [
        | inl empty ↦ rw (zero_out a ri ro fee empty) (omega arith)
        | inr some ↦ grow some
      ])
  where
    grow : 0 < ro → quotient a ri ro fee ≤ quotient b ri ro fee
    grow some =
        let e : a + (b - a) ≡ b = omega arith in rw e at (quotient_mono a (b - a) ri ro fee p some)

-- The exact input of `get_amount_in_v2`.
abbrev needed : ℕ → ℕ → ℕ → ℕ → ℕ
needed o ri ro fee = ri * o * 10_000 / ((ro - o) * fee) + 1

module _ (o ri ro fee : ℕ) (po : 0 < o) (pi : 0 < ri) (lt : o < ro) (pf : 0 < fee) where
  enough : o ≤ quotient (needed o ri ro fee) ri ro fee
  enough =
      let a = needed o ri ro fee in
      let left : 0 < (ro - o) * fee = mul-pos (omega arith) pf in
      let paid : ri * o * 10_000
          < ri * o * 10_000 / ((ro - o) * fee) * ((ro - o) * fee) + (ro - o) * fee =
        lt-div-mul-add left in
      (le-div_iff_mul-le {k = ri * 10_000 + a * fee} (omega arith)).1
        (omega (arith, mul-sub (a * fee) ro o (le_of_lt lt)))

  in_exact :
      ri < u112_mod
      → ro < u112_mod
      → fee ≤ 10_000
      → get_amount_in_v2 o ri ro fee ≡ needed o ri ro fee
  unfolding get_amount_in_v2
  in_exact hi ho hf =
      let p1 : ri * o ≤ u112_mod * u112_mod =
        mul-le-bound ri o u112_mod u112_mod (omega arith) (omega arith) in
      let p2 : (ro - o) * fee ≤ u112_mod * 10_000 =
        mul-le-bound (ro - o) fee u112_mod 10_000 (omega arith) hf in
      let left : 0 < (ro - o) * fee = mul-pos (omega arith) pf in
      let bound : ri * o * 10_000 / ((ro - o) * fee) ≤ ri * o * 10_000 = div-le_self _ _ in
      ground (
        arith,
        mul256_exact ri o (omega arith),
        mul256_exact (ri * o) 10_000 (omega arith),
        sub256_exact ro o (omega arith) (omega arith),
        mul256_exact (ro - o) fee (omega arith),
        add256_exact (ri * o * 10_000 / ((ro - o) * fee)) 1 (omega arith),
      )

-- For 112-bit reserves, an input reserve and a wanted output that are not zero, an output below the
-- output reserve and a fee factor from 1 to 10000, paying the input that `get_amount_in_v2` asks for
-- buys at least that output, if the input is a 112-bit number too.
pub get_amount_out_v2-get_amount_in_v2 :
    (o ri ro fee : ℕ)
    → 0 < o
    → 0 < ri
    → o < ro
    → 0 < fee
    → fee ≤ 10_000
    → ri < u112_mod
    → ro < u112_mod
    → get_amount_in_v2 o ri ro fee < u112_mod
    → o ≤ get_amount_out_v2 (get_amount_in_v2 o ri ro fee) ri ro fee
get_amount_out_v2-get_amount_in_v2 o ri ro fee po pi lt pf hf hi ho ha =
    let e = in_exact o ri ro fee po pi lt pf hi ho hf in
    rw (out_exact (get_amount_in_v2 o ri ro fee) ri ro fee ha hi ho hf pi, e)
      (enough o ri ro fee po pi lt pf)
