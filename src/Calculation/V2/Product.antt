-- ===== src/Calculation/V2/Product.antt =====
-- The constant-product swap of src/calculation/v2.rs, where nothing overflows: reserves are 112-bit
-- numbers on the chain.
use native.Mathlib.Nat.{
  mul-le-mul, mul-pos, div-lt_iff_lt-mul, div-mul-le_self, eq-zero-or-pos, zero-div, zero-mul,
  mul-zero,
}
use arb_bot.Prelude.{ℕ, ◌+◌, ◌-◌, ◌*◌, ◌/◌, ◌^◌, ◌≤◌, ◌<◌, ◌≡◌, arith, inl, inr}
use arb_bot.Prelude.Arith.{mul-sub}
use arb_bot.Word.{u256_mod, add256_exact, mul256_exact, mul-lt-bound}
use arb_bot.Calculation.V2.{get_amount_out_v2}

-- The bound of a reserve that a pair contract stores.
abbrev pub u112_mod : ℕ
u112_mod = 2 ^ 112

-- The quotient that the swap computes, without wrapping.
abbrev pub quotient : ℕ → ℕ → ℕ → ℕ → ℕ
quotient amount_in reserve_in reserve_out fee =
    amount_in * fee * reserve_out / (reserve_in * 10_000 + amount_in * fee)

module _ (a ri ro fee : ℕ) where
  zero_in : a ≡ 0 → quotient a ri ro fee ≡ 0
  zero_in e = rw (e, zero-mul, zero-mul) (zero-div _)

  pub zero_out : ro ≡ 0 → quotient a ri ro fee ≡ 0
  zero_out e = rw (e, mul-zero) (zero-div _)

  -- The output is less than the reserve that it is taken from.
  pub quotient-lt : 0 < ri → 0 < ro → quotient a ri ro fee < ro
  quotient-lt p q =
      let positive : 0 < ro * (ri * 10_000) = mul-pos q (omega arith) in
      (div-lt_iff_lt-mul {k = ri * 10_000 + a * fee} (omega arith)).1 (omega arith)

  pub quotient-mul-le : quotient a ri ro fee * (ri * 10_000 + a * fee) ≤ a * fee * ro
  quotient-mul-le = div-mul-le_self (a * fee * ro) (ri * 10_000 + a * fee)

module _ (a ri ro fee : ℕ) (ha : a < u112_mod) (hi : ri < u112_mod) (ho : ro < u112_mod)
    (hf : fee ≤ 10_000) where
  with_fee_small : a * fee ≤ u112_mod * 10_000
  with_fee_small = mul-le-mul {n₂ = u112_mod} (omega arith) hf

  pub out_exact : 0 < ri → get_amount_out_v2 a ri ro fee ≡ quotient a ri ro fee
  unfolding get_amount_out_v2
  out_exact p =
      let product : a * fee * ro < u256_mod =
        mul-lt-bound (a * fee) ro (u112_mod * 10_000) u112_mod with_fee_small (omega arith)
          (omega arith) in
      ground (
        arith,
        mul256_exact a fee (omega (arith, with_fee_small)),
        mul256_exact (a * fee) ro product,
        mul256_exact ri 10_000 (omega arith),
        add256_exact (ri * 10_000) (a * fee) (omega (arith, with_fee_small)),
        zero_in a ri ro fee,
        zero_out a ri ro fee,
      )

-- For 112-bit amounts and reserves, an input reserve that is not empty and a fee factor of at most
-- 10000, a swap pays out less than the output reserve (or 0 if that is empty), and the product of
-- the reserves does not fall: (reserve_in * 10000 + amount_in * fee) * (reserve_out - out) is at
-- least reserve_in * 10000 * reserve_out, the fee being kept by the pool.
pub get_amount_out_v2_invariant :
    (a ri ro fee : ℕ)
    → a < u112_mod
    → 0 < ri
    → ri < u112_mod
    → ro < u112_mod
    → fee ≤ 10_000
    → (get_amount_out_v2 a ri ro fee ≤ ro)
      × (0 < ro → get_amount_out_v2 a ri ro fee < ro)
      × (ri * 10_000 * ro ≤ (ri * 10_000 + a * fee) * (ro - get_amount_out_v2 a ri ro fee))
get_amount_out_v2_invariant a ri ro fee ha p hi ho hf =
    rw (out_exact a ri ro fee ha hi ho hf p) (below, strict, kept)
  where
    below : quotient a ri ro fee ≤ ro
    below = elim (eq-zero-or-pos ro) [
      | inl empty ↦ omega (arith, zero_out a ri ro fee empty)
      | inr some ↦ omega (arith, quotient-lt a ri ro fee p some)
    ]

    strict : 0 < ro → quotient a ri ro fee < ro
    strict = quotient-lt a ri ro fee p

    kept : ri * 10_000 * ro ≤ (ri * 10_000 + a * fee) * (ro - quotient a ri ro fee)
    kept = omega (
      arith,
      mul-sub (ri * 10_000 + a * fee) ro (quotient a ri ro fee) below,
      quotient-mul-le a ri ro fee,
    )
