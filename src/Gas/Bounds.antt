-- ===== src/Gas/Bounds.antt =====
-- What the fee predictions of src/gas_station.rs guarantee.
use native.Mathlib.Nat.{
  mul-le-mul, mul-le-mul_right, mul-one, le_trans, div-le_self, div-mul-le_self,
}
use arb_bot.Prelude.{
  ℕ, ◌+◌, ◌-◌, ◌*◌, ◌/◌, ◌≤◌, ◌<◌, ◌≡◌, max, some, arith, ◌==◌, Bool-cases, inl, inr,
}
use native.Mathlib.Decide.{dec_lt}
use arb_bot.Prelude.Arith.{div-le-div, div-le_of_le-mul}
use arb_bot.Word.{u64_mod, saturating_add64, saturating_add64_bounds}
use arb_bot.Gas.{GasStation, next_fee, calc_next_base_fee, calc_priority_fee}

-- The change of the fee, before it is cut to 64 bits, is a share of the parent's fee.
share_le :
    (fee delta target k den : ℕ)
    → 0 < target
    → delta ≤ target * k
    → fee * delta / target / den ≤ fee * k / den
share_le fee delta target k den p h = div-le-div _ _ den (
    div-le_of_le-mul (fee * delta) (fee * k) target p
      (omega (arith, mul-le-mul {n₁ = fee} {n₂ = fee} (omega arith) h)))

module _ (fee used target den : ℕ) (pt : 0 < target) (pd : 0 < den) (small : fee < u64_mod) where
  -- Above the target the fee grows by its share, and by 1 at least.
  next_fee_up :
      target < used
      → fee * (used - target) / target / den < u64_mod
      → next_fee fee used target den
        ≡ some (saturating_add64 fee (max (fee * (used - target) / target / den) 1))
  unfolding next_fee
  next_fee_up h b = ground arith

  down_le : fee * (target - used) / target / den ≤ fee / den
  down_le =
      let share : fee * (target - used) / target / den ≤ fee * 1 / den =
        share_le fee (target - used) target 1 den pt (omega arith) in
      rw mul-one at share

  -- Below the target it falls by its share.
  next_fee_down :
      used < target
      → next_fee fee used target den ≡ some (fee - fee * (target - used) / target / den)
  unfolding next_fee
  next_fee_down h = ground (arith, down_le, div-le_self fee den)

  next_fee_same : used ≡ target → next_fee fee used target den ≡ some fee
  unfolding next_fee
  next_fee_same e = ground arith

  -- In all three cases, where a block uses at most k + 1 times the target and k ≤ den.
  next_fee_bounds :
      (k : ℕ)
      → k ≤ den
      → used ≤ target * (k + 1)
      → (r : ℕ) × (next_fee fee used target den ≡ some r)
        × (r ≤ fee + max (fee * k / den) 1)
        × (fee - fee / den ≤ r)
  next_fee_bounds k wide within = elim (dec_lt target used) [
    | yes up ↦
        let share : fee * (used - target) / target / den ≤ fee * k / den =
          share_le fee (used - target) target k den pt (omega arith) in
        let cut : fee * k / den ≤ fee =
          div-le_of_le-mul (fee * k) fee den pd
            (mul-le-mul {n₁ = fee} {n₂ = fee} (omega arith) wide) in
        let sat =
          saturating_add64_bounds fee (max (fee * (used - target) / target / den) 1) small in
        (_, next_fee_up up (omega arith), omega arith, omega arith)
    | no not_up ↦ elim (dec_lt used target) [
      | yes down ↦ (_, next_fee_down down, omega arith, omega (arith, down_le))
      | no not_down ↦ (_, next_fee_same (omega arith), omega arith, omega arith)
    ]
  ]

-- With positive parameters, a parent block within its gas limit, a limit that the elasticity
-- divides and a change denominator of at least elasticity - 1, the prediction does not panic. The
-- predicted fee is at least the floor; it exceeds the parent's fee by at most the larger of
-- fee * (elasticity - 1) / denominator and 1, unless the floor is higher; and it falls by at most
-- fee / denominator.
pub calc_next_base_fee_bounds :
    (fee used limit elasticity den floor : ℕ)
    → fee < u64_mod
    → 0 < elasticity
    → 0 < den
    → elasticity ≤ den + 1
    → used ≤ limit
    → limit / elasticity * elasticity ≡ limit
    → (r : ℕ) × (calc_next_base_fee fee used limit elasticity den floor ≡ some r)
      × (floor ≤ r)
      × (r ≤ max floor (fee + max (fee * (elasticity - 1) / den) 1))
      × (fee - fee / den ≤ r)
unfolding calc_next_base_fee
calc_next_base_fee_bounds fee used limit elasticity den floor small pe pd wide within exact =
    let target = limit / elasticity in
    let same : elasticity - 1 + 1 ≡ elasticity = omega arith in
    elim (Bool-cases (target == 0)) [
      | inl zero_target ↦ (max fee floor, ground arith, omega arith, omega arith, omega arith)
      | inr some_target ↦
          let (r, e, up, down) =
            next_fee_bounds fee used target den (ground arith) pd small (elasticity - 1)
              (omega arith) (rw same (omega arith)) in
          (max r floor, ground arith, omega arith, omega arith, omega arith)
    ]

-- The direction of the change, for a parent block with a positive gas target: the fee strictly grows
-- above the target unless it is at the 64-bit maximum, and below or at the target it does not
-- exceed the larger of the parent's fee and the floor, which it equals at the target.
pub calc_next_base_fee_direction :
    (fee used limit elasticity den floor r : ℕ)
    → fee + 1 < u64_mod
    → 0 < limit / elasticity
    → calc_next_base_fee fee used limit elasticity den floor ≡ some r
    → (limit / elasticity < used → fee < r)
      × (used ≤ limit / elasticity → r ≤ max fee floor)
      × (used ≡ limit / elasticity → r ≡ max fee floor)
unfolding calc_next_base_fee saturating_add64
calc_next_base_fee_direction fee used limit elasticity den floor r small pt h =
    (λ up. ground arith, λ down. ground arith, λ same. ground arith)

-- The bid for priority never exceeds the configured cap, and it never spends more than the share of
-- the profit: bid * gas * 10000 ≤ profit * share, whatever is cut from the quotient.
pub calc_priority_fee_bounds :
    (s : GasStation) (profit gas share : ℕ)
    → (calc_priority_fee s profit gas share ≤ s.priority_fee_cap_wei)
      × (calc_priority_fee s profit gas share * gas * 10_000 ≤ profit * share)
unfolding calc_priority_fee
calc_priority_fee_bounds s profit gas share = (
  ground arith,
  le_trans (mul-le-mul_right 10_000 within)
      (omega (arith, div-mul-le_self (profit * share) 10_000)),
)
  where
    spent : ℕ
    spent = profit * share / 10_000

    bid_le : calc_priority_fee s profit gas share ≤ spent / gas
    bid_le = ground arith

    within : calc_priority_fee s profit gas share * gas ≤ spent
    within = le_trans (mul-le-mul_right gas bid_le) (div-mul-le_self spent gas)
