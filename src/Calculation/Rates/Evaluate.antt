-- ===== src/Calculation/Rates/Evaluate.antt =====
-- What `evaluate_path` of src/calculation/rates.rs says of a path.
use arb_bot.Prelude.{
  ℕ, ◌+◌, ◌*◌, ◌≤◌, ◌<◌, ◌≡◌, ◌⊎◌, refl, true, false, List, [], ◌∷◌, arith, ltb, ◌==◌,
  if◌then◌else◌, All, any, pair_eq, lookup-remove, remove,
}
use arb_bot.Prelude.Arith.{div-le_of_le-mul, mul-le-bound}
use arb_bot.Word.{u256_mod, checked_mul_exact, mul-lt-bound}
use arb_bot.Swap.Path.{Address, SwapStep, SwapPath, contains_pool}
use arb_bot.Calculation.Rates.{
  RateEstimator, rate_scale, mul_div, step_rate, evaluate_steps, evaluate_path, is_profitable,
  expected_profit_rate, invalidate_pool,
}

step_rate-invalidate_pool :
    (est : RateEstimator) (pool : Address) (s : SwapStep)
    → step_rate (invalidate_pool est pool) s
      ≡ (if s.pool_address == pool then 0 else step_rate est s)
unfolding step_rate invalidate_pool
step_rate-invalidate_pool est pool s = ground (
  arith,
  lookup-remove (pool, false) (s.pool_address, ltb s.token_in s.token_out)
      (remove (pool, true) est.rates),
  lookup-remove (pool, true) (s.pool_address, ltb s.token_in s.token_out) est.rates,
)

evaluate_steps-invalidate_pool :
    (est : RateEstimator) (pool : Address) (steps : List SwapStep) (cumulative : ℕ)
    → evaluate_steps (invalidate_pool est pool) steps cumulative
      ≡ (if any (λ s. s.pool_address == pool) steps then 0 else evaluate_steps est steps cumulative)
unfolding evaluate_steps
evaluate_steps-invalidate_pool est pool [] cumulative = refl
evaluate_steps-invalidate_pool est pool (s ∷ steps) cumulative = ground (
  arith,
  step_rate-invalidate_pool est pool s,
  evaluate_steps-invalidate_pool est pool steps (mul_div cumulative (step_rate est s) rate_scale),
)

-- Once a pool is invalidated, every path through it evaluates to zero, and no other path changes.
pub evaluate_path-invalidate_pool :
    (est : RateEstimator) (pool : Address) (path : SwapPath)
    → evaluate_path (invalidate_pool est pool) path
      ≡ (if contains_pool path pool then 0 else evaluate_path est path)
unfolding evaluate_path contains_pool
evaluate_path-invalidate_pool est pool path =
    evaluate_steps-invalidate_pool est pool path.steps rate_scale

-- A rate of at most 1 does not raise a cumulative rate of at most 1.
mul_div_below : (c r : ℕ) → c ≤ rate_scale → r ≤ rate_scale → mul_div c r rate_scale ≤ c
unfolding mul_div
mul_div_below c r h k =
    let small : c * r < u256_mod = mul-lt-bound c r rate_scale rate_scale h k (omega arith) in
    rw (checked_mul_exact c r small) (
      div-le_of_le-mul (c * r) c rate_scale (omega arith)
        (mul-le-bound c r c rate_scale (omega arith) k))

evaluate_steps_below :
    (est : RateEstimator) (steps : List SwapStep) (c : ℕ)
    → c ≤ rate_scale
    → All (λ s. step_rate est s ≤ rate_scale) steps
    → evaluate_steps est steps c ≤ c
unfolding evaluate_steps
evaluate_steps_below est [] c h k = omega arith
evaluate_steps_below est (s ∷ steps) c h k =
    let below = mul_div_below c (step_rate est s) h k.0 in
    ground (
      arith,
      below,
      evaluate_steps_below est steps (mul_div c (step_rate est s) rate_scale) (omega arith) k.1,
    )

-- A path all of whose steps have a rate of at most 1 is never taken for profitable: it evaluates to
-- at most 1, and no profit is expected of it.
pub evaluate_path_lossy :
    (est : RateEstimator) (path : SwapPath)
    → All (λ s. step_rate est s ≤ rate_scale) path.steps
    → (evaluate_path est path ≤ rate_scale)
      × (is_profitable est path ≡ false)
      × (expected_profit_rate est path ≡ 0)
unfolding evaluate_path is_profitable expected_profit_rate
evaluate_path_lossy est path h =
    let below = evaluate_steps_below est path.steps rate_scale (omega arith) h in
    (below, ground arith, ground arith)

-- The filter and the expected profit agree: a path is profitable exactly where some profit is
-- expected of it, and then its rate is that profit above 1.
pub is_profitable-expected_profit_rate :
    (est : RateEstimator) (path : SwapPath)
    → ((is_profitable est path ≡ true)
        × (0 < expected_profit_rate est path)
        × (evaluate_path est path ≡ rate_scale + expected_profit_rate est path))
      ⊎ ((is_profitable est path ≡ false) × (expected_profit_rate est path ≡ 0))
unfolding is_profitable expected_profit_rate
is_profitable-expected_profit_rate est path = ground arith
