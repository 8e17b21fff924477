-- ===== src/Calculation/Rates.antt =====
-- src/calculation/rates.rs: the rate estimator, which filters the paths before they are simulated.
-- A panic of the code, a division by zero, is `none`.
pub mod Seed
pub mod Prices
pub mod Evaluate
pub mod Frame
use arb_bot.Prelude.{
  ℕ, zero, ◌+◌, ◌-◌, ◌*◌, ◌/◌, ◌^◌, min, Bool, true, false, ◌||◌, List, [], ◌∷◌, Option, none, some,
  ltb, leb, ◌==◌, if◌then◌else◌, ◌>>=◌, unwrap_or, length, pair_eq, nat_eq, lookup, insert, remove,
}
use arb_bot.Prelude.Int.{ℤ}
use arb_bot.Word.{u256_max, mul256, checked_mul}
use arb_bot.Swap.Path.{Address, SwapStep, SwapPath}
use arb_bot.StateDb.Store.{BlockStateDb}
use arb_bot.StateDb.Read.{read_v2_reserves, read_v3_slot0}
use arb_bot.Calculation.V2.{get_amount_out_v2}
use arb_bot.Prelude.Fallible.{Fallible, found, missing, panic}
use arb_bot.Calculation.V3.Swap.{V3Math, get_amount_out_v3}
use arb_bot.Calculation.Aerodrome.{pow10, get_amount_out_aerodrome}

abbrev pub rate_scale : ℕ
rate_scale = 1_000_000_000_000_000_000

unfoldable pub decimal_reference : ℕ → ℕ
unfolding pow10
decimal_reference decimals = pow10 decimals

unfoldable pub normalized_rate : ℕ → ℕ → ℕ
unfolding checked_mul
normalized_rate amount_out out_decimals =
    let dec = decimal_reference out_decimals in
    if dec == 0 || amount_out == 0 then 0 else elim (checked_mul amount_out rate_scale) [
      | some scaled ↦ scaled / dec
      | none ↦
          let sdec = dec / 2 ^ 64 in
          if sdec == 0 then 0 else mul256 (amount_out / 2 ^ 64) rate_scale / sdec
    ]

unfoldable pub mul_div : ℕ → ℕ → ℕ → ℕ
unfolding checked_mul
mul_div a b d = if d == 0 then 0 else elim (checked_mul a b) [
  | some product ↦ product / d
  | none ↦
      let shifted_d = d / 2 ^ 64 in
      if shifted_d == 0 then u256_max else mul256 (a / 2 ^ 64) b / shifted_d
]

-- A rate's key: the pool, and whether token0 is sold.
abbrev pub RateKey : Type 0
RateKey = Address × Bool

pub record RateEstimator : Type 0 where
  pub rates : List (RateKey × ℕ)
  pub token_weth_prices : List (Address × ℕ)

unfoldable pub new : RateEstimator
new = record { rates = []; token_weth_prices = [] }

-- `self.rates.insert((*pool, zero_for_one), rate)`
abbrev pub set_rate : RateEstimator → Address → Bool → ℕ → RateEstimator
set_rate est pool zero_for_one rate = record est {
  rates = insert (pool, zero_for_one) rate est.rates;
}

unfoldable pub update_v2_rate : RateEstimator → BlockStateDb → Address → ℕ → ℕ → ℕ → RateEstimator
update_v2_rate est db pool decimals0 decimals1 fee_factor = elim (read_v2_reserves db pool) [
  | none ↦ est
  | some (reserve0, reserve1) ↦
      if reserve0 == 0 || reserve1 == 0
      then est
      else let out_0to1 =
          get_amount_out_v2 (decimal_reference decimals0) reserve0 reserve1 fee_factor in
        let out_1to0 =
          get_amount_out_v2 (decimal_reference decimals1) reserve1 reserve0 fee_factor in
        set_rate (set_rate est pool true (normalized_rate out_0to1 decimals1)) pool false
          (normalized_rate out_1to0 decimals0)
]

-- One direction of `update_v3_rate`: the amount that 1 unit buys, where it is known and not zero.
unfoldable pub store_v3_out : RateEstimator → Address → Bool → Fallible ℕ → ℕ → Option RateEstimator
store_v3_out est pool zero_for_one panic out_decimals = none
store_v3_out est pool zero_for_one missing out_decimals = some est
store_v3_out est pool zero_for_one (found out) out_decimals =
    some
      (if out == 0 then est else set_rate est pool zero_for_one (normalized_rate out out_decimals))

unfoldable pub update_exotic_passthrough : RateEstimator → Address → RateEstimator
update_exotic_passthrough est pool =
    set_rate (set_rate est pool true rate_scale) pool false rate_scale

unfoldable pub discounted : ℕ → ℕ
discounted fee = if ltb fee 1_000_000 then mul256 rate_scale (1_000_000 - fee) / 1_000_000 else 0

unfoldable pub update_v3_passthrough_with_fee : RateEstimator → Address → ℕ → RateEstimator
unfolding discounted
update_v3_passthrough_with_fee est pool fee =
    set_rate (set_rate est pool true (discounted fee)) pool false (discounted fee)

abbrev pub q96 : ℕ
q96 = 2 ^ 96

-- What 1 unit buys at the spot price before the fee, in the two directions; `none` where a product
-- overflows.
unfoldable pub spot_0to1 : ℕ → ℕ → Option ℕ
spot_0to1 reference sqrt_price = do
  step1 ← checked_mul reference sqrt_price
  step2 ← checked_mul (step1 / q96) sqrt_price
  some (step2 / q96)

unfoldable pub spot_1to0 : ℕ → ℕ → Option ℕ
spot_1to0 reference sqrt_price = do
  step1 ← checked_mul reference q96
  step2 ← checked_mul (step1 / sqrt_price) q96
  some (step2 / sqrt_price)

abbrev pub fee_num : ℕ → ℕ
fee_num fee = 1_000_000 - min fee 999_999

unfoldable pub spot_rate : Option ℕ → ℕ → ℕ → ℕ
spot_rate none fee out_decimals = 0
spot_rate (some raw_out) fee out_decimals =
    normalized_rate (mul256 raw_out (fee_num fee) / 1_000_000) out_decimals

abbrev pub store_nonzero : RateEstimator → Address → Bool → ℕ → RateEstimator
store_nonzero est pool zero_for_one rate =
    if rate == 0 then est else set_rate est pool zero_for_one rate

unfoldable pub update_v3_spot_rate :
    RateEstimator → BlockStateDb → Address → ℕ → ℕ → ℕ → RateEstimator
unfolding spot_0to1 spot_1to0 spot_rate
update_v3_spot_rate est db pool decimals0 decimals1 fee = elim (read_v3_slot0 db pool) [
  | none ↦ est
  | some (sqrt_price, tick) ↦
      if sqrt_price == 0
      then est
      else let rate_0to1 =
          spot_rate (spot_0to1 (decimal_reference decimals0) sqrt_price) fee decimals1 in
        let rate_1to0 =
          spot_rate (spot_1to0 (decimal_reference decimals1) sqrt_price) fee decimals0 in
        store_nonzero (store_nonzero est pool true rate_0to1) pool false rate_1to0
]

unfoldable pub update_aerodrome_rate :
    RateEstimator → BlockStateDb → Address → ℕ → ℕ → Bool → ℕ → Option RateEstimator
update_aerodrome_rate est db pool decimals0 decimals1 stable fee_bps =
    elim (read_v2_reserves db pool) [
      | none ↦ some est
      | some (reserve0, reserve1) ↦ if reserve0 == 0 || reserve1 == 0 then some est else (do
        out_0to1 ←
            get_amount_out_aerodrome (decimal_reference decimals0) reserve0 reserve1 decimals0
              decimals1 stable fee_bps true
        let est' = set_rate est pool true (normalized_rate out_0to1 decimals1)
        out_1to0 ←
            get_amount_out_aerodrome (decimal_reference decimals1) reserve0 reserve1 decimals0
              decimals1 stable fee_bps false
        some (set_rate est' pool false (normalized_rate out_1to0 decimals0)))
    ]

module _ (keccak256 : List ℕ → ℕ) (math : V3Math) where
  unfoldable pub update_v3_rate :
      RateEstimator → BlockStateDb → Address → ℕ → ℕ → ℕ → ℤ → Option RateEstimator
  unfolding store_v3_out
  update_v3_rate est db pool decimals0 decimals1 fee tick_spacing = do
    est' ←
        store_v3_out est pool true
          (get_amount_out_v3 keccak256 math db pool (decimal_reference decimals0) true fee
            tick_spacing)
          decimals1
    store_v3_out est' pool false
        (get_amount_out_v3 keccak256 math db pool (decimal_reference decimals1) false fee
          tick_spacing)
        decimals0

-- The rate of a step, zero where it is not known.
unfoldable pub step_rate : RateEstimator → SwapStep → ℕ
step_rate est step =
    unwrap_or (lookup (step.pool_address, ltb step.token_in step.token_out) est.rates) 0

-- The loop of `evaluate_path` from a cumulative rate.
unfoldable pub evaluate_steps : RateEstimator → List SwapStep → ℕ → ℕ
unfolding step_rate mul_div
evaluate_steps est [] cumulative = cumulative
evaluate_steps est (step ∷ steps) cumulative =
    let next = mul_div cumulative (step_rate est step) rate_scale in
    let rest = evaluate_steps est steps next in
    if step_rate est step == 0 then 0 else if next == 0 then 0 else rest

unfoldable pub evaluate_path : RateEstimator → SwapPath → ℕ
unfolding evaluate_steps
evaluate_path est path = evaluate_steps est path.steps rate_scale

unfoldable pub is_profitable : RateEstimator → SwapPath → Bool
is_profitable est path = ltb rate_scale (evaluate_path est path)

unfoldable pub expected_profit_rate : RateEstimator → SwapPath → ℕ
expected_profit_rate est path =
    let rate = evaluate_path est path in if ltb rate_scale rate then rate - rate_scale else 0

unfoldable pub weth_price_of : RateEstimator → Address → Option ℕ
weth_price_of est token = lookup token est.token_weth_prices

unfoldable pub weth_value_of : RateEstimator → Address → ℕ → ℕ → Option ℕ
unfolding weth_price_of
weth_value_of est token amount decimals = do
  price ← weth_price_of est token
  let ref_unit = decimal_reference decimals
  if ref_unit == 0 then none else some (mul_div amount price ref_unit)

unfoldable pub invalidate_pool : RateEstimator → Address → RateEstimator
invalidate_pool est pool = record est {
  rates = remove (pool, false) (remove (pool, true) est.rates);
}

unfoldable pub pool_count : RateEstimator → ℕ
pool_count est = length est.rates

unfoldable pub weth_price_count : RateEstimator → ℕ
weth_price_count est = length est.token_weth_prices

unfoldable pub clear : RateEstimator → RateEstimator
clear est = record { rates = []; token_weth_prices = [] }
