-- ===== src/Calculation/Rates/Seed.antt =====
-- `seed_from_raw_pools` of src/calculation/rates.rs: the rates of all pools, then the WETH prices.
use arb_bot.Prelude.{
  ℕ, ◌-◌, Bool, true, false, ◌&&◌, List, [], ◌∷◌, Option, none, some, ltb, leb, ◌==◌, if◌then◌else◌,
  ◌>>=◌, nat_eq, pair_eq, lookup, insert, contains_key,
}
use arb_bot.Swap.Path.{Address}
use arb_bot.Swap.Protocol.{is_v3, is_aerodrome, is_exotic, v2_fee_factor}
use arb_bot.PoolLoader.{RawPool}
use arb_bot.StateDb.Store.{BlockStateDb}
use arb_bot.Calculation.V3.Bitmap.{is_zero_ℤ}
use arb_bot.Calculation.V3.Swap.{V3Math}
use arb_bot.Calculation.Rates.{
  RateEstimator, update_v2_rate, update_v3_rate, update_exotic_passthrough, update_aerodrome_rate,
}

-- The fee factor of a constant-product pool: from the pool's fee where that is plausible.
unfoldable pub fee_factor : RawPool → ℕ
fee_factor pool =
    let csv_factor = 10_000 - pool.fee in
    if leb 9900 csv_factor && ltb csv_factor 10_000 then csv_factor else v2_fee_factor pool.protocol

-- `entry(token).or_insert(rate)`
abbrev pub or_insert : Address → ℕ → List (Address × ℕ) → List (Address × ℕ)
or_insert token rate prices = if contains_key token prices then prices else insert token rate prices

-- The price that a pool gives a token in the direction towards WETH, where its rate is not zero.
unfoldable pub price_token : RateEstimator → Address → Address → Bool → RateEstimator
price_token est pool other_token zero_for_one = elim (lookup (pool, zero_for_one) est.rates) [
  | none ↦ est
  | some rate ↦
      if rate == 0
      then est
      else record est { token_weth_prices = or_insert other_token rate est.token_weth_prices }
]

-- the body of the second loop
unfoldable pub seed_price : RateEstimator → Address → RawPool → RateEstimator
unfolding price_token
seed_price est weth_addr pool =
    if pool.token0 == weth_addr
    then price_token est pool.address pool.token1 false
    else if pool.token1 == weth_addr
    then price_token est pool.address pool.token0 true
    else est

unfoldable pub seed_prices : RateEstimator → Address → List RawPool → RateEstimator
unfolding seed_price
seed_prices est weth_addr [] = est
seed_prices est weth_addr (pool ∷ pools) =
    seed_prices (seed_price est weth_addr pool) weth_addr pools

module _ (keccak256 : List ℕ → ℕ) (math : V3Math) where
  -- the body of the first loop
  unfoldable pub seed_rate : BlockStateDb → RateEstimator → RawPool → Option RateEstimator
  unfolding fee_factor
  seed_rate db est pool =
      if is_v3 pool.protocol
      then update_v3_rate keccak256 math est db pool.address pool.decimals0 pool.decimals1 pool.fee
          pool.tick_spacing
      else if is_aerodrome pool.protocol
      then update_aerodrome_rate est db pool.address pool.decimals0 pool.decimals1
          (is_zero_ℤ pool.tick_spacing) pool.fee
      else if is_exotic pool.protocol
      then some (update_exotic_passthrough est pool.address)
      else some (update_v2_rate est db pool.address pool.decimals0 pool.decimals1 (fee_factor pool))

  unfoldable pub seed_rates : BlockStateDb → RateEstimator → List RawPool → Option RateEstimator
  unfolding seed_rate
  seed_rates db est [] = some est
  seed_rates db est (pool ∷ pools) = do est' ← seed_rate db est pool; seed_rates db est' pools

  unfoldable pub seed_from_raw_pools :
      RateEstimator → List RawPool → Address → BlockStateDb → Option RateEstimator
  unfolding seed_rates seed_prices
  seed_from_raw_pools est pools weth_addr db = do
    est' ← seed_rates db est pools
    some (seed_prices est' weth_addr pools)
