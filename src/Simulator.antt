-- ===== src/Simulator.antt =====
-- src/simulator_pipeline.rs: the decision whether a path gains enough after all costs. The quote of
-- the EVM is a parameter; locks are passed through, and what is logged is left out.
pub mod Balance
use arb_bot.Prelude.{
  ℕ, zero, ◌+◌, ◌-◌, ◌*◌, ◌/◌, ◌%◌, ◌^◌, Bool, true, false, ◌&&◌, ◌||◌, List, [], ◌∷◌, Option, none,
  some, ltb, leb, ◌==◌, if◌then◌else◌, ◌>>=◌, any, nat_eq, lookup, contains,
}
use arb_bot.Word.{u64_mod, mul256, checked_mul}
use arb_bot.Swap.Path.{Address, SwapStep, SwapPath, first_token}
use arb_bot.StateDb.Store.{BlockStateDb}
use arb_bot.StateDb.Read.{read_v2_reserves, read_v3_slot0}
use arb_bot.Gas.{GasStation, estimate_gas_cost_wei}
use arb_bot.SimDb.{SimDb, snapshot, write_back}
use arb_bot.Quoter.{optimize_input_with_db}
use arb_bot.Searcher.{ArbPath}

pub record SimulatorConfig : Type 0 where
  pub min_profit_wei : ℕ
  pub optimization_steps : ℕ
  pub min_input : ℕ
  pub max_input : ℕ
  pub profit_share_bps : ℕ
  pub flash_loan_fee_bps : ℕ
  pub max_stale_blocks : ℕ

abbrev pub default_config : SimulatorConfig
default_config = record {
  min_profit_wei = 100_000_000_000_000;
  optimization_steps = 20;
  min_input = 10_000_000_000_000_000;
  max_input = 50_000_000_000_000_000_000;
  profit_share_bps = 5000;
  flash_loan_fee_bps = 0;
  max_stale_blocks = 3;
}

pub record SimulatorWorker : Type 0 where
  pub config : SimulatorConfig
  pub gas_station : GasStation
  pub blacklisted_paths : List ℕ
  pub blacklisted_tokens : List Address
  pub native_token : Address
  pub token_price_pools : List (Address × Address)

-- `ValidPath` of src/pipeline_events.rs
pub record ValidPath : Type 0 where
  pub arb : ArbPath
  pub amount_in : ℕ
  pub amount_out : ℕ
  pub gas_cost : ℕ
  pub net_profit : ℕ

abbrev pub q96 : ℕ
q96 = 2 ^ 96

unfoldable pub v3_spot_price_convert : ℕ → ℕ → Bool → Option ℕ
v3_spot_price_convert profit sqrt_price_x96 start_is_token0 =
    if sqrt_price_x96 == 0 || profit == 0
    then some 0
    else if start_is_token0
    then (do
      product1 ← checked_mul profit sqrt_price_x96
      product2 ← checked_mul (product1 / q96) sqrt_price_x96
      some (product2 / q96))
    else (do
      product1 ← checked_mul profit q96
      product2 ← checked_mul (product1 / sqrt_price_x96) q96
      some (product2 / sqrt_price_x96))

unfoldable pub estimate_initial_input : SimulatorWorker → ℕ
estimate_initial_input w =
    let base : ℕ = 1_000_000_000_000_000_000 in
    if ltb base w.config.min_input
    then w.config.min_input
    else if ltb w.config.max_input base
    then w.config.max_input
    else base

-- The guards of the loop of `run` before a path is simulated: `latest` and `cached_head` are the
-- newest block of the workers and of the chain, and the sums are of 64 bits.
unfoldable pub is_stale : SimulatorWorker → ArbPath → ℕ → ℕ → Bool
is_stale w arb cached_head latest =
    let horizon = (arb.block_number + w.config.max_stale_blocks) % u64_mod in
    (ltb 0 cached_head && ltb horizon cached_head) || ltb horizon latest

unfoldable pub is_blacklisted : SimulatorWorker → ArbPath → Bool
is_blacklisted w arb =
    contains arb.path.hash w.blacklisted_paths
    || any
        (λ s. contains s.token_in w.blacklisted_tokens || contains s.token_out w.blacklisted_tokens)
        arb.path.steps

unfoldable pub flash_fee : SimulatorConfig → ℕ → ℕ
flash_fee config best_input =
    if ltb 0 config.flash_loan_fee_bps
    then mul256 best_input config.flash_loan_fee_bps / 10_000
    else 0

-- The profit by the reserves of a pool of the start token and the native token.
abbrev pub by_reserves : ℕ → Bool → ℕ × ℕ → Option ℕ
by_reserves profit start_is_token0 (r0, r1) =
    let r_token = if start_is_token0 then r0 else r1 in
    let r_native = if start_is_token0 then r1 else r0 in
    if r_token == 0 then none else some (mul256 profit r_native / r_token)

-- The profit in native tokens by a price pool, which is of either kind.
abbrev pub by_pool : ℕ → Bool → Option (ℕ × ℕ) → Option ℕ → Option ℕ
by_pool profit start_is_token0 (some reserves) price = by_reserves profit start_is_token0 reserves
by_pool profit start_is_token0 none (some sqrt_price_x96) =
    v3_spot_price_convert profit sqrt_price_x96 start_is_token0
by_pool profit start_is_token0 none none = some profit

unfoldable pub profit_native : SimulatorWorker → BlockStateDb → Address → ℕ → Option ℕ
unfolding v3_spot_price_convert
profit_native w db start_token profit_after_fee =
    if start_token == w.native_token
    then some profit_after_fee
    else elim (lookup start_token w.token_price_pools) [
      | none ↦ some profit_after_fee
      | some price_pool ↦
          by_pool profit_after_fee (ltb start_token w.native_token) (read_v2_reserves db price_pool)
            (do (sqrt_price_x96, tick) ← read_v3_slot0 db price_pool; some sqrt_price_x96)
    ]

-- Steps 4a to 4c: what is left of the best quote. A panic of the gas prediction, a division by zero,
-- gives nothing here as well.
unfoldable pub settle : SimulatorWorker → BlockStateDb → ArbPath → ℕ → ℕ → Option ValidPath
unfolding flash_fee profit_native
settle w db arb best_input best_output =
    let gross_profit = best_output - best_input in
    let fee = flash_fee w.config best_input in
    if leb best_output best_input then none else if leb gross_profit fee then none else (do
      profit ← profit_native w db (first_token arb.path.steps w.native_token) (gross_profit - fee)
      gas_cost ← estimate_gas_cost_wei w.gas_station arb.gas_estimate
      if leb profit gas_cost
          then none
          else (if ltb (profit - gas_cost) w.config.min_profit_wei
              then none
              else some (record {
                arb = arb;
                amount_in = best_input;
                amount_out = best_output;
                gas_cost = gas_cost;
                net_profit = profit - gas_cost;
              })))

abbrev pub is_viable : ℕ → Option ℕ → Bool
is_viable probe_input none = false
is_viable probe_input (some out) = ltb probe_input out

module _ (quote_with_db : SwapPath → SimDb → ℕ → Option ℕ × SimDb) where
  unfoldable pub simulate_and_optimize :
      SimulatorWorker → BlockStateDb → ArbPath → Option ValidPath × BlockStateDb
  unfolding settle
  simulate_and_optimize w db arb =
      let quote = quote_with_db arb.path in
      let (probe_output, sim_db) = quote (snapshot db) w.config.min_input in
      let ((best_input, best_output), sim_db') =
        optimize_input_with_db quote sim_db w.config.min_input w.config.max_input
          w.config.optimization_steps in
      let db' = write_back sim_db' db in
      if is_viable w.config.min_input probe_output
      then (settle w db' arb best_input best_output, db')
      else (none, db)
