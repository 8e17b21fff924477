-- ===== src/Tests/Search.antt =====
-- The rates and the searcher on concrete inputs.
use arb_bot.Prelude.{
  ◌*◌, ◌≤◌, ◌<◌, ◌≡◌, ◌⊎◌, refl, arith, true, false, if◌then◌else◌, List, [], ◌∷◌, none, some, All,
  any, contains, lookup, insert, remove, nat_eq, pair_eq, length,
}
use arb_bot.Prelude.Int.{pos}
use arb_bot.Word.{mul256, checked_mul}
use arb_bot.Swap.Protocol.{uniswap_v2, curve_two_crypto, is_v3, is_aerodrome, is_exotic}
use arb_bot.Swap.Path.{Address, SwapStep, SwapPath, contains_pool}
use arb_bot.StateDb.Store.{BlockStateDb}
use arb_bot.Calculation.V3.Swap.{V3Math}
use arb_bot.Cache.{PathRateCache, get_fresh_rate, put_rate}
use arb_bot.Calculation.Rates.{
  RateEstimator, rate_scale, mul_div, step_rate, evaluate_steps, evaluate_path, invalidate_pool,
  update_exotic_passthrough,
}
use arb_bot.Calculation.Rates.Evaluate.{evaluate_path-invalidate_pool}
use arb_bot.Prelude.{none, ◌*◌, ◌⊎◌, ◌<◌, contains_key}
use arb_bot.PoolLoader.{RawPool}
use arb_bot.Calculation.Rates.{weth_price_of}
use arb_bot.Calculation.Rates.Seed.{seed_prices}
use arb_bot.Calculation.Rates.Prices.{seed_prices-weth_price_of}
use arb_bot.Searcher.{
  get_affected_paths, SearcherWorker, ArbPath, default_config, hop_gas, register_paths, update_pool,
  update_rates_for_pools, collect_indices, evaluate_one, insert_sorted, sort_by_profit,
  evaluate_indices, evaluate_paths_parallel,
}
use arb_bot.Prelude.{ℕ, ◌++◌, length-append}
use arb_bot.Searcher.Affected.{path_has, contains-collect_indices-register_paths}
use arb_bot.Searcher.Capped.{
  IsShuffle, count, users, count-concat, get_affected_paths-register_paths,
}
use arb_bot.Searcher.Update.{evaluate_path-update_rates_for_pools}
use arb_bot.Searcher.Evaluation.{IsSorted, IsWorthwhile, evaluate_paths_parallel-IsSorted}

program : Unit {0}
unfolding lookup insert remove contains mul256 checked_mul mul_div step_rate evaluate_steps
    evaluate_path contains_pool is_v3 is_aerodrome is_exotic update_exotic_passthrough
    invalidate_pool update_pool update_rates_for_pools get_fresh_rate put_rate hop_gas evaluate_one
    insert_sorted sort_by_profit evaluate_indices evaluate_paths_parallel
program = tt

abbrev step : Address → Address → Address → SwapStep
step pool token_in token_out = record {
  pool_address = pool;
  token_in = token_in;
  token_out = token_out;
  protocol = uniswap_v2;
  fee = 30;
}

-- Token 10 to 20 by pool 1 and back by pool 2.
abbrev there_and_back : SwapPath
there_and_back = record { steps = step 1 10 20 ∷ step 2 20 10 ∷ []; hash = 77 }

abbrev aside : SwapPath
aside = record { steps = step 3 10 20 ∷ step 4 20 10 ∷ []; hash = 78 }

abbrev rated : RateEstimator
rated = record {
  rates =
      ((1, true), 2 * rate_scale)
      ∷ ((2, false), rate_scale)
      ∷ ((3, true), rate_scale)
      ∷ ((4, false), rate_scale)
      ∷ [];
  token_weth_prices = [];
}

doubled : evaluate_path rated there_and_back ≡ 2 * rate_scale
unfolding program
doubled = refl

evaluate_path-invalidate_pool_example :
    evaluate_path (invalidate_pool rated 1) there_and_back
    ≡ (if contains_pool there_and_back 1 then 0 else evaluate_path rated there_and_back)
evaluate_path-invalidate_pool_example = evaluate_path-invalidate_pool rated 1 there_and_back

aside-All : All (λ s. step_rate rated s ≤ rate_scale) aside.steps
unfolding program
aside-All = (omega arith, (omega arith, tt))

abbrev worker : SearcherWorker
worker = record {
  config = default_config;
  pool_to_paths = [];
  all_paths = there_and_back ∷ aside ∷ [];
  pool_meta =
      (
        1,
        record {
          address = 1;
          token0 = 10;
          token1 = 20;
          decimals0 = 18;
          decimals1 = 18;
          meta_is_v3 = false;
          fee = 4;
          tick_spacing = pos 0;
          protocol = curve_two_crypto;
        },
      )
      ∷ [];
}

abbrev math : V3Math
math = record {
  get_sqrt_ratio_at_tick = λ tick. none;
  get_tick_at_sqrt_ratio = λ price. none;
  compute_swap_step = λ price target liq remaining fee. none;
}

abbrev db : BlockStateDb
db = record { accounts = []; block_number = 7; tracked_pools = []; pancake_v3_pools = [] }

updated :
    update_rates_for_pools length math worker db (1 ∷ 9 ∷ []) rated
    ≡ some (update_exotic_passthrough (invalidate_pool rated 1) 1)
unfolding program
updated = refl

avoids : any (contains_pool aside) (1 ∷ 9 ∷ []) ≡ false
unfolding program
avoids = refl

evaluate_path-update_rates_for_pools_example :
    evaluate_path (update_exotic_passthrough (invalidate_pool rated 1) 1) aside
    ≡ evaluate_path rated aside
evaluate_path-update_rates_for_pools_example =
    evaluate_path-update_rates_for_pools length math worker db (1 ∷ 9 ∷ []) rated
      (update_exotic_passthrough (invalidate_pool rated 1) 1) aside updated avoids

contains-collect_indices-register_paths_example :
    contains 0
      (collect_indices (register_paths worker (there_and_back ∷ aside ∷ [])) (1 ∷ 2 ∷ []) [])
    ≡ any (path_has (there_and_back ∷ aside ∷ []) 0) (1 ∷ 2 ∷ [])
contains-collect_indices-register_paths_example =
    contains-collect_indices-register_paths worker (there_and_back ∷ aside ∷ []) (1 ∷ 2 ∷ []) 0

abbrev weth_pool : RawPool
weth_pool = record {
  address = 1;
  token0 = 10;
  token1 = 20;
  decimals0 = 18;
  decimals1 = 18;
  fee = 30;
  tick_spacing = pos 0;
  protocol = uniswap_v2;
}

priced : weth_price_of (seed_prices rated 20 (weth_pool ∷ [])) 10 ≡ some (2 * rate_scale)
unfolding program seed_prices weth_price_of contains_key
priced = refl

seed_prices-weth_price_of_example :
    ((seed_prices rated 20 (weth_pool ∷ [])).rates ≡ rated.rates)
    × ((token : Address)
        → (weth_price_of (seed_prices rated 20 (weth_pool ∷ [])) token ≡ weth_price_of rated token)
          ⊎ ((weth_price_of rated token ≡ none)
              × ((p : ℕ) × (weth_price_of (seed_prices rated 20 (weth_pool ∷ [])) token ≡ some p)
                  × (0 < p))))
seed_prices-weth_price_of_example = seed_prices-weth_price_of rated 20 (weth_pool ∷ [])

abbrev reversed : List ℕ → List ℕ
reversed [] = []
reversed (x ∷ xs) = reversed xs ++ x ∷ []

length-reversed : (xs : List ℕ) → length (reversed xs) ≡ length xs
length-reversed [] = refl
length-reversed (x ∷ xs) = omega (arith, length-append (reversed xs) (x ∷ []), length-reversed xs)

count-reversed : (xs : List ℕ) (i : ℕ) → count i (reversed xs) ≡ count i xs
count-reversed [] i = refl
count-reversed (x ∷ xs) i = omega (arith, count-concat i x (reversed xs), count-reversed xs i)

reversed-IsShuffle : IsShuffle reversed
reversed-IsShuffle = record { keeps_length = length-reversed; keeps_count = count-reversed }

abbrev both : List SwapPath
both = there_and_back ∷ aside ∷ []

abbrev answered : List ℕ
answered = get_affected_paths reversed (register_paths worker both) (1 ∷ 3 ∷ []) false

get_affected_paths-register_paths_example :
    (length answered ≤ 50_000)
    × (count 1 answered ≤ 1)
    × (contains 1 answered ≡ true → any (path_has both 1) (1 ∷ 3 ∷ []) ≡ true)
    × (users both (1 ∷ 3 ∷ []) ≤ 50_000 → contains 1 answered ≡ any (path_has both 1) (1 ∷ 3 ∷ []))
get_affected_paths-register_paths_example =
    get_affected_paths-register_paths reversed worker both (1 ∷ 3 ∷ []) false 1 reversed-IsShuffle

abbrev results : List ArbPath
results =
    record {
      path = there_and_back;
      expected_profit = rate_scale;
      gas_estimate = 160_000;
      block_number = 7;
    }
    ∷ record { path = aside; expected_profit = 0; gas_estimate = 160_000; block_number = 7 }
    ∷ []

abbrev evaluated : PathRateCache
evaluated = record { rates = (78, (rate_scale, 7)) ∷ (77, (2 * rate_scale, 7)) ∷ [] }

evaluates :
    evaluate_paths_parallel rated worker 7 (1 ∷ 0 ∷ []) (record { rates = [] })
    ≡ some (results, evaluated)
unfolding program
evaluates = refl

evaluate_paths_parallel-IsSorted_example : IsSorted results × All (IsWorthwhile rated 7) results
evaluate_paths_parallel-IsSorted_example =
    evaluate_paths_parallel-IsSorted rated worker 7 (1 ∷ 0 ∷ []) (record { rates = [] }) evaluated
      results evaluates
