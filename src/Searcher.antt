-- ===== src/Searcher.antt =====
-- src/searcher_pipeline.rs: the searcher, which keeps the rates of the pools up to date and finds the
-- paths that are worth a simulation. The shared state that it locks is passed to its functions and
-- returned; what it logs and counts for the log is left out.
pub mod Affected
pub mod Capped
pub mod Update
pub mod Evaluation
use arb_bot.Prelude.{
  ℕ, zero, suc, ◌+◌, ◌-◌, ◌*◌, Bool, true, false, ◌&&◌, not, List, [], ◌∷◌, ◌++◌, Option, none,
  some, ltb, leb, ◌==◌, if◌then◌else◌, ◌>>=◌, unwrap_or, length, take, get_elem?, nat_eq, pair_eq,
  lookup, insert, contains, contains_key,
}
use arb_bot.Prelude.Int.{ℤ}
use arb_bot.Swap.Protocol.{PoolProtocol, is_v3, is_aerodrome, is_exotic, v2_fee_factor}
use arb_bot.Swap.Path.{Address, SwapStep, SwapPath}
use arb_bot.StateDb.Store.{BlockStateDb}
use arb_bot.Cache.{PathRateCache, get_fresh_rate, put_rate}
use arb_bot.Calculation.V3.Bitmap.{is_zero_ℤ}
use arb_bot.Calculation.V3.Swap.{V3Math}
use arb_bot.Calculation.Rates.{
  RateEstimator, rate_scale, invalidate_pool, update_v2_rate, update_v3_rate, update_v3_spot_rate,
  update_v3_passthrough_with_fee, update_exotic_passthrough, update_aerodrome_rate, evaluate_path,
}

pub record PoolMeta : Type 0 where
  pub address : Address
  pub token0 : Address
  pub token1 : Address
  pub decimals0 : ℕ
  pub decimals1 : ℕ
  pub meta_is_v3 : Bool
  pub fee : ℕ
  pub tick_spacing : ℤ
  pub protocol : PoolProtocol

pub record SearcherConfig : Type 0 where
  pub max_paths_per_block : ℕ
  pub searcher_gas_estimate : ℕ

abbrev pub default_config : SearcherConfig
default_config = record { max_paths_per_block = 50_000; searcher_gas_estimate = 250_000 }

pub record SearcherWorker : Type 0 where
  pub config : SearcherConfig
  pub pool_to_paths : List (Address × List ℕ)
  pub all_paths : List SwapPath
  pub pool_meta : List (Address × PoolMeta)

unfoldable pub new : SearcherConfig → SearcherWorker
new config = record { config = config; pool_to_paths = []; all_paths = []; pool_meta = [] }

-- The indices of the paths that are known to use a pool.
abbrev pub paths_of : Address → List (Address × List ℕ) → List ℕ
paths_of pool m = unwrap_or (lookup pool m) []

-- The loop over the steps of one path.
unfoldable pub index_steps : ℕ → List SwapStep → List (Address × List ℕ) → List (Address × List ℕ)
index_steps idx [] m = m
index_steps idx (step ∷ steps) m =
    index_steps idx steps (insert step.pool_address (paths_of step.pool_address m ++ idx ∷ []) m)

-- The loop over the paths, from the index of the first.
unfoldable pub index_paths : ℕ → List SwapPath → List (Address × List ℕ) → List (Address × List ℕ)
unfolding index_steps
index_paths idx [] m = m
index_paths idx (path ∷ paths) m = index_paths (suc idx) paths (index_steps idx path.steps m)

unfoldable pub register_paths : SearcherWorker → List SwapPath → SearcherWorker
unfolding index_paths
register_paths w paths = record w { all_paths = paths; pool_to_paths = index_paths 0 paths [] }

unfoldable pub register_pool_meta : SearcherWorker → List PoolMeta → SearcherWorker
register_pool_meta w [] = w
register_pool_meta w (m ∷ meta) =
    register_pool_meta (record w { pool_meta = insert m.address m w.pool_meta }) meta

abbrev pub fee_factor : PoolMeta → ℕ
fee_factor meta =
    let csv_factor = 10_000 - meta.fee in
    if leb 9900 csv_factor && ltb csv_factor 10_000 then csv_factor else v2_fee_factor meta.protocol

abbrev pub has_rate : RateEstimator → Address → Bool
has_rate est pool = contains_key (pool, true) est.rates

module _ (keccak256 : List ℕ → ℕ) (math : V3Math) where
  -- The branch of `update_rates_for_pools` for a concentrated-liquidity pool: the spot rate, else the
  -- walk over the ticks, else the fee alone.
  unfoldable pub update_v3 :
      BlockStateDb → Address → PoolMeta → RateEstimator → Option RateEstimator
  update_v3 db pool meta est =
      let spot = update_v3_spot_rate est db pool meta.decimals0 meta.decimals1 meta.fee in
      do
        walked ←
            if has_rate spot pool
            then some spot
            else update_v3_rate keccak256 math spot db pool meta.decimals0 meta.decimals1 meta.fee
                meta.tick_spacing
        some (
            if has_rate walked pool
            then walked
            else update_v3_passthrough_with_fee walked pool meta.fee)

  -- the body of the loop of `update_rates_for_pools`
  unfoldable pub update_pool :
      BlockStateDb → Address → PoolMeta → RateEstimator → Option RateEstimator
  unfolding update_v3
  update_pool db pool meta est =
      let est' = invalidate_pool est pool in
      if is_v3 meta.protocol
      then update_v3 db pool meta est'
      else if is_aerodrome meta.protocol
      then update_aerodrome_rate est' db pool meta.decimals0 meta.decimals1
          (is_zero_ℤ meta.tick_spacing) meta.fee
      else if is_exotic meta.protocol
      then some (update_exotic_passthrough est' pool)
      else some (update_v2_rate est' db pool meta.decimals0 meta.decimals1 (fee_factor meta))

  abbrev pub update_known :
      BlockStateDb → Address → Option PoolMeta → RateEstimator → Option RateEstimator
  update_known db pool none est = some est
  update_known db pool (some meta) est = update_pool db pool meta est

  -- `none` is a panic
  unfoldable pub update_rates_for_pools :
      SearcherWorker → BlockStateDb → List Address → RateEstimator → Option RateEstimator
  unfolding update_pool
  update_rates_for_pools w db [] est = some est
  update_rates_for_pools w db (pool ∷ pools) est = do
    est' ← update_known db pool (lookup pool w.pool_meta) est
    update_rates_for_pools w db pools est'

-- `seen` holds just the indices that were pushed.
unfoldable pub push_unseen : List ℕ → List ℕ → List ℕ
push_unseen [] indices = indices
push_unseen (idx ∷ path_indices) indices =
    push_unseen path_indices (if contains idx indices then indices else indices ++ idx ∷ [])

unfoldable pub collect_indices : SearcherWorker → List Address → List ℕ → List ℕ
unfolding push_unseen
collect_indices w [] indices = indices
collect_indices w (pool ∷ pools) indices =
    collect_indices w pools (push_unseen (paths_of pool w.pool_to_paths) indices)

-- The random number generator's shuffle is a parameter.
module _ (shuffle : List ℕ → List ℕ) where
  unfoldable pub get_affected_paths : SearcherWorker → List Address → Bool → List ℕ
  unfolding collect_indices
  get_affected_paths w pools is_mempool_event =
      let found = collect_indices w pools [] in
      let indices = if is_mempool_event then found else shuffle found in
      let cap = w.config.max_paths_per_block in
      if ltb cap (length found) then take cap indices else indices

-- `ArbPath` of src/pipeline_events.rs
pub record ArbPath : Type 0 where
  pub path : SwapPath
  pub expected_profit : ℕ
  pub gas_estimate : ℕ
  pub block_number : ℕ

unfoldable pub hop_gas : List SwapStep → ℕ
hop_gas [] = 0
hop_gas (s ∷ steps) = (if is_v3 s.protocol then 80_000 else 50_000) + hop_gas steps

-- A cached rate that is fresh and below the least rate: the path is dropped without evaluation.
abbrev pub is_below : Option ℕ → Bool
is_below none = false
is_below (some rate) = ltb rate rate_scale

-- The closure that evaluates one path: what it yields, and the cache after it.
unfoldable pub evaluate_one :
    RateEstimator → ℕ → PathRateCache → SwapPath → Option ArbPath × PathRateCache
unfolding hop_gas
evaluate_one est block_number cache path =
    if is_below (get_fresh_rate cache path.hash block_number)
    then (none, cache)
    else let rate = evaluate_path est path in
      let arb : ArbPath = record {
        path = path;
        expected_profit = rate - rate_scale;
        gas_estimate = 60_000 + hop_gas path.steps;
        block_number = block_number;
      } in
      (
        if rate == 0 then none else if ltb rate rate_scale then none else some arb,
        put_rate cache path.hash rate block_number,
      )

-- `sort_unstable_by` with the larger profit first: one of the orders that it may return.
unfoldable pub insert_sorted : ArbPath → List ArbPath → List ArbPath
insert_sorted a [] = a ∷ []
insert_sorted a (b ∷ bs) =
    let rest = insert_sorted a bs in
    if ltb a.expected_profit b.expected_profit then b ∷ rest else a ∷ b ∷ bs

unfoldable pub sort_by_profit : List ArbPath → List ArbPath
unfolding insert_sorted
sort_by_profit [] = []
sort_by_profit (a ∷ arbs) = insert_sorted a (sort_by_profit arbs)

abbrev pub push_some : Option ArbPath → List ArbPath → List ArbPath
push_some none arbs = arbs
push_some (some a) arbs = a ∷ arbs

-- The closure runs on the indices one after another; an index out of range panics, which is `none`.
unfoldable pub evaluate_indices :
    RateEstimator
    → SearcherWorker
    → ℕ
    → List ℕ
    → PathRateCache
    → Option (List ArbPath × PathRateCache)
unfolding evaluate_one
evaluate_indices est w block_number [] cache = some ([], cache)
evaluate_indices est w block_number (idx ∷ indices) cache = do
  path ← get_elem? w.all_paths idx
  let (yielded, cache') = evaluate_one est block_number cache path
  (results, last) ← evaluate_indices est w block_number indices cache'
  some (push_some yielded results, last)

unfoldable pub evaluate_paths_parallel :
    RateEstimator
    → SearcherWorker
    → ℕ
    → List ℕ
    → PathRateCache
    → Option (List ArbPath × PathRateCache)
unfolding evaluate_indices sort_by_profit
evaluate_paths_parallel est w block_number indices cache = do
  (results, last) ← evaluate_indices est w block_number indices cache
  some (sort_by_profit results, last)
