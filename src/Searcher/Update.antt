-- ===== src/Searcher/Update.antt =====
-- What `update_rates_for_pools` of src/searcher_pipeline.rs does to the rates of the pools.
use arb_bot.Prelude.{
  ℕ, ◌≡◌, false, List, [], ◌∷◌, Option, none, some, arith, any, >>=-eq-some, nat_eq, pair_eq,
  lookup, ◌∙◌,
}
use arb_bot.Swap.Protocol.{is_v3, is_aerodrome, is_exotic}
use arb_bot.Swap.Path.{Address, SwapPath, contains_pool}
use arb_bot.StateDb.Store.{BlockStateDb}
use arb_bot.Calculation.V3.Bitmap.{is_zero_ℤ}
use arb_bot.Calculation.V3.Swap.{V3Math}
use arb_bot.Calculation.Rates.{
  RateEstimator, invalidate_pool, evaluate_path, update_v3_spot_rate, update_v3_rate,
  update_v3_passthrough_with_fee,
}
use arb_bot.Calculation.Rates.Frame.{
  AgreeIfSome, agree_refl, agree_some, agree_bind, agree_after_change, agree_apply, agree_if,
  agree_if_some, invalidate_pool-AgreeOff, update_v2_rate-AgreeOff, update_v3_rate-AgreeOff,
  update_v3_spot_rate-AgreeOff, update_v3_passthrough_with_fee-AgreeOff,
  update_exotic_passthrough-AgreeOff, update_aerodrome_rate-AgreeOff, evaluate_path-AgreeOff,
}
use arb_bot.Searcher.{
  SearcherWorker, PoolMeta, has_rate, fee_factor, update_v3, update_pool, update_known,
  update_rates_for_pools,
}

module _ (keccak256 : List ℕ → ℕ) (math : V3Math) (db : BlockStateDb) (pool : Address) where
  update_v3-AgreeOff :
      (meta : PoolMeta) (est : RateEstimator)
      → AgreeIfSome pool est (update_v3 keccak256 math db pool meta est)
  unfolding update_v3
  update_v3-AgreeOff meta est =
      let spot = update_v3_spot_rate est db pool meta.decimals0 meta.decimals1 meta.fee in
      agree_after_change pool est spot _
        (update_v3_spot_rate-AgreeOff est db pool meta.decimals0 meta.decimals1 meta.fee)
        (agree_bind pool spot _ _
          (agree_if_some pool spot (some spot)
            (update_v3_rate keccak256 math spot db pool meta.decimals0 meta.decimals1 meta.fee
              meta.tick_spacing)
            (has_rate spot pool) (agree_some pool spot spot (agree_refl pool spot))
            (update_v3_rate-AgreeOff keccak256 math spot db pool meta.decimals0 meta.decimals1
              meta.fee meta.tick_spacing))
          (λ walked. agree_some pool walked _ (
            agree_if pool walked walked (update_v3_passthrough_with_fee walked pool meta.fee)
              (has_rate walked pool) (agree_refl pool walked)
              (update_v3_passthrough_with_fee-AgreeOff walked pool meta.fee))))

  update_pool-AgreeOff :
      (meta : PoolMeta) (est : RateEstimator)
      → AgreeIfSome pool est (update_pool keccak256 math db pool meta est)
  unfolding update_pool
  update_pool-AgreeOff meta est =
      let est' = invalidate_pool est pool in
      agree_after_change pool est est' _ (invalidate_pool-AgreeOff est pool) (
        agree_if_some pool est' _ _ (is_v3 meta.protocol) (update_v3-AgreeOff meta est') (
          agree_if_some pool est' _ _ (is_aerodrome meta.protocol)
            (update_aerodrome_rate-AgreeOff est' db pool meta.decimals0 meta.decimals1
              (is_zero_ℤ meta.tick_spacing) meta.fee)
            (agree_if_some pool est' _ _ (is_exotic meta.protocol)
              (agree_some pool est' _ (update_exotic_passthrough-AgreeOff est' pool))
              (agree_some pool est' _ (
                update_v2_rate-AgreeOff est' db pool meta.decimals0 meta.decimals1
                  (fee_factor meta))))))

  update_known-AgreeOff :
      (meta : Option PoolMeta) (est : RateEstimator)
      → AgreeIfSome pool est (update_known keccak256 math db pool meta est)
  update_known-AgreeOff none est = agree_some pool est est (agree_refl pool est)
  update_known-AgreeOff (some meta) est = update_pool-AgreeOff meta est

-- An event that touches some pools leaves the value of every path that avoids them all as it was.
pub evaluate_path-update_rates_for_pools :
    (keccak256 : List ℕ → ℕ) (math : V3Math) (w : SearcherWorker) (db : BlockStateDb)
    (pools : List Address) (est est' : RateEstimator) (path : SwapPath)
    → update_rates_for_pools keccak256 math w db pools est ≡ some est'
    → any (contains_pool path) pools ≡ false
    → evaluate_path est' path ≡ evaluate_path est path
unfolding update_rates_for_pools
evaluate_path-update_rates_for_pools keccak256 math w db [] est est' path h k = ground arith
evaluate_path-update_rates_for_pools keccak256 math w db (pool ∷ pools) est est' path h k =
    let (x, first, rest) =
      >>=-eq-some (update_known keccak256 math db pool (lookup pool w.pool_meta) est)
        (update_rates_for_pools keccak256 math w db pools) h in
    evaluate_path-update_rates_for_pools keccak256 math w db pools x est' path rest (ground arith)
    ∙ evaluate_path-AgreeOff pool est x
        (agree_apply pool est x _
          (update_known-AgreeOff keccak256 math db pool (lookup pool w.pool_meta) est) first)
        path (ground arith)
