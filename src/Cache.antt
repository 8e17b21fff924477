-- ===== src/Cache.antt =====
-- src/cache_v2.rs: the cache of swap results with its index by pool, and the cache of path rates.
-- A `DashMap` is a map; each method is one step on the state.
pub mod Index
pub mod Fresh
use arb_bot.Prelude.{
  ℕ, ◌≡◌, ◌↔◌, refl, Bool, true, false, ◌&&◌, List, [], ◌∷◌, ◌++◌, Option, none, some, arith, ◌==◌,
  ==_iff, if◌then◌else◌, length, unwrap_or, Eq, nat_eq, bool_beq, bool_beq_iff, lookup, insert,
  remove, retain,
}
use arb_bot.Swap.Path.{Address}

pub record CacheKey : Type 0 where
  pub pool : Address
  pub amount_in : ℕ
  pub zero_for_one : Bool

abbrev pub key_beq : CacheKey → CacheKey → Bool
key_beq a b =
    a.pool == b.pool && (a.amount_in == b.amount_in && bool_beq a.zero_for_one b.zero_for_one)

pub key_beq_iff : (a b : CacheKey) → (key_beq a b ≡ true) ↔ (a ≡ b)
key_beq_iff a b = ground arith

instance abbrev pub key_eq : Eq CacheKey
key_eq = record { beq = key_beq; beq_iff = key_beq_iff }

pub record CacheValue : Type 0 where
  pub amount_out : ℕ
  pub block_number : ℕ

pub record CalcCache : Type 0 where
  pub map : List (CacheKey × CacheValue)
  pub pool_keys : List (Address × List CacheKey)

unfoldable pub new : CalcCache
new = record { map = []; pool_keys = [] }

unfoldable pub get : CalcCache → CacheKey → Option CacheValue
get c key = lookup key c.map

abbrev pub fresh_amount : ℕ → Option CacheValue → Option ℕ
fresh_amount current_block none = none
fresh_amount current_block (some v) =
    if v.block_number == current_block then some v.amount_out else none

unfoldable pub get_fresh : CalcCache → CacheKey → ℕ → Option ℕ
get_fresh c key current_block = fresh_amount current_block (lookup key c.map)

-- The keys that the index has for a pool.
abbrev pub keys_of : CalcCache → Address → List CacheKey
keys_of c pool = unwrap_or (lookup pool c.pool_keys) []

-- `CalcCache::insert`
unfoldable pub put : CalcCache → CacheKey → CacheValue → CalcCache
put c key value = record {
  pool_keys = insert key.pool (keys_of c key.pool ++ key ∷ []) c.pool_keys;
  map = insert key value c.map;
}

unfoldable pub cache_amount_out : CalcCache → Address → ℕ → Bool → ℕ → ℕ → CalcCache
unfolding put
cache_amount_out c pool amount_in zero_for_one amount_out block_number =
    put c (record { pool = pool; amount_in = amount_in; zero_for_one = zero_for_one })
      (record { amount_out = amount_out; block_number = block_number })

unfoldable pub remove_all :
    List CacheKey → List (CacheKey × CacheValue) → List (CacheKey × CacheValue)
remove_all [] m = m
remove_all (key ∷ keys) m = remove_all keys (remove key m)

unfoldable pub invalidate_pool : CalcCache → Address → CalcCache
unfolding remove_all
invalidate_pool c pool = record {
  map = remove_all (keys_of c pool) c.map;
  pool_keys = remove pool c.pool_keys;
}

unfoldable pub invalidate_pools : CalcCache → List Address → CalcCache
unfolding invalidate_pool
invalidate_pools c [] = c
invalidate_pools c (pool ∷ pools) = invalidate_pools (invalidate_pool c pool) pools

unfoldable pub clear : CalcCache → CalcCache
clear c = record { map = []; pool_keys = [] }

unfoldable pub len : CalcCache → ℕ
len c = length c.map

unfoldable pub is_empty : CalcCache → Bool
is_empty c = length c.map == 0

unfoldable pub retain_fresh : CalcCache → ℕ → CalcCache
retain_fresh c current_block = record c {
  map = retain (λ v. v.block_number == current_block) c.map;
}

-- `PathRateCache`: the rate and the block of a path's hash
pub record PathRateCache : Type 0 where
  pub rates : List (ℕ × (ℕ × ℕ))

unfoldable pub new_rates : PathRateCache
new_rates = record { rates = [] }

abbrev pub fresh_rate : ℕ → Option (ℕ × ℕ) → Option ℕ
fresh_rate current_block none = none
fresh_rate current_block (some (rate, block)) = if block == current_block then some rate else none

unfoldable pub get_fresh_rate : PathRateCache → ℕ → ℕ → Option ℕ
get_fresh_rate c path_hash current_block = fresh_rate current_block (lookup path_hash c.rates)

unfoldable pub put_rate : PathRateCache → ℕ → ℕ → ℕ → PathRateCache
put_rate c path_hash rate block_number = record {
  rates = insert path_hash (rate, block_number) c.rates;
}

unfoldable pub clear_rates : PathRateCache → PathRateCache
clear_rates c = record { rates = [] }
