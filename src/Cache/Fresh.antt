-- ===== src/Cache/Fresh.antt =====
-- Which results of src/cache_v2.rs count as fresh.
use arb_bot.Prelude.{
  ℕ, ◌≡◌, inl, inr, none, some, arith, ◌==◌, if◌then◌else◌, List, lookup-insert, nat_eq,
  Option-cases, lookup,
}
use arb_bot.Cache.{
  CacheKey, CacheValue, CalcCache, key_beq, key_eq, put, get_fresh, new, retain_fresh,
  PathRateCache, put_rate, get_fresh_rate,
}
use arb_bot.Cache.Index.{Call, run, run-IsIndexed, new-IsIndexed, lookup-put, lookup-retain_fresh}

-- A result is read back only in the block that it was cached for, and caching it changes no other.
pub get_fresh-put :
    (c : CalcCache) (key k : CacheKey) (v : CacheValue) (block : ℕ)
    → get_fresh (put c key v) k block ≡ (
        if key_beq key k
        then (if v.block_number == block then some v.amount_out else none)
        else get_fresh c k block)
unfolding get_fresh
get_fresh-put c key k v block = ground (arith, lookup-put c key k v)

-- After any sequence of calls, dropping the results of other blocks changes no fresh read of the
-- block that is kept, and leaves nothing to read for any other block.
pub get_fresh-retain_fresh :
    (calls : List Call) (k : CacheKey) (kept block : ℕ)
    → get_fresh (retain_fresh (run calls new) kept) k block
      ≡ (if kept == block then get_fresh (run calls new) k block else none)
unfolding get_fresh
get_fresh-retain_fresh calls k kept block = elim (Option-cases (lookup k (run calls new).map)) [
  | inl miss ↦
      ground
        (arith, lookup-retain_fresh (run calls new) kept k (run-IsIndexed calls new new-IsIndexed))
  | inr (v, hit) ↦
      ground
        (arith, lookup-retain_fresh (run calls new) kept k (run-IsIndexed calls new new-IsIndexed))
]

-- A path's rate is read back only in its block, and caching it changes no other hash.
pub get_fresh_rate-put_rate :
    (c : PathRateCache) (hash h rate block current : ℕ)
    → get_fresh_rate (put_rate c hash rate block) h current ≡ (
        if hash == h
        then (if block == current then some rate else none)
        else get_fresh_rate c h current)
unfolding get_fresh_rate put_rate
get_fresh_rate-put_rate c hash h rate block current =
    ground (arith, lookup-insert hash h (rate, block) c.rates)
