-- ===== src/Cache/Index.antt =====
-- The index of src/cache_v2.rs: it knows every cached key, so invalidating a pool forgets all of
-- its results and no other.
use arb_bot.Prelude.{
  ℕ, ◌≡◌, refl, inl, inr, true, List, [], ◌∷◌, ◌++◌, none, some, arith, ◌==◌, if◌then◌else◌,
  Option-cases, IsUnique, insert-IsUnique, remove-IsUnique, retain-IsUnique, lookup-retain, keep,
  contains, contains-concat, nat_eq, lookup, remove, lookup-insert, lookup-remove,
}
use arb_bot.Swap.Path.{Address}
use arb_bot.Cache.{
  CacheKey, CacheValue, CalcCache, key_eq, key_beq, new, get, put, keys_of, remove_all,
  invalidate_pool, invalidate_pools, clear, retain_fresh,
}

pub record IsIndexed (c : CalcCache) : Type 0 where
  -- every cached key is in the index of its pool
  pub covered :
      (k : CacheKey) (v : CacheValue)
      → lookup k c.map ≡ some v
      → contains k (keys_of c k.pool) ≡ true
  -- the index of a pool holds keys of that pool only
  pub owned : (p : Address) (k : CacheKey) → contains k (keys_of c p) ≡ true → k.pool ≡ p
  -- the maps hold one entry for a key
  pub unique : IsUnique c.map
  pub unique_pools : IsUnique c.pool_keys

lookup-remove_all :
    (keys : List CacheKey) (m : List (CacheKey × CacheValue)) (k : CacheKey)
    → lookup k (remove_all keys m) ≡ (if contains k keys then none else lookup k m)
unfolding remove_all contains
lookup-remove_all [] m k = refl
lookup-remove_all (x ∷ xs) m k =
    ground (arith, lookup-remove_all xs (remove x m) k, lookup-remove x k m)

pub new-IsIndexed : IsIndexed new
unfolding new lookup contains
new-IsIndexed = record {
  covered = λ k v h. cc;
  owned = λ p k h. cc;
  unique = tt;
  unique_pools = tt;
}

keys_of-put :
    (c : CalcCache) (key : CacheKey) (v : CacheValue) (p : Address)
    → keys_of (put c key v) p ≡ (if key.pool == p then keys_of c p ++ key ∷ [] else keys_of c p)
unfolding put
keys_of-put c key v p =
    ground (arith, lookup-insert key.pool p (keys_of c key.pool ++ key ∷ []) c.pool_keys)

pub lookup-put :
    (c : CalcCache) (key k : CacheKey) (v : CacheValue)
    → lookup k (put c key v).map ≡ (if key_beq key k then some v else lookup k c.map)
unfolding put
lookup-put c key k v = lookup-insert key k v c.map

module _ (c : CalcCache) (key : CacheKey) (v : CacheValue) (h : IsIndexed c) where
  put-covered :
      (k : CacheKey) (w : CacheValue)
      → lookup k (put c key v).map ≡ some w
      → contains k (keys_of (put c key v) k.pool) ≡ true
  put-covered k w e = ground (
    arith,
    keys_of-put c key v k.pool,
    lookup-put c key k v,
    contains-concat k key (keys_of c k.pool),
    h.covered k w,
  )

  put-owned :
      (p : Address) (k : CacheKey) → contains k (keys_of (put c key v) p) ≡ true → k.pool ≡ p
  put-owned p k e =
      ground (arith, keys_of-put c key v p, contains-concat k key (keys_of c p), h.owned p k)

  -- Caching a result keeps the invariant.
  pub put-IsIndexed : IsIndexed (put c key v)
  unfolding put
  put-IsIndexed = record {
    covered = put-covered;
    owned = put-owned;
    unique = insert-IsUnique key v c.map h.unique;
    unique_pools =
        insert-IsUnique key.pool (keys_of c key.pool ++ key ∷ []) c.pool_keys h.unique_pools;
  }

remove_all-IsUnique :
    (keys : List CacheKey) (m : List (CacheKey × CacheValue))
    → IsUnique m
    → IsUnique (remove_all keys m)
unfolding remove_all
remove_all-IsUnique [] m u = u
remove_all-IsUnique (x ∷ xs) m u = remove_all-IsUnique xs (remove x m) (remove-IsUnique x m u)

module _ (c : CalcCache) (pool : Address) where
  keys_of-invalidate_pool :
      (p : Address) → keys_of (invalidate_pool c pool) p ≡ (if pool == p then [] else keys_of c p)
  unfolding invalidate_pool
  keys_of-invalidate_pool p = ground (arith, lookup-remove pool p c.pool_keys)

  lookup-gone :
      (k : CacheKey)
      → lookup k (invalidate_pool c pool).map
        ≡ (if contains k (keys_of c pool) then none else lookup k c.map)
  unfolding invalidate_pool
  lookup-gone k = lookup-remove_all (keys_of c pool) c.map k

  module _ (h : IsIndexed c) where
    lookup-invalidate_pool :
        (k : CacheKey)
        → lookup k (invalidate_pool c pool).map ≡ (if k.pool == pool then none else lookup k c.map)
    lookup-invalidate_pool k = elim (Option-cases (lookup k c.map)) [
      | inl miss ↦ ground (arith, lookup-gone k)
      | inr (v, hit) ↦ ground (arith, lookup-gone k, h.covered k v hit, h.owned pool k)
    ]

    gone-covered :
        (k : CacheKey) (v : CacheValue)
        → lookup k (invalidate_pool c pool).map ≡ some v
        → contains k (keys_of (invalidate_pool c pool) k.pool) ≡ true
    gone-covered k v e =
        ground (arith, lookup-invalidate_pool k, keys_of-invalidate_pool k.pool, h.covered k v)

    gone-owned :
        (p : Address) (k : CacheKey)
        → contains k (keys_of (invalidate_pool c pool) p) ≡ true
        → k.pool ≡ p
    unfolding contains
    gone-owned p k e = ground (arith, keys_of-invalidate_pool p, h.owned p k)

    invalidate_pool-IsIndexed : IsIndexed (invalidate_pool c pool)
    unfolding invalidate_pool
    invalidate_pool-IsIndexed = record {
      covered = gone-covered;
      owned = gone-owned;
      unique = remove_all-IsUnique (keys_of c pool) c.map h.unique;
      unique_pools = remove-IsUnique pool c.pool_keys h.unique_pools;
    }

invalidate_pools-IsIndexed :
    (pools : List Address) (c : CalcCache) → IsIndexed c → IsIndexed (invalidate_pools c pools)
unfolding invalidate_pools
invalidate_pools-IsIndexed [] c h = h
invalidate_pools-IsIndexed (p ∷ pools) c h =
    invalidate_pools-IsIndexed pools (invalidate_pool c p) (invalidate_pool-IsIndexed c p h)

pub lookup-retain_fresh :
    (c : CalcCache) (block : ℕ) (k : CacheKey)
    → IsIndexed c
    → lookup k (retain_fresh c block).map ≡ keep (λ v. v.block_number == block) (lookup k c.map)
unfolding retain_fresh
lookup-retain_fresh c block k h = lookup-retain (λ v. v.block_number == block) k c.map h.unique

retain_fresh-covered :
    (c : CalcCache) (block : ℕ) (k : CacheKey) (v : CacheValue)
    → IsIndexed c
    → lookup k (retain_fresh c block).map ≡ some v
    → contains k (keys_of c k.pool) ≡ true
retain_fresh-covered c block k v h e = elim (Option-cases (lookup k c.map)) [
  | inl miss ↦ ground (arith, lookup-retain_fresh c block k h)
  | inr (w, hit) ↦ h.covered k w hit
]

retain_fresh-IsIndexed :
    (c : CalcCache) (block : ℕ) → IsIndexed c → IsIndexed (retain_fresh c block)
unfolding retain_fresh
retain_fresh-IsIndexed c block h = record {
  covered = λ k v e. retain_fresh-covered c block k v h e;
  owned = h.owned;
  unique = retain-IsUnique (λ v. v.block_number == block) c.map h.unique;
  unique_pools = h.unique_pools;
}

-- The calls that change the cache.
pub data Call : Type 0 where
  cached : CacheKey → CacheValue → Call
  invalidated : Address → Call
  batch_invalidated : List Address → Call
  cleared : Call
  retained : ℕ → Call

unfoldable pub apply : Call → CalcCache → CalcCache
apply (cached k v) c = put c k v
apply (invalidated p) c = invalidate_pool c p
apply (batch_invalidated ps) c = invalidate_pools c ps
apply cleared c = clear c
apply (retained b) c = retain_fresh c b

unfoldable pub run : List Call → CalcCache → CalcCache
unfolding apply
run [] c = c
run (call ∷ calls) c = run calls (apply call c)

apply-IsIndexed : (call : Call) (c : CalcCache) → IsIndexed c → IsIndexed (apply call c)
unfolding apply clear new
apply-IsIndexed (cached k v) c h = put-IsIndexed c k v h
apply-IsIndexed (invalidated p) c h = invalidate_pool-IsIndexed c p h
apply-IsIndexed (batch_invalidated ps) c h = invalidate_pools-IsIndexed ps c h
apply-IsIndexed cleared c h = new-IsIndexed
apply-IsIndexed (retained b) c h = retain_fresh-IsIndexed c b h

-- Any sequence of calls keeps the invariant: every cached key is in the index of its pool, the index
-- of a pool holds its keys only, and a key has one entry.
pub run-IsIndexed : (calls : List Call) (c : CalcCache) → IsIndexed c → IsIndexed (run calls c)
unfolding run
run-IsIndexed [] c h = h
run-IsIndexed (call ∷ calls) c h = run-IsIndexed calls (apply call c) (apply-IsIndexed call c h)

-- After any sequence of calls on a new cache, invalidating a pool forgets every result of that pool
-- and keeps every result of the others.
pub get-invalidate_pool :
    (calls : List Call) (pool : Address) (k : CacheKey)
    → get (invalidate_pool (run calls new) pool) k
      ≡ (if k.pool == pool then none else get (run calls new) k)
unfolding get
get-invalidate_pool calls pool k =
    lookup-invalidate_pool (run calls new) pool (run-IsIndexed calls new new-IsIndexed) k
