-- ===== src/Searcher/Affected.antt =====
-- Which paths the index of src/searcher_pipeline.rs finds for the pools that an event touches.
use arb_bot.Prelude.{
  ℕ, zero, suc, ◌+◌, ◌<◌, ◌≡◌, refl, ◌∙◌, Bool, false, ◌&&◌, ◌||◌, List, [], ◌∷◌, ◌++◌, arith, ◌==◌,
  any, nat_eq, insert, lookup-insert, lookup-nil, contains, contains-concat,
}
use arb_bot.Swap.Path.{Address, SwapStep, SwapPath, contains_pool}
use arb_bot.Searcher.{
  SearcherWorker, paths_of, index_steps, index_paths, register_paths, push_unseen, collect_indices,
}

-- The path at an index uses a pool.
unfoldable pub path_has : List SwapPath → ℕ → Address → Bool
path_has [] i pool = false
path_has (path ∷ paths) zero pool = contains_pool path pool
path_has (path ∷ paths) (suc i) pool = path_has paths i pool

contains-index_steps :
    (pool : Address) (i idx : ℕ) (steps : List SwapStep) (m : List (Address × List ℕ))
    → contains i (paths_of pool (index_steps idx steps m))
      ≡ (contains i (paths_of pool m) || (any (λ s. s.pool_address == pool) steps && idx == i))
unfolding index_steps
contains-index_steps pool i idx [] m = ground arith
contains-index_steps pool i idx (s ∷ steps) m = ground (
  arith,
  contains-index_steps pool i idx steps
      (insert s.pool_address (paths_of s.pool_address m ++ idx ∷ []) m),
  lookup-insert s.pool_address pool (paths_of s.pool_address m ++ idx ∷ []) m,
  contains-concat i idx (paths_of s.pool_address m),
)

-- The same from the index of the first path.
unfoldable pub path_from : ℕ → List SwapPath → ℕ → Address → Bool
path_from k [] i pool = false
path_from k (path ∷ paths) i pool =
    (contains_pool path pool && k == i) || path_from (suc k) paths i pool

path_from_before :
    (k : ℕ) (paths : List SwapPath) (i : ℕ) (pool : Address)
    → i < k
    → path_from k paths i pool ≡ false
unfolding path_from
path_from_before k [] i pool h = refl
path_from_before k (path ∷ paths) i pool h = ground (arith, path_from_before (suc k) paths i pool)

pub path_from-path_has :
    (k : ℕ) (paths : List SwapPath) (d : ℕ) (pool : Address)
    → path_from k paths (k + d) pool ≡ path_has paths d pool
unfolding path_from path_has
path_from-path_has k [] d pool = refl
path_from-path_has k (path ∷ paths) zero pool =
    ground (arith, path_from_before (suc k) paths k pool)
path_from-path_has k (path ∷ paths) (suc d) pool =
    ground (arith, path_from-path_has (suc k) paths d pool)

contains-index_paths :
    (pool : Address) (i k : ℕ) (paths : List SwapPath) (m : List (Address × List ℕ))
    → contains i (paths_of pool (index_paths k paths m))
      ≡ (contains i (paths_of pool m) || path_from k paths i pool)
unfolding index_paths path_from contains_pool
contains-index_paths pool i k [] m = ground arith
contains-index_paths pool i k (path ∷ paths) m = ground (
  arith,
  contains-index_paths pool i (suc k) paths (index_steps k path.steps m),
  contains-index_steps pool i k path.steps m,
)

contains-paths_of :
    (w : SearcherWorker) (paths : List SwapPath) (pool : Address) (i : ℕ)
    → contains i (paths_of pool (register_paths w paths).pool_to_paths) ≡ path_has paths i pool
unfolding register_paths contains
contains-paths_of w paths pool i = ground (
  arith,
  contains-index_paths pool i 0 paths [],
  lookup-nil {V = List ℕ} pool,
  path_from-path_has 0 paths i pool,
)

contains-push_unseen :
    (i : ℕ) (xs indices : List ℕ)
    → contains i (push_unseen xs indices) ≡ (contains i indices || contains i xs)
unfolding push_unseen contains
contains-push_unseen i [] indices = ground arith
contains-push_unseen i (x ∷ xs) indices = ground (
  arith,
  contains-push_unseen i xs indices,
  contains-push_unseen i xs (indices ++ x ∷ []),
  contains-concat i x indices,
)

contains-collect_indices :
    (w : SearcherWorker) (i : ℕ) (pools : List Address) (indices : List ℕ)
    → contains i (collect_indices w pools indices)
      ≡ (contains i indices || any (λ pool. contains i (paths_of pool w.pool_to_paths)) pools)
unfolding collect_indices
contains-collect_indices w i [] indices = ground arith
contains-collect_indices w i (pool ∷ pools) indices = ground (
  arith,
  contains-collect_indices w i pools (push_unseen (paths_of pool w.pool_to_paths) indices),
  contains-push_unseen i (paths_of pool w.pool_to_paths) indices,
)

pub any-eq :
    (p q : Address → Bool) (pools : List Address)
    → ((a : Address) → p a ≡ q a)
    → any p pools ≡ any q pools
any-eq p q [] h = refl
any-eq p q (a ∷ pools) h = ground (arith, h a, any-eq p q pools h)

-- With the paths registered, the indices found for the touched pools are exactly those of the paths
-- that use one of them.
pub contains-collect_indices-register_paths :
    (w : SearcherWorker) (paths : List SwapPath) (pools : List Address) (i : ℕ)
    → contains i (collect_indices (register_paths w paths) pools []) ≡ any (path_has paths i) pools
unfolding contains
contains-collect_indices-register_paths w paths pools i =
    contains-collect_indices (register_paths w paths) i pools []
    ∙ any-eq (λ pool. contains i (paths_of pool (register_paths w paths).pool_to_paths))
        (path_has paths i) pools (λ pool. contains-paths_of w paths pool i)
