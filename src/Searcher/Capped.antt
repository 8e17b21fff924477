-- ===== src/Searcher/Capped.antt =====
-- How many of the paths of src/searcher_pipeline.rs answer an event: the shuffle and the cap.
use arb_bot.Prelude.{
  ℕ, zero, suc, ◌+◌, ◌<◌, ◌≡◌, refl, sym, ◌∙◌, Bool, false, ◌&&◌, ◌||◌, List, [], ◌∷◌, ◌++◌, arith,
  ◌==◌, Bool-cases, inl, inr, if◌then◌else◌, length, length-take-le, take, true, ltb, ◌≤◌, any,
  nat_eq, contains, erase, contains-erase, ap,
}
use arb_bot.Swap.Path.{Address, SwapPath, contains_pool}
use arb_bot.Searcher.{
  SearcherWorker, paths_of, register_paths, push_unseen, collect_indices, get_affected_paths,
}
use arb_bot.Searcher.Affected.{
  path_has, path_from, path_from-path_has, any-eq, contains-collect_indices-register_paths,
}

-- How often a number is in a list.
abbrev pub count : ℕ → List ℕ → ℕ
count i [] = 0
count i (x ∷ xs) = (if x == i then 1 else 0) + count i xs

-- How many of some paths use one of some pools.
abbrev pub users : List SwapPath → List Address → ℕ
users [] pools = 0
users (path ∷ paths) pools =
    (if any (λ pool. contains_pool path pool) pools then 1 else 0) + users paths pools

contains-count : (i : ℕ) (xs : List ℕ) → contains i xs ≡ ltb 0 (count i xs)
unfolding contains
contains-count i [] = ground arith
contains-count i (x ∷ xs) = ground (arith, contains-count i xs)

pub count-concat :
    (i x : ℕ) (xs : List ℕ) → count i (xs ++ x ∷ []) ≡ count i xs + (if x == i then 1 else 0)
count-concat i x [] = omega arith
count-concat i x (y ∷ xs) = omega (arith, count-concat i x xs)

count-take-le : (n i : ℕ) (xs : List ℕ) → count i (take n xs) ≤ count i xs
count-take-le zero i xs = ground arith
count-take-le (suc n) i [] = omega arith
count-take-le (suc n) i (x ∷ xs) = omega (arith, count-take-le n i xs)

-- The guard `seen` keeps the indices apart.
count-push_unseen :
    (i : ℕ) (xs indices : List ℕ) → count i indices ≤ 1 → count i (push_unseen xs indices) ≤ 1
unfolding push_unseen
count-push_unseen i [] indices h = h
count-push_unseen i (x ∷ xs) indices h = elim (Bool-cases (contains x indices)) [
  | inl e ↦ rw (e, push_unseen) (count-push_unseen i xs indices h)
  | inr e ↦
      rw (e, push_unseen)
        (count-push_unseen i xs (indices ++ x ∷ [])
          (ground (arith, count-concat i x indices, contains-count x indices)))
]

count-collect_indices :
    (w : SearcherWorker) (i : ℕ) (pools : List Address) (indices : List ℕ)
    → count i indices ≤ 1
    → count i (collect_indices w pools indices) ≤ 1
unfolding collect_indices
count-collect_indices w i [] indices h = h
count-collect_indices w i (pool ∷ pools) indices h =
    count-collect_indices w i pools (push_unseen (paths_of pool w.pool_to_paths) indices)
      (count-push_unseen i (paths_of pool w.pool_to_paths) indices h)

length-erase-le : (x : ℕ) (ys : List ℕ) → length (erase x ys) ≤ length ys
unfolding erase
length-erase-le x [] = omega arith
length-erase-le x (y ∷ ys) = ground (arith, length-erase-le x ys)

length-erase-lt : (x : ℕ) (ys : List ℕ) → contains x ys ≡ true → length (erase x ys) < length ys
unfolding contains erase
length-erase-lt x [] h = absurd (cc)
length-erase-lt x (y ∷ ys) h = elim (Bool-cases (y == x)) [
  | inl e ↦ rw e (omega (arith, length-erase-le x ys))
  | inr e ↦
      let rest : contains x ys ≡ true = rw e at h in rw e (omega (arith, length-erase-lt x ys rest))
]

-- A list that has no number twice is not longer than one that has all its numbers.
length_le_of_contains :
    (xs ys : List ℕ)
    → ((i : ℕ) → count i xs ≤ 1)
    → ((i : ℕ) → contains i xs ≡ true → contains i ys ≡ true)
    → length xs ≤ length ys
unfolding contains
length_le_of_contains [] ys once sub = omega arith
length_le_of_contains (x ∷ xs) ys once sub =
    let here : contains x ys ≡ true = sub x (ground arith) in
    let rest =
      length_le_of_contains xs (erase x ys) (λ i. omega (arith, once i))
        (λ i h. ground (arith, contains-erase x i ys, contains-count i xs, once i, sub i)) in
    omega (arith, rest, length-erase-lt x ys here)

-- The indices of the paths that use one of some pools, from the index of the first path.
indices_of : ℕ → List SwapPath → List Address → List ℕ
indices_of k [] pools = []
indices_of k (path ∷ paths) pools =
    if any (λ pool. contains_pool path pool) pools
    then k ∷ indices_of (suc k) paths pools
    else indices_of (suc k) paths pools

length-indices_of :
    (k : ℕ) (paths : List SwapPath) (pools : List Address)
    → length (indices_of k paths pools) ≡ users paths pools
unfolding indices_of
length-indices_of k [] pools = refl
length-indices_of k (path ∷ paths) pools = ground (arith, length-indices_of (suc k) paths pools)

any-split :
    (p q : Address → Bool) (b : Bool) (pools : List Address)
    → any (λ a. (p a && b) || q a) pools ≡ ((any p pools && b) || any q pools)
any-split p q b [] = ground arith
any-split p q b (a ∷ pools) = ground (arith, any-split p q b pools)

contains-indices_of :
    (k : ℕ) (paths : List SwapPath) (pools : List Address) (i : ℕ)
    → contains i (indices_of k paths pools) ≡ any (path_from k paths i) pools
unfolding indices_of path_from contains
contains-indices_of k [] [] i = refl
contains-indices_of k [] (a ∷ pools) i = contains-indices_of k [] pools i
contains-indices_of k (path ∷ paths) pools i = ground (
  arith,
  contains-indices_of (suc k) paths pools i,
  any-split (λ pool. contains_pool path pool) (path_from (suc k) paths i) (k == i) pools,
)

path_from_start :
    (paths : List SwapPath) (i : ℕ) (pool : Address)
    → path_from 0 paths i pool ≡ path_has paths i pool
path_from_start paths i pool =
    let e : 0 + i ≡ i = omega arith in rw e at (path_from-path_has 0 paths i pool)

length-collect_indices :
    (w : SearcherWorker) (paths : List SwapPath) (pools : List Address)
    → length (collect_indices (register_paths w paths) pools []) ≤ users paths pools
length-collect_indices w paths pools =
    let fewer =
      length_le_of_contains (collect_indices (register_paths w paths) pools [])
        (indices_of 0 paths pools)
        (λ i. count-collect_indices (register_paths w paths) i pools [] (omega arith))
        (λ i h.
          contains-indices_of 0 paths pools i
          ∙ any-eq (path_from 0 paths i) (path_has paths i) pools
              (λ pool. path_from_start paths i pool)
          ∙ sym (contains-collect_indices-register_paths w paths pools i)
          ∙ h) in
    omega (arith, fewer, length-indices_of 0 paths pools)

-- What a shuffle keeps: the number of the indices, and how often each is there.
pub record IsShuffle (shuffle : List ℕ → List ℕ) : Type 0 where
  pub keeps_length : (xs : List ℕ) → length (shuffle xs) ≡ length xs
  pub keeps_count : (xs : List ℕ) (i : ℕ) → count i (shuffle xs) ≡ count i xs

ltb-ge : (a b : ℕ) → ltb a b ≡ false → b ≤ a
ltb-ge a b h = ground arith

maybe_shuffled :
    (shuffle : List ℕ → List ℕ) (is_mempool_event : Bool) (xs : List ℕ) (i : ℕ)
    → IsShuffle shuffle
    → (length (if is_mempool_event then xs else shuffle xs) ≡ length xs)
      × (count i (if is_mempool_event then xs else shuffle xs) ≡ count i xs)
maybe_shuffled shuffle true xs i fair = (refl, refl)
maybe_shuffled shuffle false xs i fair = (fair.keeps_length xs, fair.keeps_count xs i)

contains-eq-count :
    (i : ℕ) (xs ys : List ℕ) → count i xs ≡ count i ys → contains i xs ≡ contains i ys
contains-eq-count i xs ys h = contains-count i xs ∙ ap (ltb 0) h ∙ sym (contains-count i ys)

contains-take : (n i : ℕ) (xs : List ℕ) → contains i (take n xs) ≡ true → contains i xs ≡ true
unfolding contains
contains-take zero i xs h = ground arith
contains-take (suc n) i [] h = h
contains-take (suc n) i (x ∷ xs) h = ground (arith, contains-take n i xs)

-- The paths have been registered, and the shuffle keeps how often each index is there. Then an event
-- is answered by at most as many paths as the cap allows, none is answered twice, and each uses a
-- touched pool. Where the cap allows as many paths as use a touched pool, every such path is
-- answered.
pub get_affected_paths-register_paths :
    (shuffle : List ℕ → List ℕ) (w : SearcherWorker) (paths : List SwapPath) (pools : List Address)
    (is_mempool_event : Bool) (i : ℕ)
    → IsShuffle shuffle
    → let affected = get_affected_paths shuffle (register_paths w paths) pools is_mempool_event in
      let cap = w.config.max_paths_per_block in
      (length affected ≤ cap)
      × (count i affected ≤ 1)
      × (contains i affected ≡ true → any (path_has paths i) pools ≡ true)
      × (users paths pools ≤ cap → contains i affected ≡ any (path_has paths i) pools)
unfolding get_affected_paths register_paths contains
get_affected_paths-register_paths shuffle w paths pools is_mempool_event i fair =
    let found = collect_indices (register_paths w paths) pools [] in
    let indices = if is_mempool_event then found else shuffle found in
    let cap = w.config.max_paths_per_block in
    let exact = contains-collect_indices-register_paths w paths pools i in
    let (len, counts) = maybe_shuffled shuffle is_mempool_event found i fair in
    let once : count i found ≤ 1 =
      count-collect_indices (register_paths w paths) i pools [] (omega arith) in
    let few : length found ≤ users paths pools = length-collect_indices w paths pools in
    let members : contains i indices ≡ contains i found =
      contains-eq-count i indices found counts in
    elim (Bool-cases (ltb cap (length found))) [
      | inl over ↦
          rw (get_affected_paths, over)
            (
              length-take-le cap indices,
              omega (arith, once, counts, count-take-le cap i indices),
              λ h. sym exact ∙ sym members ∙ contains-take cap i indices h,
              λ fits. absurd (ground (arith, few)),
            )
      | inr under ↦
          rw (get_affected_paths, under)
            (
              omega (arith, len, ltb-ge cap (length found) under),
              omega (arith, once, counts),
              λ h. sym exact ∙ sym members ∙ h,
              λ fits. members ∙ exact,
            )
    ]
