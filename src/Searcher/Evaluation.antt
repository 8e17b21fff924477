-- ===== src/Searcher/Evaluation.antt =====
-- What `evaluate_paths_parallel` of src/searcher_pipeline.rs hands to the simulators.
use arb_bot.Prelude.{
  ℕ, ◌+◌, ◌≤◌, ◌≡◌, List, [], ◌∷◌, some, arith, ltb, >>=-eq-some, Bool-cases, inl, inr, All,
  get_elem?,
}
use mathlib.Core.Path.{subst}
use arb_bot.Swap.Path.{SwapPath}
use arb_bot.Cache.{PathRateCache}
use arb_bot.Calculation.Rates.{RateEstimator, rate_scale, evaluate_path}
use arb_bot.Searcher.{
  SearcherWorker, ArbPath, hop_gas, evaluate_one, insert_sorted, sort_by_profit, push_some,
  evaluate_indices, evaluate_paths_parallel,
}

-- The first profit is the largest, and so on.
abbrev pub IsSorted : List ArbPath → Type 0
IsSorted [] = Unit
IsSorted (a ∷ arbs) = All (λ b. b.expected_profit ≤ a.expected_profit) arbs × IsSorted arbs

-- A path that does not lose, with the profit that its rate promises.
pub IsWorthwhile : RateEstimator → ℕ → ArbPath → Type 0
IsWorthwhile est block a =
    (evaluate_path est a.path ≡ rate_scale + a.expected_profit)
    × (a.block_number ≡ block)
    × (a.gas_estimate ≡ 60_000 + hop_gas a.path.steps)

All-insert_sorted :
    (P : ArbPath → Type 0) (a : ArbPath) (bs : List ArbPath)
    → P a
    → All P bs
    → All P (insert_sorted a bs)
unfolding insert_sorted
All-insert_sorted P a [] h k = (h, tt)
All-insert_sorted P a (b ∷ bs) h k = elim (Bool-cases (ltb a.expected_profit b.expected_profit)) [
  | inl lower ↦ rw lower (k.0, All-insert_sorted P a bs h k.1)
  | inr upper ↦ rw upper (h, k)
]

All-weaken :
    (m n : ℕ) (bs : List ArbPath)
    → m ≤ n
    → All (λ b. b.expected_profit ≤ m) bs
    → All (λ b. b.expected_profit ≤ n) bs
All-weaken m n [] h k = tt
All-weaken m n (b ∷ bs) h k = (omega (arith, k.0), All-weaken m n bs h k.1)

insert_sorted-IsSorted :
    (a : ArbPath) (bs : List ArbPath) → IsSorted bs → IsSorted (insert_sorted a bs)
unfolding insert_sorted
insert_sorted-IsSorted a [] h = (tt, tt)
insert_sorted-IsSorted a (b ∷ bs) h = elim (Bool-cases (ltb a.expected_profit b.expected_profit)) [
  | inl lower ↦ rw lower (
    All-insert_sorted (λ c. c.expected_profit ≤ b.expected_profit) a bs (ground arith) h.0,
    insert_sorted-IsSorted a bs h.1,
  )
  | inr upper ↦
      rw upper
        ((ground arith, All-weaken b.expected_profit a.expected_profit bs (ground arith) h.0), h)
]

sort_by_profit-IsSorted : (arbs : List ArbPath) → IsSorted (sort_by_profit arbs)
unfolding sort_by_profit
sort_by_profit-IsSorted [] = tt
sort_by_profit-IsSorted (a ∷ arbs) =
    insert_sorted-IsSorted a (sort_by_profit arbs) (sort_by_profit-IsSorted arbs)

All-sort_by_profit :
    (P : ArbPath → Type 0) (arbs : List ArbPath) → All P arbs → All P (sort_by_profit arbs)
unfolding sort_by_profit
All-sort_by_profit P [] h = tt
All-sort_by_profit P (a ∷ arbs) h =
    All-insert_sorted P a (sort_by_profit arbs) h.0 (All-sort_by_profit P arbs h.1)

module _ (est : RateEstimator) (w : SearcherWorker) (block : ℕ) where
  evaluate_one-IsWorthwhile :
      (cache : PathRateCache) (path : SwapPath) (rest : List ArbPath)
      → All (IsWorthwhile est block) rest
      → All (IsWorthwhile est block) (push_some (evaluate_one est block cache path).0 rest)
  unfolding evaluate_one IsWorthwhile
  evaluate_one-IsWorthwhile cache path rest h = ground arith

  evaluate_indices-IsWorthwhile :
      (indices : List ℕ) (cache last : PathRateCache) (results : List ArbPath)
      → evaluate_indices est w block indices cache ≡ some (results, last)
      → All (IsWorthwhile est block) results
  unfolding evaluate_indices
  evaluate_indices-IsWorthwhile [] cache last results h = ground arith
  evaluate_indices-IsWorthwhile (idx ∷ indices) cache last results h =
      let (path, e1, e2) = >>=-eq-some (get_elem? w.all_paths idx) _ h in
      let ((rs, l), e3, e4) =
        >>=-eq-some (evaluate_indices est w block indices (evaluate_one est block cache path).1) _
          e2 in
      let same : push_some (evaluate_one est block cache path).0 rs ≡ results = ground arith in
      subst (λ (xs : List ArbPath). All (IsWorthwhile est block) xs) same
        (evaluate_one-IsWorthwhile cache path rs
          (evaluate_indices-IsWorthwhile indices (evaluate_one est block cache path).1 l rs e3))

-- What the searcher yields for a block is sorted with the largest expected profit first, and each
-- path of it evaluates to exactly 1 plus its expected profit, carries the block's number, and has a
-- gas estimate by its hops.
pub evaluate_paths_parallel-IsSorted :
    (est : RateEstimator) (w : SearcherWorker) (block : ℕ) (indices : List ℕ)
    (cache last : PathRateCache) (results : List ArbPath)
    → evaluate_paths_parallel est w block indices cache ≡ some (results, last)
    → IsSorted results × All (IsWorthwhile est block) results
unfolding evaluate_paths_parallel
evaluate_paths_parallel-IsSorted est w block indices cache last results h =
    let ((rs, l), e1, e2) = >>=-eq-some (evaluate_indices est w block indices cache) _ h in
    let same : sort_by_profit rs ≡ results = ground arith in
    let good = evaluate_indices-IsWorthwhile est w block indices cache l rs e1 in
    subst (λ (xs : List ArbPath). IsSorted xs × All (IsWorthwhile est block) xs) same
      (sort_by_profit-IsSorted rs, All-sort_by_profit (IsWorthwhile est block) rs good)
