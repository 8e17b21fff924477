-- ===== src/PoolLoader/Crawl/Complete.antt =====
-- The ranges of blocks that `crawl_factory_logs` of src/pool_loader.rs asks for cover the blocks, each
-- once.
use arb_bot.Prelude.{
  ℕ, zero, suc, ◌+◌, ◌-◌, ◌%◌, ◌^◌, ◌<◌, ◌≤◌, min, ◌≡◌, refl, ap, sym, ◌∙◌, inl, inr, Bool, false,
  List, [], ◌∷◌, ◌++◌, Option, none, some, arith, leb, Bool-cases,
}
use arb_bot.Swap.Path.{Address}
use arb_bot.Swap.Protocol.{is_v3}
use arb_bot.PoolLoader.{RawPool}
use arb_bot.PoolLoader.Crawl.{
  FactorySpec, Log, decode_log, push_pool, decode_logs, last_of_chunk, crawl, crawl_factory_logs,
}

-- The logs of `count` blocks from a block on.
unfoldable pub logs_of_blocks : (ℕ → List Log) → ℕ → ℕ → List Log
logs_of_blocks logs_of start zero = []
logs_of_blocks logs_of start (suc count) = logs_of start ++ logs_of_blocks logs_of (suc start) count

append_assoc : (xs ys zs : List Log) → (xs ++ ys) ++ zs ≡ xs ++ (ys ++ zs)
append_assoc [] ys zs = refl
append_assoc (x ∷ xs) ys zs = ap (λ l. x ∷ l) (append_assoc xs ys zs)

logs_of_blocks-add :
    (logs_of : ℕ → List Log) (start k m : ℕ)
    → logs_of_blocks logs_of start (k + m)
      ≡ logs_of_blocks logs_of start k ++ logs_of_blocks logs_of (start + k) m
unfolding logs_of_blocks
logs_of_blocks-add logs_of start zero m =
    let e : zero + m ≡ m = omega arith in
    let f : start + zero ≡ start = omega arith in rw (e, f) refl
logs_of_blocks-add logs_of start (suc k) m =
    let e : suc k + m ≡ suc (k + m) = omega arith in
    let f : start + suc k ≡ suc start + k = omega arith in
    rw (e, f, logs_of_blocks-add logs_of (suc start) k m)
      (sym (append_assoc (logs_of start) (logs_of_blocks logs_of (suc start) k) _))

push_pool-append :
    (pool : Option RawPool) (xs ys : List RawPool)
    → push_pool pool (xs ++ ys) ≡ push_pool pool xs ++ ys
push_pool-append none xs ys = refl
push_pool-append (some pool) xs ys = refl

decode_logs-append :
    (spec : FactorySpec) (xs ys : List Log)
    → decode_logs spec (xs ++ ys) ≡ decode_logs spec xs ++ decode_logs spec ys
unfolding decode_logs
decode_logs-append spec [] ys = refl
decode_logs-append spec (x ∷ xs) ys =
    ap (push_pool (decode_log x spec)) (decode_logs-append spec xs ys)
    ∙ push_pool-append (decode_log x spec) (decode_logs spec xs) (decode_logs spec ys)

module _ (get_logs : Address → Bool → ℕ → ℕ → Option (List Log)) (logs_of : ℕ → List Log)
    (spec : FactorySpec)
    (answers : (first last : ℕ)
      → first ≤ last
      → get_logs spec.address (is_v3 spec.protocol) first last
        ≡ some (logs_of_blocks logs_of first (suc last - first)))
    (to_block chunk_size : ℕ) (positive : 0 < chunk_size)
    (small : to_block + chunk_size < 2 ^ 64) where
  record Round (first : ℕ) : Type 0 where
    ordered : first ≤ min (last_of_chunk first chunk_size) to_block
    bounded : min (last_of_chunk first chunk_size) to_block ≤ to_block
    next :
        (min (last_of_chunk first chunk_size) to_block + 1) % 2 ^ 64
        ≡ suc (min (last_of_chunk first chunk_size) to_block)

  round : (first : ℕ) → first ≤ to_block → Round first
  round first h =
      let l : last_of_chunk first chunk_size ≡ first + chunk_size - 1 = omega arith in
      record { ordered = ground arith; bounded = ground arith; next = ground arith }

  round_fuel :
      (fuel first last : ℕ)
      → first ≤ last
      → suc to_block - first ≤ suc fuel
      → suc to_block - suc last ≤ fuel
  round_fuel fuel first last h k = omega arith

  rejoin :
      (first last : ℕ)
      → first ≤ last
      → last ≤ to_block
      → logs_of_blocks logs_of first (suc last - first)
          ++ logs_of_blocks logs_of (suc last) (suc to_block - suc last)
        ≡ logs_of_blocks logs_of first (suc to_block - first)
  rejoin first last h k =
      ap
        (λ s.
          logs_of_blocks logs_of first (suc last - first)
          ++ logs_of_blocks logs_of s (suc to_block - suc last))
        (omega arith)
      ∙ sym (logs_of_blocks-add logs_of first (suc last - first) (suc to_block - suc last))
      ∙ ap (logs_of_blocks logs_of first) (omega arith)

  crawl_lem :
      (fuel first : ℕ)
      → suc to_block - first ≤ fuel
      → crawl get_logs spec to_block chunk_size fuel first
        ≡ some (decode_logs spec (logs_of_blocks logs_of first (suc to_block - first)))
  unfolding crawl
  crawl_lem zero first h =
      let e : leb first to_block ≡ false = ground arith in
      let z : suc to_block - first ≡ 0 = omega arith in
      rw (e, z) (unfold logs_of_blocks decode_logs in refl)
  crawl_lem (suc fuel) first h = elim (Bool-cases (leb first to_block)) [
    | inl e ↦
        let r = round first (ground arith) in
        let last = min (last_of_chunk first chunk_size) to_block in
        rw
          (
            e,
            answers first last r.ordered,
            r.next,
            crawl_lem fuel (suc last) (round_fuel fuel first last r.ordered h),
          )
          (ap some (
            sym (decode_logs-append spec _ _)
            ∙ ap (decode_logs spec) (rejoin first last r.ordered r.bounded)))
    | inr e ↦
        let z : suc to_block - first ≡ 0 = ground arith in
        rw (e, z) (unfold logs_of_blocks decode_logs in refl)
  ]

  -- Where a node answers each range of blocks with the logs of those blocks in order, the chunks
  -- are not empty and the last block leaves room for one in 64 bits, the crawl ends after at most
  -- as many rounds as there are blocks, with the pools decoded from the logs of all blocks from the
  -- factory's first to the last, each once and in order.
  pub crawl_factory_logs_complete :
      (fuel : ℕ)
      → suc to_block - spec.from_block ≤ fuel
      → crawl_factory_logs get_logs spec to_block chunk_size fuel
        ≡ some (
            decode_logs spec
              (logs_of_blocks logs_of spec.from_block (suc to_block - spec.from_block)))
  unfolding crawl_factory_logs
  crawl_factory_logs_complete fuel h = crawl_lem fuel spec.from_block h
