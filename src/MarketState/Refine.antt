-- ===== src/MarketState/Refine.antt =====
-- Proofs on a block's way from the node's answers into the state database of src/market_state.rs.
use mathlib.Core.Path.{subst}
use arb_bot.Prelude.{
  ℕ, ◌≡◌, refl, ap, sym, ◌∙◌, inl, inr, Bool, true, false, ◌&&◌, ◌||◌, List, [], ◌∷◌, Option, none,
  some, ◌==◌, ==_iff, if◌then◌else◌, unwrap_or, is_some, take, Bool-cases, Option-cases, nat_eq,
  lookup, contains, IsUnique, lookup-nil,
}
use arb_bot.Swap.Path.{Address}
use arb_bot.StateDb.Store.{BlockStateDb, Remote, set_block}
use arb_bot.StateDb.Read.{stored}
use arb_bot.StateDb.Writes.{last_value, stored-update_slots, tracked-update_slots}
use arb_bot.BlockStream.{NewBlock}
use arb_bot.Tracing.{
  BlockTraceDiffs, new, get_address_diffs, Log, classify, key_slots, first_answer, collect,
  trace_block_diffs,
}
use arb_bot.MarketState.{MarketStateWorker, apply_slots, apply_traced, on_new_block}
use arb_bot.Tracing.Effect.{
  logged, v3_logged, or_else, lookup-classify, classify-IsUnique, value_at, value_at-collect,
  after_reads, if_same, twice, IsTidy, collect-IsLinked,
}

module _ (node : Remote) where
  last_value-IsUnique :
      (slots : List (ℕ × ℕ)) (t : ℕ) (before : Option ℕ)
      → IsUnique slots
      → last_value node slots t before ≡ or_else (lookup t slots) before
  unfolding lookup
  last_value-IsUnique [] t before u = refl
  last_value-IsUnique ((s, v) ∷ slots) t before u =
      rw (last_value-IsUnique slots t (if s == t then some v else before) u.1)
        (elim (Bool-cases (s == t)) [
          | inl same ↦
              let gone : lookup t slots ≡ none =
                ap (λ k. lookup k slots) (sym ((==_iff s t).0 same)) ∙ u.0 in
              rw same (rw gone refl)
          | inr other ↦ rw other refl
        ])

  -- The state after one address.
  abbrev after_address :
      BlockTraceDiffs → Address → BlockStateDb × List Address → BlockStateDb × List Address
  after_address d addr s =
      if contains addr s.0.tracked_pools
      then apply_slots node addr (get_address_diffs d addr) s
      else s

  tracked-after_address :
      (d : BlockTraceDiffs) (a : Address) (s : BlockStateDb × List Address)
      → (after_address d a s).0.tracked_pools ≡ s.0.tracked_pools
  tracked-after_address d a s = elim (Bool-cases (contains a s.0.tracked_pools)) [
    | inr e ↦ rw e refl
    | inl e ↦ rw e (elim (Option-cases (get_address_diffs d a)) [
      | inl n ↦ rw n refl
      | inr (slots, q) ↦ rw q (tracked-update_slots node slots s.0 a)
    ])
  ]

  stored-after_address :
      (d : BlockTraceDiffs) (a b : Address) (t : ℕ) (s : BlockStateDb × List Address)
      → IsTidy d
      → stored (after_address d a s).0 b t ≡ (
          if (a == b) && contains b s.0.tracked_pools
          then or_else (value_at d b t) (stored s.0 b t)
          else stored s.0 b t)
  unfolding get_address_diffs
  stored-after_address d a b t s tidy = elim (Bool-cases (contains a s.0.tracked_pools)) [
    | inr untracked ↦ rw untracked (elim (Bool-cases (a == b)) [
      | inl same ↦
          let e : contains b s.0.tracked_pools ≡ false =
            ap (λ k. contains k s.0.tracked_pools) (sym ((==_iff a b).0 same)) ∙ untracked in
          rw (same, e) refl
      | inr other ↦ rw other refl
    ])
    | inl tracked ↦ rw tracked (elim (Option-cases (lookup a d.diffs)) [
      | inl n ↦ rw n (elim (Bool-cases (a == b)) [
        | inl same ↦
            let v : value_at d b t ≡ none =
              ap (λ k. value_at d k t) (sym ((==_iff a b).0 same))
              ∙ ap (λ (o : Option (List (ℕ × ℕ))). lookup t (unwrap_or o [])) n
              ∙ lookup-nil t in
            rw (same, v) (sym (if_same (contains b s.0.tracked_pools) (stored s.0 b t)))
        | inr other ↦ rw other refl
      ])
      | inr (slots, q) ↦ rw q (
          rw (stored-update_slots node slots s.0 a b t) (elim (Bool-cases (a == b)) [
            | inl same ↦
                let u : IsUnique slots =
                  subst (λ (o : Option (List (ℕ × ℕ))). IsUnique (unwrap_or o [])) q (tidy a) in
                let v : value_at d b t ≡ lookup t slots =
                  ap (λ k. value_at d k t) (sym ((==_iff a b).0 same))
                  ∙ ap (λ (o : Option (List (ℕ × ℕ))). lookup t (unwrap_or o [])) q in
                let e : contains b s.0.tracked_pools ≡ true =
                  ap (λ k. contains k s.0.tracked_pools) (sym ((==_iff a b).0 same)) ∙ tracked in
                rw (same, e) (rw v (last_value-IsUnique slots t (stored s.0 b t) u))
            | inr other ↦ rw other refl
          ]))
    ])
  ]

  stored-apply_traced :
      (addrs : List Address) (d : BlockTraceDiffs) (b : Address) (t : ℕ)
      (s : BlockStateDb × List Address)
      → IsTidy d
      → stored (apply_traced node d addrs s).0 b t ≡ (
          if contains b addrs && contains b s.0.tracked_pools
          then or_else (value_at d b t) (stored s.0 b t)
          else stored s.0 b t)
  unfolding apply_traced contains
  stored-apply_traced [] d b t s tidy = refl
  stored-apply_traced (a ∷ addrs) d b t s tidy =
      rw (stored-apply_traced addrs d b t (after_address d a s) tidy) (
        rw (tracked-after_address d a s) (
          rw (stored-after_address d a b t s tidy) (
            twice (a == b) (contains b addrs) (contains b s.0.tracked_pools) (value_at d b t)
              (stored s.0 b t))))

absorb :
    (o : Option (List (ℕ × ℕ))) (c : Bool) (t : ℕ) (before : Option ℕ)
    → (if is_some o && c then or_else (lookup t (unwrap_or o [])) before else before)
      ≡ (if c then or_else (lookup t (unwrap_or o [])) before else before)
unfolding lookup
absorb none c t before = sym (if_same c before)
absorb (some slots) c t before = refl

read_then :
    (reads : Bool) (v before : Option ℕ)
    → or_else (if reads then or_else v none else none) before
      ≡ (if reads then or_else v before else before)
read_then false v before = refl
read_then true none before = refl
read_then true (some v) before = refl

effect :
    (get : Address → ℕ → Option ℕ) (b : Address) (t : ℕ) (c l v3 : Bool) (before : Option ℕ)
    → (if c
        then or_else (after_reads get b (if c && l then some (false || v3) else none) t none) before
        else before)
      ≡ (if c && (l && contains t (key_slots v3)) then or_else (get b t) before else before)
effect get b t false l v3 before = refl
effect get b t true false v3 before = refl
effect get b t true true v3 before = read_then (contains t (key_slots v3)) (get b t) before

stored-set_block :
    (db : BlockStateDb) (n : ℕ) (b : Address) (t : ℕ) → stored (set_block db n) b t ≡ stored db b t
unfolding stored set_block
stored-set_block db n b t = refl

-- A block's way into the state database. If one of the first three requests for its logs is answered,
-- then a slot of a pool changes exactly if the pool is tracked and has a log, and the slot is one that
-- is read for its kind: 0 and 4 after a V3 swap, else 8. It then has the value that the node answered,
-- or keeps its own where the read failed. Every other slot of every account stays as it was.
pub stored-on_new_block :
    (node : Remote) (get : Address → ℕ → Option ℕ) (w : MarketStateWorker) (block : NewBlock)
    (attempts : List (Option (List Log))) (logs : List Log) (b : Address) (t : ℕ)
    → first_answer (take 3 attempts) ≡ some logs
    → stored
        (on_new_block node w block
          (trace_block_diffs get attempts block.block_number w.state_db.tracked_pools)).0.state_db
        b
        t
      ≡ (if contains b w.state_db.tracked_pools
            && (logged b logs && contains t (key_slots (v3_logged b logs)))
          then or_else (get b t) (stored w.state_db b t)
          else stored w.state_db b t)
unfolding on_new_block trace_block_diffs set_block
stored-on_new_block node get w block attempts logs b t answered =
    let tracked = w.state_db.tracked_pools in
    let entries = classify tracked logs [] in
    let d = collect get entries (new block.block_number) in
    let (tidy, linked) =
      collect-IsLinked get entries (new block.block_number)
        (λ a. unfold lookup in tt, λ a. unfold lookup contains in refl) in
    let one : IsUnique entries = classify-IsUnique tracked logs [] tt in
    let value : value_at d b t ≡ after_reads get b (lookup b entries) t none =
      value_at-collect node get entries (new block.block_number) b t one
      ∙ ap (after_reads get b (lookup b entries) t) (unfold lookup in refl) in
    let entry : lookup b entries
        ≡ (if contains b tracked && logged b logs then some (false || v3_logged b logs) else none) =
      lookup-classify b tracked logs [] ∙ rw (lookup-nil b) refl in
    rw answered (
      stored-apply_traced node d.touched_addresses d b t
        (set_block w.state_db block.block_number, []) tidy
      ∙ rw (linked b) (
          rw (stored-set_block w.state_db block.block_number b t) (
            absorb (lookup b d.diffs) (contains b tracked) t (stored w.state_db b t)
            ∙ rw value (
                rw entry (
                  effect get b t (contains b tracked) (logged b logs) (v3_logged b logs)
                    (stored w.state_db b t))))))
