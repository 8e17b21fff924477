-- ===== src/MarketState.antt =====
-- src/market_state.rs: the worker that brings the state database up to a new block and reports the
-- pools that changed. The trace of a block is what Tracing makes of the node's answers.
pub mod Refine
use arb_bot.Prelude.{
  ℕ, Bool, true, false, List, [], ◌∷◌, ◌++◌, Option, none, some, if◌then◌else◌, contains, nat_eq,
}
use arb_bot.Swap.Path.{Address}
use arb_bot.Gas.{GasStation, update_from_block}
use arb_bot.StateDb.Store.{BlockStateDb, Remote, set_block, update_slots}
use arb_bot.BlockStream.{NewBlock}
use arb_bot.Tracing.{BlockTraceDiffs, get_address_diffs}
use arb_bot.Mempool.Watch.{PoolsTouched}

pub record MarketStateWorker : Type 0 where
  pub state_db : BlockStateDb
  pub gas_station : GasStation

module _ (node : Remote) where
  -- What one tracked address of a trace changes.
  abbrev pub apply_slots :
      Address → Option (List (ℕ × ℕ)) → BlockStateDb × List Address → BlockStateDb × List Address
  apply_slots addr none (db, touched) = (db, touched)
  apply_slots addr (some slots) (db, touched) =
      (update_slots node db addr slots, touched ++ addr ∷ [])

  -- The loop over the touched addresses: the database, and the tracked ones with diffs.
  unfoldable pub apply_traced :
      BlockTraceDiffs → List Address → BlockStateDb × List Address → BlockStateDb × List Address
  apply_traced d [] s = s
  apply_traced d (addr ∷ addrs) s =
      apply_traced d addrs (
        if contains addr s.0.tracked_pools
        then apply_slots addr (get_address_diffs d addr) s
        else s)

  abbrev pub event_of : ℕ → List Address → Option PoolsTouched
  event_of block_number [] = none
  event_of block_number (p ∷ ps) =
      some (record { block_number = block_number; touched_pools = p ∷ ps })

  -- The handling of a block whose trace succeeded or failed: the worker, and the event that it sends.
  unfoldable pub on_new_block :
      MarketStateWorker
      → NewBlock
      → Option BlockTraceDiffs
      → MarketStateWorker × Option PoolsTouched
  on_new_block w block trace =
      let station = update_from_block w.gas_station block.base_fee block.gas_used block.gas_limit in
      elim trace [
        | none ↦ (record w { gas_station = station }, none)
        | some d ↦
            let (db, touched) =
              apply_traced d d.touched_addresses (set_block w.state_db block.block_number, []) in
            (record { state_db = db; gas_station = station }, event_of block.block_number touched)
      ]

  -- The replay of missed blocks: each with its trace, or without where it failed.
  unfoldable pub catch_up : List (ℕ × Option BlockTraceDiffs) → BlockStateDb → BlockStateDb
  catch_up [] db = db
  catch_up ((bn, none) ∷ blocks) db = catch_up blocks db
  catch_up ((bn, some d) ∷ blocks) db =
      catch_up blocks (apply_traced d d.touched_addresses (set_block db bn, [])).0
