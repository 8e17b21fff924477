-- ===== src/Tests/Blocks.antt =====
-- Blocks on their way into the state database, on concrete inputs.
use arb_bot.Prelude.{
  ℕ, ◌≡◌, refl, arith, ◌&&◌, if◌then◌else◌, List, [], ◌∷◌, Option, none, some, contains, nat_eq,
}
use arb_bot.Swap.Path.{Address}
use arb_bot.Gas.{GasStation}
use arb_bot.StateDb.Slots.{fill}
use arb_bot.StateDb.Store.{BlockStateDb, Remote, AccountInfo, track_pool}
use arb_bot.StateDb.Store
use arb_bot.StateDb.Read.{stored}
use arb_bot.BlockStream.{BlockDedup, Header, NewBlock, gossip}
use arb_bot.BlockStream
use arb_bot.BlockStream.Window.{announced, admit, gossip-announced}
use arb_bot.Tracing.{Log, v3_swap, v2_sync_u112, trace_block_diffs, key_slots}
use arb_bot.Tracing.Effect.{logged, v3_logged, or_else}
use arb_bot.MarketState.{MarketStateWorker, on_new_block}
use arb_bot.MarketState.Refine.{stored-on_new_block}

abbrev header : ℕ → Header
header n = record {
  number = n;
  base_fee_per_gas = some 5;
  header_gas_used = 1;
  header_gas_limit = 2;
  header_timestamp = 3;
}

abbrev headers : List Header
headers = header 7 ∷ header 8 ∷ header 7 ∷ []

gossip-announced_example :
    (last : BlockDedup) × (gossip BlockStream.new headers
      ≡ some (announced (fill 64 0) headers, last))
gossip-announced_example = gossip-announced headers (omega arith, (omega arith, (omega arith, tt)))

-- The third header repeats the first.
announced_twice :
    announced (fill 64 0) headers
    ≡ BlockStream.new_block (header 7) ∷ BlockStream.new_block (header 8) ∷ []
unfolding announced admit contains
announced_twice = refl

abbrev empty_info : AccountInfo
empty_info = record { balance = 0; nonce = 0; code_hash = 0; code = none }

abbrev node : Remote
node = record {
  fetch_code = λ b a. [];
  fetch_account = λ b a. empty_info;
  fetch_storage = λ b a s. 0;
  keccak256 = λ bytes. 0;
  keccak_empty = 0;
  default_info = empty_info;
}

abbrev station : GasStation
station = record {
  base_fee = 1;
  last_gas_used = 0;
  last_gas_limit = 0;
  elasticity_multiplier = 2;
  base_fee_change_denominator = 8;
  min_base_fee_wei = 1;
  priority_fee_cap_wei = 3;
}

abbrev worker : MarketStateWorker
worker = record { state_db = track_pool (Store.new 6) 1; gas_station = station }

abbrev block : NewBlock
block = BlockStream.new_block (header 7)

abbrev logs : List Log
logs =
    record { address = some 1; topic0 = v2_sync_u112 }
    ∷ record { address = some 1; topic0 = v3_swap }
    ∷ record { address = some 2; topic0 = v3_swap }
    ∷ []

abbrev reads : Address → ℕ → Option ℕ
reads address slot = some 99

stored-on_new_block_example :
    stored
      (on_new_block node worker block (
        trace_block_diffs reads
          (none ∷ some logs ∷ [])
          block.block_number
          worker.state_db.tracked_pools)).0.state_db
      1
      4
    ≡ (if contains 1 worker.state_db.tracked_pools
          && (logged 1 logs && contains 4 (key_slots (v3_logged 1 logs)))
        then or_else (reads 1 4) (stored worker.state_db 1 4)
        else stored worker.state_db 1 4)
stored-on_new_block_example =
    stored-on_new_block node reads worker block (none ∷ some logs ∷ []) logs 1 4 refl
