-- ===== src/Tests/Simulate.antt =====
-- The simulator on a concrete path, with a quoter that doubles small inputs.
use arb_bot.Prelude.{
  ℕ, ◌+◌, ◌≡◌, ◌⊎◌, refl, arith, min, [], ◌∷◌, Option, none, some, lookup, insert, contains_key,
  nat_eq,
}
use arb_bot.Word.{add256, sub256, mul256, saturating_add64, saturating_mul64}
use arb_bot.Swap.Protocol.{uniswap_v2}
use arb_bot.Swap.Path.{SwapStep}
use arb_bot.StateDb.Store.{BlockStateDb, AccountInfo, on_chain}
use arb_bot.StateDb.Read.{stored}
use arb_bot.Gas.{GasStation, calc_next_base_fee, predict_next_base_fee, estimate_gas_cost_wei}
use arb_bot.SimDb.{
  SimDb, snapshot, merge_storage, write_account, write_accounts, write_back, sim_basic,
  sim_code_by_hash,
}
use arb_bot.SimDb.WriteBack.{stored-write_back}
use arb_bot.Quoter.{probing, refining, optimize_input_with_db}
use arb_bot.Quoter.Best.{IsQuoted, optimize_input_with_db-IsQuoted}
use arb_bot.Searcher.{ArbPath}
use arb_bot.Simulator.{
  SimulatorWorker, ValidPath, default_config, flash_fee, profit_native, settle,
  simulate_and_optimize,
}
use arb_bot.Simulator.Balance.{IsSettled, simulate_and_optimize-IsSettled}

program : Unit {0}
unfolding lookup insert contains_key add256 sub256 mul256 saturating_add64 saturating_mul64 stored
    calc_next_base_fee predict_next_base_fee estimate_gas_cost_wei snapshot merge_storage
    write_account write_accounts write_back probing refining optimize_input_with_db flash_fee
    profit_native settle simulate_and_optimize
program = tt

-- The output: twice the input, up to 3000 more than it.
abbrev quote : SimDb → ℕ → Option ℕ × SimDb
quote sim_db amount_in = (some (amount_in + min amount_in 3000), sim_db)

abbrev no_data : SimDb
no_data = record { accounts = [] }

finds : (optimize_input_with_db quote no_data 1000 100_000 8).0 ≡ (4000, 7000)
unfolding program
finds = refl

optimize_input_with_db-IsQuoted_example :
    (((optimize_input_with_db quote no_data 1000 100_000 8).0.0 ≡ 1000)
      × ((optimize_input_with_db quote no_data 1000 100_000 8).0.1 ≡ 0))
    ⊎ IsQuoted quote 100_000
        (optimize_input_with_db quote no_data 1000 100_000 8).0.0
        (optimize_input_with_db quote no_data 1000 100_000 8).0.1
optimize_input_with_db-IsQuoted_example =
    optimize_input_with_db-IsQuoted quote no_data 1000 100_000 8 (omega arith) (omega arith)

abbrev db : BlockStateDb
db = record { accounts = []; block_number = 7; tracked_pools = []; pancake_v3_pools = [] }

abbrev step : SwapStep
step = record { pool_address = 1; token_in = 10; token_out = 20; protocol = uniswap_v2; fee = 30 }

abbrev arb : ArbPath
arb = record {
  path = record { steps = step ∷ []; hash = 77 };
  expected_profit = 0;
  gas_estimate = 2;
  block_number = 7;
}

abbrev station : GasStation
station = record {
  base_fee = 100;
  last_gas_used = 15_000_000;
  last_gas_limit = 30_000_000;
  elasticity_multiplier = 2;
  base_fee_change_denominator = 8;
  min_base_fee_wei = 1;
  priority_fee_cap_wei = 0;
}

abbrev worker : SimulatorWorker
worker = record {
  config = record default_config {
    min_profit_wei = 500;
    optimization_steps = 8;
    min_input = 1000;
    max_input = 100_000;
    flash_loan_fee_bps = 5;
  };
  gas_station = station;
  blacklisted_paths = [];
  blacklisted_tokens = [];
  native_token = 10;
  token_price_pools = [];
}

abbrev valid : ValidPath
valid = record { arb = arb; amount_in = 4000; amount_out = 7000; gas_cost = 200; net_profit = 2798 }

accepts : (simulate_and_optimize (λ path. quote) worker db arb).0 ≡ some valid
unfolding program
accepts = refl

simulate_and_optimize-IsSettled_example :
    IsQuoted quote 100_000 4000 7000
    × IsSettled worker (simulate_and_optimize (λ path. quote) worker db arb).1 arb valid
simulate_and_optimize-IsSettled_example =
    simulate_and_optimize-IsSettled (λ path. quote) worker db arb valid (omega arith) (omega arith)
      accepts

abbrev no_code : AccountInfo
no_code = record { balance = 0; nonce = 0; code_hash = 0; code = none }

abbrev fetched : SimDb
fetched = record {
  accounts =
      (1, record { info = no_code; storage = (8, 99) ∷ (9, 50) ∷ [] })
      ∷ (
        2,
        record { info = record no_code { code_hash = 5; code = some (0x60 ∷ []) }; storage = [] },
      )
      ∷ [];
}

abbrev shared : BlockStateDb
shared = record db {
  accounts =
      (
        1,
        record {
          info = no_code;
          storage = (8, record { value = 40; insertion_type = on_chain }) ∷ [];
        },
      )
      ∷ [];
}

holds : stored shared 1 8 ≡ some 40
unfolding program
holds = refl

adds : stored (write_back fetched shared) 1 9 ≡ some 50
unfolding program
adds = refl

stored-write_back_example : stored (write_back fetched shared) 1 8 ≡ some 40
stored-write_back_example = stored-write_back fetched shared 1 8 40 holds

-- The account has no code, so it is asked for again.
asks_again : (sim_basic (λ address. record no_code { balance = 7 }) 0 fetched 1).0.balance ≡ 7
unfolding sim_basic lookup
asks_again = refl

code_found : sim_code_by_hash [] 0 fetched 5 ≡ 0x60 ∷ []
unfolding sim_code_by_hash
code_found = refl
