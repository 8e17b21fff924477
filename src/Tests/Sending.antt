-- ===== src/Tests/Sending.antt =====
-- The sender of src/tx_sender_pipeline.rs on concrete inputs.
use arb_bot.Prelude.{
  ℕ, ◌+◌, ◌^◌, ◌≤◌, ◌<◌, ◌≡◌, refl, arith, true, false, ◌||◌, leb, List, [], ◌∷◌, ◌++◌, none, some,
  contains, nat_eq,
}
use arb_bot.Prelude.Text.{Text, codes, starts_with, has_text, ok, err}
use arb_bot.Word.{u64_mod, add64, saturating_add64, saturating_mul64}
use arb_bot.Swap.Protocol.{uniswap_v2}
use arb_bot.Swap.Path.{Address, SwapStep, to_quoter_params}
use arb_bot.Simulator.{ValidPath}
use arb_bot.StateDb.Slots.{fill}
use arb_bot.Gas.{GasStation, predict_next_base_fee, calc_next_base_fee, calc_priority_fee}
use arb_bot.TxSender.Worker.{
  TxSenderConfig, Outside, default_config, gas_params, signer, unreachable, replied,
}
use arb_bot.TxSender.Preflight.{preflight_eth_call}
use arb_bot.TxSender.Send.{
  FlashSwapParams, Outbox, build_and_send, is_char_boundary, sign_and_submit, providers,
  encode_calldata_with_provider,
}
use arb_bot.TxSender.Strikes.{is_revert}
use arb_bot.TxSender.Tally.{times, at_once}
use arb_bot.TxSender.Blacklist.{
  path_history, token_history, on_errors, no_strikes, blacklisted-on_errors, start_tokens_kept,
}
use arb_bot.TxSender.Submission.{Effect, build_and_send-Effect}
use arb_bot.TxSender.Reverts.{build_and_send-is_revert}
use arb_bot.TxSender.Fees.{gas_params_bounds}

abbrev step : Address → Address → Address → SwapStep
step pool token_in token_out = record {
  pool_address = pool;
  token_in = token_in;
  token_out = token_out;
  protocol = uniswap_v2;
  fee = 30;
}

abbrev valid : ValidPath
valid = record {
  arb = record {
    path = record { steps = step 1 10 11 ∷ step 2 11 12 ∷ step 3 12 10 ∷ []; hash = 77 };
    expected_profit = 5;
    gas_estimate = 200_000;
    block_number = 9;
  };
  amount_in = 1000;
  amount_out = 2000;
  gas_cost = 10;
  net_profit = 6_000_000_000_000;
}

abbrev revert_error : Text
revert_error = codes "preflight eth_call reverted: no"

abbrev failures : List (ValidPath × Text)
failures = (valid, revert_error) ∷ (valid, revert_error) ∷ []

-- Two failures: the path has two strikes of three, the token 11 has four.
path_times : times 77 (path_history failures) ≡ 2
unfolding has_text starts_with
path_times = refl

token_times : times 11 (token_history (10 ∷ []) failures) ≡ 4
unfolding has_text starts_with contains
token_times = refl

few_paths : times 11 (path_history failures) < 2 ^ 32
unfolding has_text starts_with
few_paths = omega arith

few_tokens : times 11 (token_history (10 ∷ []) failures) < 2 ^ 32
unfolding has_text starts_with contains
few_tokens = omega arith

blacklisted-on_errors_example :
    (contains 11 (on_errors default_config (10 ∷ []) failures no_strikes).paths.blacklisted ≡ (
      at_once 11 (path_history failures)
      || leb default_config.strike_threshold (times 11 (path_history failures))))
    × (contains 11 (on_errors default_config (10 ∷ []) failures no_strikes).tokens.blacklisted ≡ (
        at_once 11 (token_history (10 ∷ []) failures)
        || leb default_config.strike_threshold (times 11 (token_history (10 ∷ []) failures))))
blacklisted-on_errors_example =
    blacklisted-on_errors default_config (10 ∷ []) failures 11 (omega arith) few_paths few_tokens

known_start : contains {A = ℕ} 10 (10 ∷ []) ≡ true
unfolding contains
known_start = refl

start_tokens_kept_example :
    contains 10 (on_errors default_config (10 ∷ []) failures no_strikes).tokens.blacklisted ≡ false
start_tokens_kept_example =
    start_tokens_kept default_config (10 ∷ []) failures 10 (omega arith) known_start

abbrev station : GasStation
station = record {
  base_fee = 1_000_000_000;
  last_gas_used = 0;
  last_gas_limit = 0;
  elasticity_multiplier = 2;
  base_fee_change_denominator = 8;
  min_base_fee_wei = 1000;
  priority_fee_cap_wei = 3_000_000_000;
}

abbrev live : TxSenderConfig
live = record default_config { dry_run = false; signer_key = codes "1"; flash_loan_provider = 1 }

-- A node that does not answer, and one that accepts everything.
abbrev silent : Outside
silent = record {
  check_key = λ k. signer 5;
  eth_call = λ a c. unreachable (codes "timeout");
  sign = λ tx. ok tx.input;
  send_raw = λ raw. unreachable [];
  skip_preflight = false;
}

abbrev willing : Outside
willing = record silent {
  eth_call = λ a c. replied (record { error = none; result = some (codes "0x"); whole = [] });
  send_raw = λ raw. replied (record { error = none; result = some (codes "0xab"); whole = [] });
}

abbrev encoder : FlashSwapParams → List ℕ
encoder p = p.flash_loan_provider ∷ p.amount_in ∷ []

abbrev box : Outbox
box = record { nonce = 4; posted = [] }

predicted : predict_next_base_fee station ≡ some 1_000_000_000
unfolding predict_next_base_fee calc_next_base_fee
predicted = refl

fees_lem : gas_params station live valid ≡ some (15_000_000, 2_030_000_000)
unfolding gas_params predict_next_base_fee calc_next_base_fee calc_priority_fee saturating_add64
    saturating_mul64
fees_lem = refl

gas_params_bounds_example :
    (15_000_000 ≤ 2_030_000_000)
    × (1_000_000_000 ≤ 2_030_000_000)
    × (5_000_000 ≤ 1_000_000_000 + 15_000_000)
    × (2_030_000_000 < u64_mod)
gas_params_bounds_example =
    gas_params_bounds station live valid 1_000_000_000 15_000_000 2_030_000_000 predicted
      (omega arith) fees_lem

build_and_send-is_revert_example :
    (t : Text) × (build_and_send encoder station silent live valid box ≡ some (err t, box))
    × (is_revert t ≡ true)
unfolding preflight_eth_call is_char_boundary
build_and_send-is_revert_example =
    build_and_send-is_revert encoder station silent live valid box (15_000_000, 2_030_000_000)
      fees_lem refl refl
      (λ calldata. (codes "preflight eth_call request failed: timeout", refl, refl))

-- An error of the node with a character of two bytes, the first of which is the last of 120.
abbrev umlaut : Text
umlaut = fill 119 120 ++ 0xfc ∷ codes " failed"

cut_umlaut : is_char_boundary 120 umlaut ≡ false
unfolding is_char_boundary
cut_umlaut = refl

abbrev posted_box : Outbox
posted_box = record {
  nonce = 5;
  posted =
      record {
        to = 0;
        nonce = 4;
        gas_limit = 1_000_000;
        chain_id = 0;
        max_fee_per_gas = 2_030_000_000;
        max_priority_fee_per_gas = 15_000_000;
        input = 1 ∷ 1000 ∷ [];
      }
      ∷ [];
}

sent : build_and_send encoder station willing live valid box ≡ some (ok (codes "0xab"), posted_box)
unfolding build_and_send gas_params predict_next_base_fee calc_next_base_fee calc_priority_fee
    saturating_add64 saturating_mul64 preflight_eth_call starts_with sign_and_submit add64
    encode_calldata_with_provider to_quoter_params
sent = refl

build_and_send-Effect_example :
    (priority_fee : ℕ) × (max_fee : ℕ) × (gas_params station live valid
      ≡ some (priority_fee, max_fee))
    × Effect encoder willing live valid max_fee priority_fee
        (providers encoder live)
        box
        (ok (codes "0xab"), posted_box)
build_and_send-Effect_example =
    build_and_send-Effect encoder station willing live valid box posted_box (ok (codes "0xab")) sent
