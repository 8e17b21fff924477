-- ===== src/TxSender/Worker.antt =====
-- The configuration of the sender, and what stands for the code outside: the keys, the node and the
-- sequencer.
use arb_bot.Prelude.{ℕ, ◌-◌, Bool, true, List, [], Option, some, ltb, if◌then◌else◌, min, ◌>>=◌}
use arb_bot.Prelude.Text.{Text, Result}
use arb_bot.Word.{u64_mod, saturating_add64, saturating_mul64}
use arb_bot.Swap.Path.{Address}
use arb_bot.Gas.{GasStation, predict_next_base_fee, calc_priority_fee}
use arb_bot.Simulator.{ValidPath}

-- The URLs and the file of the log are left out.
pub record TxSenderConfig : Type 0 where
  pub bot_address : Address
  pub signer_key : Text
  pub chain_id : ℕ
  pub max_gas_limit : ℕ
  pub profit_share_bps : ℕ
  pub min_submit_profit_wei : ℕ
  pub max_stale_blocks : ℕ
  pub strike_threshold : ℕ
  pub dry_run : Bool
  pub flash_loan_provider : ℕ

abbrev pub default_config : TxSenderConfig
default_config = record {
  bot_address = 0;
  signer_key = [];
  chain_id = 0;
  max_gas_limit = 1_000_000;
  profit_share_bps = 5000;
  min_submit_profit_wei = 5_000_000_000_000;
  max_stale_blocks = 3;
  strike_threshold = 3;
  dry_run = true;
  flash_loan_provider = 255;
}

-- The request that is signed.
pub record TransactionRequest : Type 0 where
  pub to : Address
  pub nonce : ℕ
  pub gas_limit : ℕ
  pub chain_id : ℕ
  pub max_fee_per_gas : ℕ
  pub max_priority_fee_per_gas : ℕ
  pub input : List ℕ

-- What becomes of the private key: it is no hexadecimal text, no key, or the key of a signer.
pub data KeyCheck : Type 0 where
  bad_hex : Text → KeyCheck
  bad_key : Text → KeyCheck
  signer : Address → KeyCheck

-- The JSON answer of a node: its members `error` and `result`, the latter if it is a text, and the
-- answer itself.
pub record JsonReply : Type 0 where
  pub error : Option Text
  pub result : Option Text
  pub whole : Text

-- A request that did not reach the node, one whose answer is no JSON, or an answer.
pub data RpcReply : Type 0 where
  unreachable : Text → RpcReply
  unreadable : Text → RpcReply
  replied : JsonReply → RpcReply

-- What happens outside while one opportunity is handled.
pub record Outside : Type 0 where
  pub check_key : Text → KeyCheck
  pub eth_call : Address → List ℕ → RpcReply
  pub sign : TransactionRequest → Result (List ℕ)
  pub send_raw : List ℕ → RpcReply
  pub skip_preflight : Bool

-- The gas parameters of `build_and_send`: the priority fee and the fee cap. `none` is the panic of
-- the prediction.
unfoldable pub gas_params : GasStation → TxSenderConfig → ValidPath → Option (ℕ × ℕ)
gas_params station config valid = do
  base_fee ← predict_next_base_fee station
  let profit = min valid.net_profit (u64_mod - 1)
  let bid = calc_priority_fee station profit valid.arb.gas_estimate config.profit_share_bps
  let priority_fee =
      if ltb (saturating_add64 base_fee bid) 5_000_000 then 5_000_000 - base_fee else bid
  some (priority_fee, saturating_mul64 (saturating_add64 base_fee priority_fee) 2)
