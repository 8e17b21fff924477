-- ===== src/TxSender/Send.antt =====
-- `build_and_send`: the providers of the flash loan in their order, the check, the signature with the
-- next nonce, and the submission. What is posted to the sequencer is kept as a list.
use arb_bot.Prelude.{
  ℕ, ◌-◌, Bool, true, false, List, [], ◌∷◌, ◌++◌, Option, none, some, ◌==◌, ltb, leb, if◌then◌else◌,
  ◌>>=◌,
}
use arb_bot.Prelude.Text.{Text, codes, Result, ok, err}
use arb_bot.Word.{add64}
use arb_bot.Swap.Path.{Address, to_quoter_params}
use arb_bot.Swap.Path
use arb_bot.Gas.{GasStation}
use arb_bot.Simulator.{ValidPath}
use arb_bot.TxSender.Worker.{
  TxSenderConfig, TransactionRequest, KeyCheck, bad_hex, bad_key, signer, JsonReply, RpcReply,
  unreachable, unreadable, replied, Outside, gas_params,
}
use arb_bot.TxSender.Preflight.{preflight_eth_call, is_instant_blacklist_error}

-- `FlashSwap::SwapParams` of src/gen_alloy.rs
pub record FlashSwapParams : Type 0 where
  pub pools : List Address
  pub pool_versions : List ℕ
  pub fees : List ℕ
  pub amount_in : ℕ
  pub start_token : Address
  pub flash_loan_provider : ℕ

-- The nonce of the next transaction, and what was posted.
pub record Outbox : Type 0 where
  pub nonce : ℕ
  pub posted : List TransactionRequest

abbrev pub Outcome : Type 0
Outcome = Result Text × Outbox

abbrev pub with_provider : Path.SwapParams → ℕ → FlashSwapParams
with_provider params provider = record {
  pools = params.pools;
  pool_versions = params.pool_versions;
  fees = params.fees;
  amount_in = params.amount_in;
  start_token = params.start_token;
  flash_loan_provider = provider;
}

abbrev pub result_of : JsonReply → Option Text → Result Text
result_of json (some hash) = ok hash
result_of json none =
    err (codes "eth_sendRawTransaction failed: " ++ elim json.error [ none ↦ [] | some e ↦ e ])

-- `submit_raw_tx`, from the answer of the sequencer
abbrev pub submitted_as : RpcReply → Result Text
submitted_as (unreachable e) = err (codes "Sequencer request failed: " ++ e)
submitted_as (unreadable e) = err (codes "JSON parse failed: " ++ e)
submitted_as (replied json) = result_of json json.result

abbrev pub transaction : TxSenderConfig → List ℕ → ℕ → ℕ → ℕ → TransactionRequest
transaction config calldata max_fee priority_fee nonce = record {
  to = config.bot_address;
  nonce = nonce;
  gas_limit = config.max_gas_limit;
  chain_id = config.chain_id;
  max_fee_per_gas = max_fee;
  max_priority_fee_per_gas = priority_fee;
  input = calldata;
}

-- The signed bytes are submitted; a signature that fails has used up its nonce too.
abbrev pub submit_signed : Outside → TransactionRequest → Outbox → Result (List ℕ) → Outcome
submit_signed out tx box (err e) =
    (err (codes "Transaction signing failed: " ++ e), record box { nonce = add64 box.nonce 1 })
submit_signed out tx box (ok raw) = (
  submitted_as (out.send_raw raw),
  record { nonce = add64 box.nonce 1; posted = box.posted ++ tx ∷ [] },
)

abbrev pub sign_as : Outside → TransactionRequest → Outbox → KeyCheck → Outcome
sign_as out tx box (bad_hex e) = (err (codes "Invalid signer_key hex: " ++ e), box)
sign_as out tx box (bad_key e) = (err (codes "Invalid secret key bytes: " ++ e), box)
sign_as out tx box (signer _) = submit_signed out tx box (out.sign tx)

-- `build_raw_tx` and `submit_raw_tx`
unfoldable pub sign_and_submit : Outside → TxSenderConfig → List ℕ → ℕ → ℕ → Outbox → Outcome
sign_and_submit out config calldata max_fee priority_fee box = elim config.signer_key [
  | [] ↦ (err (codes "No signer key configured — set signer_key in PipelineConfig"), box)
  | c ∷ cs ↦
      sign_as out (transaction config calldata max_fee priority_fee box.nonce) box
        (out.check_key (c ∷ cs))
]

-- The bytes of a character in UTF-8.
abbrev pub utf8_width : ℕ → ℕ
utf8_width c = if ltb c 0x80 then 1 else if ltb c 0x800 then 2 else if ltb c 0x10000 then 3 else 4

-- Whether `&e[..e.len().min(n)]` cuts no character: else the slice panics.
unfoldable pub is_char_boundary : ℕ → Text → Bool
is_char_boundary n [] = true
is_char_boundary n (c ∷ cs) =
    let rest = is_char_boundary (n - utf8_width c) cs in
    if n == 0 then true else if leb (utf8_width c) n then rest else false

-- The encoder of the contract's calls is generated code.
module _ (abi_encode : FlashSwapParams → List ℕ) where
  unfoldable pub encode_calldata_with_provider : ValidPath → ℕ → List ℕ
  encode_calldata_with_provider valid provider =
      abi_encode (with_provider (to_quoter_params valid.arb.path valid.amount_in) provider)

  abbrev pub checked : Outside → TxSenderConfig → List ℕ → Result (Unit {0})
  checked out config calldata =
      if out.skip_preflight then ok tt else preflight_eth_call out config.signer_key calldata

  -- What follows a failed check: the error, or the other providers, before which the start of the
  -- error is logged: `none` is the panic of that slice.
  abbrev pub after_failure : Text → List ℕ → Option Outcome → Outbox → Option Outcome
  after_failure e rest next box =
      if is_instant_blacklist_error e
      then some (err (codes "preflight eth_call reverted: INSTANT_BLACKLIST " ++ e), box)
      else elim rest [
        | [] ↦ some (err (codes "preflight eth_call reverted: " ++ e), box)
        | p ∷ ps ↦ if is_char_boundary 120 e then next else none
      ]

  abbrev pub after_check : Result (Unit {0}) → Outcome → (Text → Option Outcome) → Option Outcome
  after_check (ok _) send fail = some send
  after_check (err e) send fail = fail e

  -- The loop over the providers. The error after it is never reached: there is a provider.
  unfoldable pub try_providers :
      Outside → TxSenderConfig → ValidPath → ℕ → ℕ → List ℕ → Text → Outbox → Option Outcome
  try_providers out config valid max_fee priority_fee [] last_err box =
      some (err (codes "preflight eth_call reverted: " ++ last_err), box)
  try_providers out config valid max_fee priority_fee (provider ∷ rest) last_err box =
      let calldata = encode_calldata_with_provider valid provider in
      let next = λ (e : Text). try_providers out config valid max_fee priority_fee rest e box in
      if config.dry_run
      then some (ok (codes "0x_dry_run"), box)
      else after_check (checked out config calldata)
          (sign_and_submit out config calldata max_fee priority_fee box)
          (λ e. after_failure e rest (next e) box)

  abbrev pub providers : TxSenderConfig → List ℕ
  providers config =
      if config.flash_loan_provider == 0 then 0 ∷ [] else config.flash_loan_provider ∷ 0 ∷ []

  -- `none` is a panic: of the prediction, or of the slice for the log, which is on by default.
  unfoldable pub build_and_send :
      GasStation → Outside → TxSenderConfig → ValidPath → Outbox → Option Outcome
  unfolding try_providers
  build_and_send station out config valid box = do
    (priority_fee, max_fee) ← gas_params station config valid
    try_providers out config valid max_fee priority_fee (providers config) [] box
