-- ===== src/TxSender/Strikes.antt =====
-- The loop of the sender: its guards, and the strikes against the paths and the tokens of what fails.
-- The file of toxic tokens and the log of opportunities are output, and left out.
use arb_bot.Prelude.{
  ℕ, ◌+◌, ◌%◌, ◌^◌, Bool, ◌&&◌, ◌||◌, List, [], ◌∷◌, Option, some, ltb, leb, if◌then◌else◌,
  unwrap_or, ◌>>=◌, nat_eq, lookup, insert, contains,
}
use arb_bot.Prelude.Text.{Text, codes, has_text, Result, ok, err}
use arb_bot.Word.{add64}
use arb_bot.Swap.Path.{Address, SwapStep}
use arb_bot.Gas.{GasStation}
use arb_bot.Simulator.{ValidPath}
use arb_bot.TxSender.Worker.{TxSenderConfig, Outside}
use arb_bot.TxSender.Send.{FlashSwapParams, Outbox, build_and_send}

-- The strikes of a kind of key, and the keys of that kind that are blacklisted.
pub record Tally : Type 0 where
  pub counts : List (ℕ × ℕ)
  pub blacklisted : List ℕ

abbrev pub count_of : ℕ → Tally → ℕ
count_of key t = unwrap_or (lookup key t.counts) 0

-- `HashSet::insert`
abbrev pub add_key : ℕ → List ℕ → List ℕ
add_key key keys = if contains key keys then keys else key ∷ keys

-- One strike against a path or a token: an instant one fills the count, which is a `u32`.
unfoldable pub strike : ℕ → Bool → ℕ → Tally → Tally
strike threshold is_instant key t =
    let count = if is_instant then threshold else (count_of key t + 1) % 2 ^ 32 in
    record {
      counts = insert key count t.counts;
      blacklisted = if leb threshold count then add_key key t.blacklisted else t.blacklisted;
    }

-- A token that the bot starts from is passed over.
abbrev pub strike_token : List Address → ℕ → Bool → Address → Tally → Tally
strike_token start_tokens threshold is_instant token t =
    if contains token start_tokens then t else strike threshold is_instant token t

-- The loop over the steps of a path, for both tokens of each.
unfoldable pub strike_steps : List Address → ℕ → Bool → List SwapStep → Tally → Tally
strike_steps start_tokens threshold is_instant [] t = t
strike_steps start_tokens threshold is_instant (step ∷ steps) t =
    strike_steps start_tokens threshold is_instant steps (
      strike_token start_tokens threshold is_instant step.token_out
        (strike_token start_tokens threshold is_instant step.token_in t))

abbrev pub is_revert : Text → Bool
is_revert e = has_text e (codes "preflight eth_call reverted")

-- Also in hexadecimal.
abbrev pub is_repay_insufficient : Text → Bool
is_repay_insufficient e =
    has_text e (codes "repay insufficient")
    || has_text e (codes "726570617920696e73756666696369656e74")

abbrev pub is_instant : Text → Bool
is_instant e = has_text e (codes "INSTANT_BLACKLIST")

pub record Tallies : Type 0 where
  pub paths : Tally
  pub tokens : Tally

-- The handling of a failure of `build_and_send`.
unfoldable pub on_error : TxSenderConfig → List Address → ValidPath → Text → Tallies → Tallies
on_error config start_tokens valid e t =
    if is_revert e
    then if is_repay_insufficient e then t else record {
      paths = strike config.strike_threshold (is_instant e) valid.arb.path.hash t.paths;
      tokens =
          strike_steps start_tokens config.strike_threshold (is_instant e) valid.arb.path.steps
            t.tokens;
    }
    else t

abbrev pub on_result : TxSenderConfig → List Address → ValidPath → Result Text → Tallies → Tallies
on_result config start_tokens valid (ok hash) t = t
on_result config start_tokens valid (err e) t = on_error config start_tokens valid e t

pub record RunState : Type 0 where
  pub cached_head : ℕ
  pub tallies : Tallies
  pub outbox : Outbox

-- One round of the loop of `run`. The head is `none` where it is not asked for or not answered.
module _ (abi_encode : FlashSwapParams → List ℕ) where
  unfoldable pub handle :
      GasStation
      → TxSenderConfig
      → List Address
      → Outside
      → Option ℕ
      → ValidPath
      → RunState
      → Option RunState
  handle station config start_tokens out head valid s =
      if ltb valid.net_profit config.min_submit_profit_wei
      then some s
      else let cached_head = unwrap_or head s.cached_head in
        if ltb 0 cached_head
          && ltb (add64 valid.arb.block_number config.max_stale_blocks) cached_head
        then some (record s { cached_head = cached_head })
        else (do
          (result, outbox) ← build_and_send abi_encode station out config valid s.outbox
          some (record {
            cached_head = cached_head;
            tallies = on_result config start_tokens valid result s.tallies;
            outbox = outbox;
          }))
