-- ===== src/TxSender/Preflight.antt =====
-- The check of a transaction by a call of the node, and the reading of its errors.
use arb_bot.Prelude.{ℕ, Bool, ◌&&◌, ◌||◌, not, List, ◌++◌, Option, none, some, if◌then◌else◌}
use arb_bot.Prelude.Text.{Text, codes, has_text, starts_with, Result, ok, err}
use arb_bot.TxSender.Worker.{
  KeyCheck, bad_hex, bad_key, signer, JsonReply, RpcReply, unreachable, unreadable, replied,
  Outside,
}

-- The members of an answer, `error` first.
abbrev pub read_result : Text → Option Text → Result (Unit {0})
read_result whole none = err (codes "preflight eth_call: unexpected response: " ++ whole)
read_result whole (some result) =
    if starts_with result (codes "0x08c379a2")
    then err (codes "preflight eth_call reverted (Error selector in result): " ++ result)
    else ok tt

abbrev pub read_json : JsonReply → Option Text → Result (Unit {0})
read_json json (some e) = err (codes "preflight eth_call reverted: " ++ e)
read_json json none = read_result json.whole json.result

abbrev pub read_reply : RpcReply → Result (Unit {0})
read_reply (unreachable e) = err (codes "preflight eth_call request failed: " ++ e)
read_reply (unreadable e) = err (codes "preflight eth_call JSON parse failed: " ++ e)
read_reply (replied json) = read_json json json.error

abbrev pub call_as : Outside → List ℕ → KeyCheck → Result (Unit {0})
call_as out calldata (bad_hex e) = err (codes "preflight: bad key hex: " ++ e)
call_as out calldata (bad_key e) = err (codes "preflight: bad key: " ++ e)
call_as out calldata (signer from) = read_reply (out.eth_call from calldata)

unfoldable pub preflight_eth_call : Outside → Text → List ℕ → Result (Unit {0})
preflight_eth_call out signer_key calldata = call_as out calldata (out.check_key signer_key)

unfoldable pub is_instant_blacklist_error : Text → Bool
is_instant_blacklist_error e =
    has_text e (codes "\"data\":\"0x\"")
    || (has_text e (codes "5446") && not (has_text e (codes "repay")))
