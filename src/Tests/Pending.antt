-- ===== src/Tests/Pending.antt =====
-- Pending transactions of src/mempool.rs on concrete inputs.
use arb_bot.Prelude.{
  ℕ, ◌≡◌, ◌↔◌, refl, arith, List, [], ◌∷◌, ◌++◌, true, some, length, drop, contains, nat_eq, take,
}
use arb_bot.Prelude.Int.{pos}
use arb_bot.Prelude.Fallible.{found, panic, slice}
use arb_bot.Word.{add64}
use arb_bot.Swap.Path.{Address}
use arb_bot.Swap.Protocol.{uniswap_v2}
use arb_bot.Searcher.{PoolMeta}
use arb_bot.StateDb.Slots.{be_bytes, from_be_bytes, fill}
use arb_bot.Mempool.Decode.{
  path_word_idx, decode_any_swap, decode_v2_swap_path, decode_v3_path_bytes, decode_v3_multi_swap,
  read_word, selector_of,
}
use arb_bot.Mempool.Watch.{MempoolConfig, build_token_pair_lookup, pending_swap}
use arb_bot.Mempool.Encoding.{encode_words}
use arb_bot.Mempool.RoundTrip.{IsV2Call, exact_eth_for_tokens, decode_any_swap-IsV2Call}
use arb_bot.Mempool.Panics.{IsBytes, HasWrappingOffset, decode_v2_swap_path-eq-panic}
use arb_bot.Mempool.MultiHop.{
  IsExactInput, mistaken, encode_hops, decode_v3_path_bytes-encode_hops,
  decode_v3_multi_swap-IsExactInput,
}
use arb_bot.Mempool.Affected.{IsIncreasing, sent_pools, touches, sent_pools-pending_swap}

-- swapExactETHForTokens with the path 7, 5, 9.
abbrev eth_swap : List ℕ
eth_swap = be_bytes 4 0x7ff36ab5 ++ encode_words (1000 ∷ 128 ∷ 77 ∷ 99 ∷ 3 ∷ 7 ∷ 5 ∷ 9 ∷ [])

eth_swap-IsV2Call : IsV2Call eth_swap exact_eth_for_tokens 128 (7 ∷ 5 ∷ 9 ∷ [])
unfolding be_bytes
eth_swap-IsV2Call = record {
  small = omega arith;
  starts = ([], drop 4 eth_swap, refl, refl);
  points = (take 36 eth_swap, drop 68 eth_swap, refl, refl);
  counts = (take 132 eth_swap, drop 164 eth_swap, refl, refl);
  holds = (take 164 eth_swap, [], refl, refl);
  addresses = omega arith;
  at_least = omega arith;
  at_most = omega arith;
}

decode_any_swap-IsV2Call_example : decode_any_swap eth_swap ≡ found (7 ∷ 5 ∷ 9 ∷ [])
decode_any_swap-IsV2Call_example =
    decode_any_swap-IsV2Call eth_swap exact_eth_for_tokens 128 (7 ∷ 5 ∷ 9 ∷ []) eth_swap-IsV2Call

-- The same selector with an offset of 2^64 - 36.
abbrev bad_swap : List ℕ
bad_swap = be_bytes 4 0x7ff36ab5 ++ encode_words (1000 ∷ 18446744073709551580 ∷ [])

bad_swap-IsBytes : IsBytes bad_swap
unfolding be_bytes
bad_swap-IsBytes = record { small = omega arith; bytes = omega arith }

decode_v2_swap_path-eq-panic_example :
    (decode_v2_swap_path bad_swap ≡ panic) ↔ HasWrappingOffset bad_swap
decode_v2_swap_path-eq-panic_example = decode_v2_swap_path-eq-panic bad_swap bad_swap-IsBytes

bad_swap-HasWrappingOffset : HasWrappingOffset bad_swap
unfolding be_bytes from_be_bytes path_word_idx read_word selector_of slice add64
bad_swap-HasWrappingOffset = record {
  selector = 0x7ff36ab5;
  word = 1;
  offset = 18446744073709551580;
  selects = refl;
  is_swap = refl;
  reaches = omega arith;
  points = refl;
  at_least = omega arith;
  below = omega arith;
}

decode_v3_path_bytes-encode_hops_example :
    decode_v3_path_bytes (be_bytes 20 7 ++ encode_hops ((500, 5) ∷ (100, 9) ∷ []))
    ≡ found (7 ∷ 5 ∷ 9 ∷ [])
unfolding be_bytes
decode_v3_path_bytes-encode_hops_example =
    decode_v3_path_bytes-encode_hops 7 500 5 ((100, 9) ∷ []) (omega arith) (omega arith)
      (omega arith)

abbrev packed : List ℕ
packed = be_bytes 20 7 ++ encode_hops ((500, 5) ∷ [])

abbrev input_call : List ℕ
input_call =
    be_bytes 4 0xc04b8d59
    ++ (encode_words (32 ∷ 160 ∷ 11 ∷ 12 ∷ 13 ∷ 14 ∷ 43 ∷ []) ++ (packed ++ fill 21 0))

input_call-IsExactInput : IsExactInput input_call 11 12 13 14 packed
unfolding be_bytes
input_call-IsExactInput = record {
  small = omega arith;
  tuple = (take 4 input_call, drop 36 input_call, refl, refl);
  members = (take 36 input_call, drop 228 input_call, refl, refl);
  path = (take 228 input_call, fill 21 0, refl, refl);
}

decode_v3_multi_swap-IsExactInput_example :
    (addrs : List Address) × (decode_v3_multi_swap input_call ≡ found addrs)
    × (decode_v3_path_bytes (mistaken 11 12 13 14 packed) ≡ found addrs)
    × (length addrs ≡ 7)
decode_v3_multi_swap-IsExactInput_example =
    decode_v3_multi_swap-IsExactInput input_call 11 12 13 14 packed input_call-IsExactInput

abbrev pool : ℕ → ℕ → ℕ → PoolMeta
pool address token0 token1 = record {
  address = address;
  token0 = token0;
  token1 = token1;
  decimals0 = 18;
  decimals1 = 18;
  meta_is_v3 = true;
  fee = 30;
  tick_spacing = pos 60;
  protocol = uniswap_v2;
}

abbrev metas : List PoolMeta
metas = pool 101 5 7 ∷ pool 100 7 5 ∷ pool 102 5 8 ∷ pool 103 9 5 ∷ []

abbrev config : MempoolConfig
config = record { router_addresses = 55 ∷ []; token_pair_to_pool = build_token_pair_lookup metas }

router_known : contains 55 config.router_addresses ≡ true
unfolding contains
router_known = refl

sent_pools-pending_swap_example :
    IsIncreasing (sent_pools (pending_swap config (some 55) eth_swap))
    × ((p : Address)
        → contains p (sent_pools (pending_swap config (some 55) eth_swap))
          ≡ touches metas p (7 ∷ 5 ∷ 9 ∷ []))
sent_pools-pending_swap_example =
    sent_pools-pending_swap config metas 55 eth_swap (7 ∷ 5 ∷ 9 ∷ []) refl router_known
      decode_any_swap-IsV2Call_example
