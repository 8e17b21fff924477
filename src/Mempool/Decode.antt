-- ===== src/Mempool/Decode.antt =====
-- The calldata decoders of src/mempool.rs. Calldata is a list of bytes, a selector the number that
-- its four bytes spell. Offsets are `usize`, whose sums wrap around at 2^64.
use arb_bot.Prelude.{
  ℕ, zero, suc, ◌+◌, ◌*◌, true, false, ◌||◌, List, [], ◌∷◌, ◌++◌, Option, none, some, ltb, ◌==◌,
  if◌then◌else◌, length,
}
use arb_bot.Prelude.Fallible.{Fallible, found, missing, panic, ◌>>=◌, ◌>>◌, need, refuse_if, slice}
use arb_bot.Word.{add64}
use arb_bot.Swap.Path.{Address}
use arb_bot.StateDb.Slots.{from_be_bytes}

abbrev pub swap_exact_tokens_for_tokens : ℕ
swap_exact_tokens_for_tokens = 0x38ed1739

abbrev pub swap_tokens_for_exact_tokens : ℕ
swap_tokens_for_exact_tokens = 0x8803dbee

abbrev pub swap_exact_eth_for_tokens : ℕ
swap_exact_eth_for_tokens = 0x7ff36ab5

abbrev pub swap_exact_tokens_for_eth : ℕ
swap_exact_tokens_for_eth = 0x18cbafe5

abbrev pub swap_exact_tokens_for_tokens_fee : ℕ
swap_exact_tokens_for_tokens_fee = 0x5c11d795

abbrev pub swap_exact_tokens_for_eth_fee : ℕ
swap_exact_tokens_for_eth_fee = 0x791ac947

abbrev pub exact_input_single : ℕ
exact_input_single = 0x414bf389

abbrev pub exact_input : ℕ
exact_input = 0xc04b8d59

abbrev pub exact_output_single : ℕ
exact_output_single = 0xdb3e2198

abbrev pub exact_output : ℕ
exact_output = 0xf28c0498

abbrev pub exact_input_single_v3_alt : ℕ
exact_input_single_v3_alt = 0x04e45aaf

abbrev pub multicall_deadline : ℕ
multicall_deadline = 0x5ae401dc

abbrev pub multicall_no_deadline : ℕ
multicall_no_deadline = 0xac9650d8

-- What a `match` on a selector tells apart.
pub data SwapCall : Type 0 where
  v2_swap v3_single v3_multi multicall unknown : SwapCall

unfoldable pub path_word_idx : ℕ → Option ℕ
path_word_idx selector =
    if selector == swap_exact_tokens_for_tokens
    then some 2
    else if selector == swap_tokens_for_exact_tokens
    then some 2
    else if selector == swap_exact_eth_for_tokens
    then some 1
    else if selector == swap_exact_tokens_for_eth
    then some 2
    else if selector == swap_exact_tokens_for_tokens_fee
    then some 2
    else if selector == swap_exact_tokens_for_eth_fee
    then some 2
    else none

-- The order of the arms does not matter: all selectors differ.
unfoldable pub swap_call : ℕ → SwapCall
swap_call selector =
    if selector == exact_input_single
      || selector == exact_output_single
      || selector == exact_input_single_v3_alt
    then v3_single
    else if selector == exact_input || selector == exact_output
    then v3_multi
    else if selector == multicall_deadline || selector == multicall_no_deadline
    then multicall
    else elim (path_word_idx selector) [ none ↦ unknown | some _ ↦ v2_swap ]

-- `if calldata.len() < n { return None; }`
abbrev pub has_len : List ℕ → ℕ → Fallible (Unit {0})
has_len calldata n = refuse_if (ltb (length calldata) n)

unfoldable pub selector_of : List ℕ → Fallible ℕ
selector_of calldata = do bytes ← slice calldata 0 4; found (from_be_bytes 0 bytes)

-- The last 8 of the 32 bytes at a position, as a `u64`.
unfoldable pub read_word : List ℕ → ℕ → Fallible ℕ
read_word calldata start = do
  bytes ← slice calldata start (add64 start 32)
  last ← slice bytes 24 32
  found (from_be_bytes 0 last)

-- `Address::from_slice(&calldata[start..start + 20])`
unfoldable pub read_address : List ℕ → ℕ → Fallible Address
read_address calldata start = do
  bytes ← slice calldata start (add64 start 20)
  found (from_be_bytes 0 bytes)

-- The loop of `decode_v2_swap_path`, at round `i` with `rounds` to go.
unfoldable pub read_path : List ℕ → ℕ → ℕ → ℕ → Fallible (List Address)
read_path calldata data_start i zero = found []
read_path calldata data_start i (suc rounds) = do
  let addr_start = add64 (add64 data_start (i * 32)) 12
  has_len calldata (add64 addr_start 20)
  addr ← read_address calldata addr_start
  addrs ← read_path calldata data_start (suc i) rounds
  found (addr ∷ addrs)

unfoldable pub decode_v2_swap_path : List ℕ → Fallible (List Address)
decode_v2_swap_path calldata = do
  has_len calldata 4
  selector ← selector_of calldata
  path_word ← need (path_word_idx selector)
  let offset_start = 4 + path_word * 32
  has_len calldata (offset_start + 32)
  offset ← read_word calldata offset_start
  let array_start = add64 4 offset
  has_len calldata (add64 array_start 32)
  path_len ← read_word calldata array_start
  refuse_if (ltb path_len 2 || ltb 10 path_len)
  let data_start = add64 array_start 32
  has_len calldata (add64 data_start (path_len * 32))
  read_path calldata data_start 0 path_len

unfoldable pub decode_v3_single_swap : List ℕ → Fallible (List Address)
decode_v3_single_swap calldata = do
  has_len calldata 68
  token_in ← slice calldata 16 36
  token_out ← slice calldata 48 68
  found (from_be_bytes 0 token_in ∷ from_be_bytes 0 token_out ∷ [])

-- The `while` loop of `decode_v3_path_bytes`. The fuel is a bound on the rounds; `panic` without any.
unfoldable pub read_hops : ℕ → List ℕ → ℕ → Fallible (List Address)
read_hops zero path position = panic
read_hops (suc fuel) path position = elim (ltb (length path) (position + 23)) [
  | true ↦ found []
  | false ↦ (do
    addr ← read_address path (position + 3)
    addrs ← read_hops fuel path (position + 3 + 20)
    found (addr ∷ addrs))
]

unfoldable pub decode_v3_path_bytes : List ℕ → Fallible (List Address)
decode_v3_path_bytes path = do
  has_len path 43
  first ← read_address path 0
  others ← read_hops (length path) path 20
  let addrs = first ∷ others
  if ltb (length addrs) 2 then missing else found addrs

unfoldable pub decode_v3_multi_swap : List ℕ → Fallible (List Address)
decode_v3_multi_swap calldata = do
  has_len calldata 36
  offset ← read_word calldata 4
  let path_start = add64 4 offset
  has_len calldata (add64 path_start 32)
  path_len ← read_word calldata path_start
  let data_start = add64 path_start 32
  has_len calldata (add64 data_start path_len)
  path_data ← slice calldata data_start (add64 data_start path_len)
  decode_v3_path_bytes path_data

-- The `match` on the selector of a sub-call: a multicall is not looked into again.
abbrev pub decode_sub_as : SwapCall → List ℕ → Fallible (List Address)
decode_sub_as v2_swap sub_call = decode_v2_swap_path sub_call
decode_sub_as v3_single sub_call = decode_v3_single_swap sub_call
decode_sub_as v3_multi sub_call = decode_v3_multi_swap sub_call
decode_sub_as multicall sub_call = missing
decode_sub_as unknown sub_call = missing

unfoldable pub decode_sub_call : List ℕ → Fallible (List Address)
decode_sub_call sub_call = do
  selector ← selector_of sub_call
  decode_sub_as (swap_call selector) sub_call

-- `if let Some(toks) = tokens { all_tokens.extend(toks); }`
abbrev pub tokens_or_none : Fallible (List Address) → Fallible (List Address)
tokens_or_none (found toks) = found toks
tokens_or_none missing = found []
tokens_or_none panic = panic

-- The tokens of the sub-call that starts at a position; none where it is skipped by `continue`.
unfoldable pub sub_call_tokens : List ℕ → ℕ → Fallible (List Address)
sub_call_tokens calldata elem_start = do
  sub_len ← read_word calldata elem_start
  let sub_data_start = add64 elem_start 32
  elim (ltb (length calldata) (add64 sub_data_start sub_len) || ltb sub_len 4) [
    | true ↦ found []
    | false ↦ (do
      sub_call ← slice calldata sub_data_start (add64 sub_data_start sub_len)
      tokens_or_none (decode_sub_call sub_call))
  ]

-- The loop over the sub-calls from number `i`; both `break`s keep what was found before.
unfoldable pub read_calls : List ℕ → ℕ → ℕ → ℕ → Fallible (List Address)
read_calls calldata arr_start i zero = found []
read_calls calldata arr_start i (suc rounds) =
    let elem_off_pos = add64 (add64 arr_start 32) (i * 32) in
    elim (ltb (length calldata) (add64 elem_off_pos 32)) [
      | true ↦ found []
      | false ↦ (do
        elem_offset ← read_word calldata elem_off_pos
        let elem_start = add64 (add64 arr_start 32) elem_offset
        elim (ltb (length calldata) (add64 elem_start 32)) [
          | true ↦ found []
          | false ↦ (do
            tokens ← sub_call_tokens calldata elem_start
            others ← read_calls calldata arr_start (suc i) rounds
            found (tokens ++ others))
        ])
    ]

unfoldable pub array_offset_word : ℕ → Option ℕ
array_offset_word selector =
    if selector == multicall_deadline
    then some 1
    else if selector == multicall_no_deadline
    then some 0
    else none

unfoldable pub decode_multicall_swaps : List ℕ → Fallible (List Address)
decode_multicall_swaps calldata = do
  has_len calldata 4
  selector ← selector_of calldata
  offset_word ← need (array_offset_word selector)
  let off_start = 4 + offset_word * 32
  has_len calldata (off_start + 32)
  offset ← read_word calldata off_start
  let arr_start = add64 4 offset
  has_len calldata (add64 arr_start 32)
  num_calls ← read_word calldata arr_start
  refuse_if (num_calls == 0 || ltb 20 num_calls)
  all_tokens ← read_calls calldata arr_start 0 num_calls
  elim all_tokens [ [] ↦ missing | t ∷ ts ↦ found (t ∷ ts) ]

-- The arms of the `match` of `decode_any_swap`.
abbrev pub decode_as : SwapCall → List ℕ → Fallible (List Address)
decode_as v2_swap calldata = decode_v2_swap_path calldata
decode_as v3_single calldata = decode_v3_single_swap calldata
decode_as v3_multi calldata = decode_v3_multi_swap calldata
decode_as multicall calldata = decode_multicall_swaps calldata
decode_as unknown calldata = missing

unfoldable pub decode_any_swap : List ℕ → Fallible (List Address)
decode_any_swap calldata = do
  has_len calldata 4
  selector ← selector_of calldata
  decode_as (swap_call selector) calldata
