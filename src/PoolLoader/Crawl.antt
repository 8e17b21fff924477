-- ===== src/PoolLoader/Crawl.antt =====
-- src/pool_loader.rs, `crawl_factory_logs`: the pools that a factory's logs announce, asked for in
-- ranges of blocks. The node's answers are a parameter.
pub mod Complete
use arb_bot.Prelude.{
  ℕ, zero, suc, ◌+◌, ◌-◌, ◌*◌, ◌/◌, ◌%◌, ◌^◌, min, max, Bool, true, false, List, [], ◌∷◌, ◌++◌,
  length, Option, none, some, leb, ltb, if◌then◌else◌, unwrap_or, get_elem?, take, drop, ◌>>=◌,
}
use arb_bot.Prelude.Int.{ℤ, pos, negsuc}
use arb_bot.Swap.Path.{Address}
use arb_bot.Swap.Protocol.{PoolProtocol, is_v3}
use arb_bot.StateDb.Slots.{from_be_bytes}
use arb_bot.PoolLoader.{RawPool}

pub record FactorySpec : Type 0 where
  pub address : Address
  pub protocol : PoolProtocol
  pub from_block : ℕ
  pub default_tick_spacing : ℤ

-- A log: its topics as words, its data as bytes.
pub record Log : Type 0 where
  pub topics : List ℕ
  pub data_bytes : List ℕ

-- `|`, on the lowest `bits` bits
abbrev pub or_bits : ℕ → ℕ → ℕ → ℕ
or_bits zero a b = 0
or_bits (suc bits) a b = max (a % 2) (b % 2) + 2 * or_bits bits (a / 2) (b / 2)

-- The fee in a fourth topic.
abbrev pub fee_of : Option ℕ → ℕ
fee_of none = 500
fee_of (some word) = or_bits 24 (word % 2 ^ 24) (word / 2 ^ 24 % 256 * 2 ^ 16)

-- `i32::from_be_bytes`
abbrev pub signed32 : ℕ → ℤ
signed32 n = if ltb n (2 ^ 31) then pos n else negsuc (2 ^ 32 - 1 - n)

-- `Address::from_slice` of a topic's last bytes
abbrev pub address_in : Option ℕ → Address
address_in topic = unwrap_or topic 0 % 2 ^ 160

abbrev pub bytes_at : List ℕ → ℕ → ℕ → ℕ
bytes_at bytes start stop = from_be_bytes 0 (take (stop - start) (drop start bytes))

unfoldable pub decode_log : Log → FactorySpec → Option RawPool
decode_log log spec =
    if ltb (length log.topics) 3
    then none
    else if is_v3 spec.protocol
    then (if ltb (length log.data_bytes) 64
        then none
        else some (record {
          address = bytes_at log.data_bytes 44 64;
          token0 = address_in (get_elem? log.topics 1);
          token1 = address_in (get_elem? log.topics 2);
          decimals0 = 18;
          decimals1 = 18;
          fee = fee_of (get_elem? log.topics 3);
          tick_spacing = signed32 (bytes_at log.data_bytes 28 32);
          protocol = spec.protocol;
        }))
    else if ltb (length log.data_bytes) 32
    then none
    else some (record {
      address = bytes_at log.data_bytes 12 32;
      token0 = address_in (get_elem? log.topics 1);
      token1 = address_in (get_elem? log.topics 2);
      decimals0 = 18;
      decimals1 = 18;
      fee = 30;
      tick_spacing = pos 0;
      protocol = spec.protocol;
    })

abbrev pub push_pool : Option RawPool → List RawPool → List RawPool
push_pool none pools = pools
push_pool (some pool) pools = pool ∷ pools

-- The loop over the logs of one answer.
unfoldable pub decode_logs : FactorySpec → List Log → List RawPool
decode_logs spec [] = []
decode_logs spec (log ∷ logs) = push_pool (decode_log log spec) (decode_logs spec logs)

-- An answer that is an error is only reported.
abbrev pub answered : Option (List Log) → List Log
answered none = []
answered (some logs) = logs

-- `from + chunk_size - 1`, as a release build wraps it
abbrev pub last_of_chunk : ℕ → ℕ → ℕ
last_of_chunk from_block chunk_size = ((from_block + chunk_size) % 2 ^ 64 + (2 ^ 64 - 1)) % 2 ^ 64

-- The logs of a factory's address with the topic for its protocol, in a range of blocks.
module _ (get_logs : Address → Bool → ℕ → ℕ → Option (List Log)) where
  -- The `while` loop, from a block on: `none` when the fuel is not enough.
  unfoldable pub crawl : FactorySpec → ℕ → ℕ → ℕ → ℕ → Option (List RawPool)
  crawl spec to_block chunk_size zero from_block = if leb from_block to_block then none else some []
  crawl spec to_block chunk_size (suc fuel) from_block =
      let to = min (last_of_chunk from_block chunk_size) to_block in
      let logs = answered (get_logs spec.address (is_v3 spec.protocol) from_block to) in
      let rest = crawl spec to_block chunk_size fuel ((to + 1) % 2 ^ 64) in
      if leb from_block to_block
      then (rest >>= λ pools. some (decode_logs spec logs ++ pools))
      else some []

  unfoldable pub crawl_factory_logs : FactorySpec → ℕ → ℕ → ℕ → Option (List RawPool)
  crawl_factory_logs spec to_block chunk_size fuel =
      crawl spec to_block chunk_size fuel spec.from_block
