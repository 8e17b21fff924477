-- ===== src/StateDb/Read.antt =====
-- The readers of src/state_db.rs: pool state out of packed storage words, from local data only.
-- `x & (2^k - 1)` is `x % 2^k` and `x >> k` is `x / 2^k`.
use arb_bot.Prelude.{
  ℕ, ◌+◌, ◌-◌, ◌/◌, ◌%◌, ◌^◌, Option, none, some, ◌==◌, ltb, if◌then◌else◌, ◌>>=◌, lookup, contains,
  nat_eq, List,
}
use arb_bot.Prelude.Int.{ℤ, pos, negsuc}
use arb_bot.Swap.Path.{Address}
use arb_bot.StateDb.Slots.{
  v2_reserves_slot, v3_slot0, v3_liquidity_slot, v3_liquidity_slot_pancake, v3_tick_slot_base,
  v3_tick_bitmap_slot_base,
}
use arb_bot.StateDb.Store.{BlockStateDb}

-- The value of a slot that is loaded.
unfoldable pub stored : BlockStateDb → Address → ℕ → Option ℕ
stored db address slot = do
  account ← lookup address db.accounts
  entry ← lookup slot account.storage
  some entry.value

unfoldable pub read_v2_reserves : BlockStateDb → Address → Option (ℕ × ℕ)
read_v2_reserves db pool = do
  packed ← stored db pool v2_reserves_slot
  some (packed % 2 ^ 112, packed / 2 ^ 112 % 2 ^ 112)

-- An `i32` from its bits.
abbrev pub signed32 : ℕ → ℤ
signed32 w = if ltb w (2 ^ 31) then pos w else negsuc (2 ^ 32 - w - 1)

-- `if tick_raw & 0x800000 != 0 { (tick_raw | 0xFF000000) as i32 } else { tick_raw as i32 }`
unfoldable pub sign_extend : ℕ → ℤ
sign_extend tick_raw =
    if tick_raw / 2 ^ 23 % 2 == 0 then signed32 tick_raw else signed32 (tick_raw + 0xff00_0000)

-- The tick of a packed slot0.
unfoldable pub tick_of : ℕ → ℤ
unfolding sign_extend
tick_of packed = sign_extend (packed / 2 ^ 160 % 2 ^ 24)

unfoldable pub read_v3_slot0 : BlockStateDb → Address → Option (ℕ × ℤ)
unfolding tick_of
read_v3_slot0 db pool = do packed ← stored db pool v3_slot0; some (packed % 2 ^ 160, tick_of packed)

-- the second pass of `read_v3_liquidity`: whichever slot exists
liquidity_or_zero : Option ℕ → Option ℕ → Option ℕ
liquidity_or_zero (some v) w = some (v % 2 ^ 128)
liquidity_or_zero none (some w) = some (w % 2 ^ 128)
liquidity_or_zero none none = none

abbrev low_128 : Option ℕ → ℕ
low_128 none = 0
low_128 (some v) = v % 2 ^ 128

unfoldable pub read_v3_liquidity : BlockStateDb → Address → Option ℕ
unfolding liquidity_or_zero
read_v3_liquidity db pool =
    let first = stored db pool v3_liquidity_slot in
    let second = stored db pool v3_liquidity_slot_pancake in
    if ltb 0 (low_128 first)
    then some (low_128 first)
    else if ltb 0 (low_128 second)
    then some (low_128 second)
    else liquidity_or_zero first second

-- An `i128` from its bits.
abbrev pub signed128 : ℕ → ℤ
signed128 w = if ltb w (2 ^ 127) then pos w else negsuc (2 ^ 128 - w - 1)

module _ (keccak256 : List ℕ → ℕ) where
  unfoldable pub read_v3_tick : BlockStateDb → Address → ℤ → Option (ℕ × ℤ)
  read_v3_tick db pool tick =
      let base : ℕ = if contains pool db.pancake_v3_pools then 6 else 5 in
      do
        packed ← stored db pool (v3_tick_slot_base keccak256 tick base)
        some (packed % 2 ^ 128, signed128 (packed / 2 ^ 128 % 2 ^ 128))

  unfoldable pub read_v3_tick_bitmap : BlockStateDb → Address → ℤ → Option ℕ
  read_v3_tick_bitmap db pool word_pos =
      let base : ℕ = if contains pool db.pancake_v3_pools then 7 else 6 in
      stored db pool (v3_tick_bitmap_slot_base keccak256 word_pos base)
