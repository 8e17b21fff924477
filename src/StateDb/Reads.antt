-- ===== src/StateDb/Reads.antt =====
-- The packed words of src/state_db.rs are read as the contracts of the chain write them.
use arb_bot.Prelude.{ℕ, ◌+◌, ◌-◌, ◌*◌, ◌/◌, ◌%◌, ◌^◌, ◌<◌, ◌≡◌, some, arith, Option-cases, inl, inr}
use arb_bot.Prelude.Int.{ℤ, pos, negsuc, ◌≤ℤ◌}
use arb_bot.Swap.Path.{Address}
use arb_bot.StateDb.Slots.{v2_reserves_slot, v3_slot0}
use arb_bot.StateDb.Store.{BlockStateDb, Remote, update_slot}
use arb_bot.StateDb.Read.{stored, read_v2_reserves, sign_extend, read_v3_slot0}
use arb_bot.StateDb.Writes.{stored-update_slot}

-- The word of a pair contract: two 112-bit reserves under a 32-bit timestamp.
abbrev pub pack_reserves : ℕ → ℕ → ℕ → ℕ
pack_reserves reserve0 reserve1 timestamp = reserve0 + reserve1 * 2 ^ 112 + timestamp * 2 ^ 224

-- When the word of a pair contract is stored for a pool, its 112-bit reserves are read back, for any
-- timestamp.
pub read_v2_reserves-update_slot :
    (remote : Remote) (db : BlockStateDb) (pool : Address) (reserve0 reserve1 timestamp : ℕ)
    → reserve0 < 2 ^ 112
    → reserve1 < 2 ^ 112
    → read_v2_reserves
        (update_slot remote db pool v2_reserves_slot (pack_reserves reserve0 reserve1 timestamp))
        pool
      ≡ some (reserve0, reserve1)
unfolding read_v2_reserves
read_v2_reserves-update_slot remote db pool reserve0 reserve1 timestamp h0 h1 = ground (
  arith,
  stored-update_slot remote db pool pool v2_reserves_slot v2_reserves_slot
      (pack_reserves reserve0 reserve1 timestamp),
)

-- Reserves that are read are 112-bit numbers, whatever the word.
pub read_v2_reserves_bounds :
    (db : BlockStateDb) (pool : Address) {r0 r1 : ℕ}
    → read_v2_reserves db pool ≡ some (r0, r1)
    → (r0 < 2 ^ 112) × (r1 < 2 ^ 112)
unfolding read_v2_reserves
read_v2_reserves_bounds db pool h = elim (Option-cases (stored db pool v2_reserves_slot)) [
  | inl missing ↦ ground arith
  | inr (packed, loaded) ↦ ground arith
]

-- The 24 bits of a tick, in two's complement.
abbrev pub bits24 : ℤ → ℕ
bits24 (pos n) = n
bits24 (negsuc n) = 2 ^ 24 - (n + 1)

-- slot0 of a concentrated-liquidity pool: a 160-bit price, a 24-bit tick and the fields above.
abbrev pub pack_slot0 : ℕ → ℤ → ℕ → ℕ
pack_slot0 price tick rest = price + bits24 tick * 2 ^ 160 + rest * 2 ^ 184

sign_extend-bits24 :
    (tick : ℤ)
    → negsuc (2 ^ 23 - 1) ≤ℤ tick
    → tick ≤ℤ pos (2 ^ 23 - 1)
    → sign_extend (bits24 tick) ≡ tick
unfolding sign_extend
sign_extend-bits24 (pos n) lo hi = ground arith
sign_extend-bits24 (negsuc n) lo hi = ground arith

bits24-lt : (tick : ℤ) → tick ≤ℤ pos (2 ^ 23 - 1) → bits24 tick < 2 ^ 24
bits24-lt (pos n) hi = omega arith
bits24-lt (negsuc n) hi = omega arith

field_160 :
    (price b rest : ℕ)
    → price < 2 ^ 160
    → b < 2 ^ 24
    → (price + b * 2 ^ 160 + rest * 2 ^ 184) / 2 ^ 160 % 2 ^ 24 ≡ b
field_160 price b rest hp hb = omega arith

-- When the slot0 word of a concentrated-liquidity pool is stored, its 160-bit price and its tick are
-- read back, for every tick of 24 bits, negative ones included, and any other packed fields.
pub read_v3_slot0-update_slot :
    (remote : Remote) (db : BlockStateDb) (pool : Address) (price : ℕ) (tick : ℤ) (rest : ℕ)
    → price < 2 ^ 160
    → negsuc (2 ^ 23 - 1) ≤ℤ tick
    → tick ≤ℤ pos (2 ^ 23 - 1)
    → read_v3_slot0 (update_slot remote db pool v3_slot0 (pack_slot0 price tick rest)) pool
      ≡ some (price, tick)
unfolding read_v3_slot0
read_v3_slot0-update_slot remote db pool price tick rest hp lo hi =
    let b = bits24 tick in
    let bound : b < 2 ^ 24 = bits24-lt tick hi in
    let low : pack_slot0 price tick rest % 2 ^ 160 ≡ price = omega arith in
    ground (
      arith,
      stored-update_slot remote db pool pool v3_slot0 v3_slot0 (pack_slot0 price tick rest),
      low,
      field_160 price b rest hp bound,
      sign_extend-bits24 tick lo hi,
    )
