-- ===== src/StateDb/Slots.antt =====
-- The storage layout of src/state_db.rs: where a pool keeps its reserves, its price, its ticks and
-- its tick bitmap. The hash of the chain is a parameter over lists of bytes.
use arb_bot.Prelude.{ℕ, zero, suc, ◌+◌, ◌-◌, ◌*◌, ◌/◌, ◌%◌, ◌^◌, List, [], ◌∷◌, ◌++◌}
use arb_bot.Prelude.Int.{ℤ, pos, negsuc}

abbrev pub v2_reserves_slot : ℕ
v2_reserves_slot = 8

abbrev pub v2_token0_slot : ℕ
v2_token0_slot = 6

abbrev pub v2_token1_slot : ℕ
v2_token1_slot = 7

abbrev pub v3_slot0 : ℕ
v3_slot0 = 0

abbrev pub v3_slot0_overflow : ℕ
v3_slot0_overflow = 1

abbrev pub v3_liquidity_slot : ℕ
v3_liquidity_slot = 4

abbrev pub v3_liquidity_slot_pancake : ℕ
v3_liquidity_slot_pancake = 5

-- `n` copies of a byte
abbrev pub fill : ℕ → ℕ → List ℕ
fill zero b = []
fill (suc n) b = b ∷ fill n b

-- `to_be_bytes` of an integer of `n` bytes: the most significant byte first
unfoldable pub be_bytes : ℕ → ℕ → List ℕ
be_bytes zero v = []
be_bytes (suc n) v = be_bytes n (v / 256) ++ v % 256 ∷ []

-- `U256::from_be_bytes`
unfoldable pub from_be_bytes : ℕ → List ℕ → ℕ
from_be_bytes acc [] = acc
from_be_bytes acc (b ∷ bs) = from_be_bytes (acc * 256 + b) bs

-- The bits of an `i32`.
abbrev pub bits32 : ℤ → ℕ
bits32 (pos n) = n % 2 ^ 32
bits32 (negsuc n) = (2 ^ 32 - (n + 1)) % 2 ^ 32

-- Sign extension to 32 bytes.
unfoldable pub i256_bytes : ℤ → List ℕ
unfolding be_bytes
i256_bytes (pos n) = fill 28 0 ++ be_bytes 4 (bits32 (pos n))
i256_bytes (negsuc n) = fill 28 0xff ++ be_bytes 4 (bits32 (negsuc n))

module _ (keccak256 : List ℕ → ℕ) where
  unfoldable pub v3_tick_slot_base : ℤ → ℕ → ℕ
  v3_tick_slot_base tick base = keccak256 (i256_bytes tick ++ be_bytes 32 base)

  unfoldable pub v3_tick_slot : ℤ → ℕ
  v3_tick_slot tick = v3_tick_slot_base tick 5

  unfoldable pub v3_tick_bitmap_slot_base : ℤ → ℕ → ℕ
  v3_tick_bitmap_slot_base word_pos base = keccak256 (i256_bytes word_pos ++ be_bytes 32 base)

  unfoldable pub v3_tick_bitmap_slot : ℤ → ℕ
  v3_tick_bitmap_slot word_pos = v3_tick_bitmap_slot_base word_pos 6
