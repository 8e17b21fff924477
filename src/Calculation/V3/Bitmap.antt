-- ===== src/Calculation/V3/Bitmap.antt =====
-- The search for the next initialized tick in src/calculation/v3.rs. The 32-bit and 16-bit integers
-- wrap around, and a division by a tick spacing of zero panics.
use arb_bot.Prelude.{
  ℕ, zero, suc, ◌+◌, ◌-◌, ◌*◌, ◌/◌, ◌%◌, ◌^◌, Bool, true, false, ◌&&◌, not, ◌==◌, ltb,
  if◌then◌else◌, List, unwrap_or,
}
use arb_bot.Prelude.Int.{ℤ, pos, negsuc, ◌+ℤ◌, ◌-ℤ◌, ◌*ℤ◌, ltb_ℤ}
use arb_bot.Prelude.Fallible.{Fallible, found, panic}
use arb_bot.Swap.Path.{Address}
use arb_bot.StateDb.Store.{BlockStateDb}
use arb_bot.StateDb.Read.{read_v3_tick_bitmap}

-- The value modulo 2^w of an integer, and the signed integer of such bits, at w = 32 and 16.
abbrev pub wrap32 : ℤ → ℤ
wrap32 v =
    let bits : ℕ = elim v [ pos n ↦ n % 2 ^ 32 | negsuc n ↦ 2 ^ 32 - 1 - n % 2 ^ 32 ] in
    if ltb bits (2 ^ 31) then pos bits else negsuc (2 ^ 32 - 1 - bits)

abbrev pub wrap16 : ℤ → ℤ
wrap16 v =
    let bits : ℕ = elim v [ pos n ↦ n % 2 ^ 16 | negsuc n ↦ 2 ^ 16 - 1 - n % 2 ^ 16 ] in
    if ltb bits (2 ^ 15) then pos bits else negsuc (2 ^ 16 - 1 - bits)

-- Rust's division, which rounds towards zero, and its remainder, with the sign of the dividend.
neg : ℕ → ℤ
neg zero = pos 0
neg (suc n) = negsuc n

unfoldable pub tdiv : ℤ → ℤ → ℤ
unfolding neg
tdiv (pos a) (pos b) = pos (a / b)
tdiv (pos a) (negsuc b) = neg (a / (b + 1))
tdiv (negsuc a) (pos b) = neg ((a + 1) / b)
tdiv (negsuc a) (negsuc b) = pos ((a + 1) / (b + 1))

unfoldable pub trem : ℤ → ℤ → ℤ
unfolding neg
trem (pos a) (pos b) = pos (a % b)
trem (pos a) (negsuc b) = pos (a % (b + 1))
trem (negsuc a) (pos b) = neg ((a + 1) % b)
trem (negsuc a) (negsuc b) = neg ((a + 1) % (b + 1))

-- `v >> 8`, which rounds down.
unfoldable pub shift_8 : ℤ → ℤ
shift_8 (pos n) = pos (n / 256)
shift_8 (negsuc n) = negsuc (n / 256)

-- `((v % 256 + 256) % 256) as u8`
unfoldable pub low_byte : ℤ → ℕ
low_byte (pos n) = n % 256
low_byte (negsuc n) = 255 - n % 256

abbrev pub is_zero_ℤ : ℤ → Bool
is_zero_ℤ (pos n) = n == 0
is_zero_ℤ (negsuc n) = false

-- `U256::bit_len` and `U256::trailing_zeros`, on a word of at most `fuel` bits
unfoldable pub bit_len : ℕ → ℕ → ℕ
bit_len zero x = 0
bit_len (suc fuel) x = let rest = bit_len fuel (x / 2) in if x == 0 then 0 else rest + 1

unfoldable pub trailing_zeros : ℕ → ℕ → ℕ
trailing_zeros zero x = 0
trailing_zeros (suc fuel) x =
    let rest = trailing_zeros fuel (x / 2) in if x % 2 == 1 then 0 else rest + 1

unfoldable pub most_significant_bit_u256 : ℕ → ℕ
unfolding bit_len
most_significant_bit_u256 x = bit_len 256 x - 1

unfoldable pub least_significant_bit_u256 : ℕ → ℕ
unfolding trailing_zeros
least_significant_bit_u256 x = trailing_zeros 256 x

-- The index of the tick among the multiples of the spacing, rounded down.
unfoldable pub compress : ℤ → ℤ → ℤ
unfolding tdiv trem
compress tick spacing =
    if ltb_ℤ tick (pos 0) && not (is_zero_ℤ (trem tick spacing))
    then wrap32 (tdiv tick spacing -ℤ pos 1)
    else tdiv tick spacing

-- `masked` of the two directions: the bits at and below `bit_pos`, and those at and above it.
abbrev pub mask_below : ℕ → ℕ → ℕ
mask_below bitmap bit_pos = bitmap % 2 ^ (bit_pos + 1)

abbrev pub mask_above : ℕ → ℕ → ℕ
mask_above bitmap bit_pos = bitmap / 2 ^ bit_pos * 2 ^ bit_pos

module _ (keccak256 : List ℕ → ℕ) where
  unfoldable pub search_left : BlockStateDb → Address → ℤ → ℤ → ℤ × Bool
  unfolding shift_8 low_byte most_significant_bit_u256 ◌+ℤ◌ ◌*ℤ◌
  search_left db pool compressed spacing =
      let word_pos = wrap16 (shift_8 compressed) in
      let bit_pos = low_byte compressed in
      let bitmap = unwrap_or (read_v3_tick_bitmap keccak256 db pool word_pos) 0 in
      let masked = mask_below bitmap bit_pos in
      if masked == 0 then (wrap32 (word_pos *ℤ pos 256 *ℤ spacing), false) else (
        wrap32 ((word_pos *ℤ pos 256 +ℤ pos (most_significant_bit_u256 masked)) *ℤ spacing),
        true,
      )

  unfoldable pub search_right : BlockStateDb → Address → ℤ → ℤ → ℤ × Bool
  unfolding shift_8 low_byte least_significant_bit_u256 ◌+ℤ◌ ◌-ℤ◌ ◌*ℤ◌
  search_right db pool compressed spacing =
      let next = wrap32 (compressed +ℤ pos 1) in
      let word_pos = wrap16 (shift_8 next) in
      let bit_pos = low_byte next in
      let bitmap = unwrap_or (read_v3_tick_bitmap keccak256 db pool word_pos) 0 in
      let masked = mask_above bitmap bit_pos in
      if masked == 0
      then (wrap32 (((word_pos +ℤ pos 1) *ℤ pos 256 -ℤ pos 1) *ℤ spacing), false)
      else (
        wrap32 ((word_pos *ℤ pos 256 +ℤ pos (least_significant_bit_u256 masked)) *ℤ spacing),
        true,
      )

  unfoldable pub find_next_initialized_tick :
      BlockStateDb → Address → ℤ → ℤ → Bool → Fallible (ℤ × Bool)
  unfolding compress search_left search_right
  find_next_initialized_tick db pool tick spacing zero_for_one =
      if is_zero_ℤ spacing
      then panic
      else let compressed = compress tick spacing in
        found (
          if zero_for_one
          then search_left db pool compressed spacing
          else search_right db pool compressed spacing)
