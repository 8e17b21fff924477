-- ===== src/Word.antt =====
-- Machine integers as native numbers, in the release build of the bot: `u64` and `u128`, and the
-- 256-bit integers of the chain, whose `+`, `-` and `*` wrap around.
use arb_bot.Prelude.{
  ℕ, ◌+◌, ◌-◌, ◌*◌, ◌%◌, ◌^◌, ◌≤◌, ◌<◌, ◌≡◌, Option, none, some, arith, ltb, if◌then◌else◌,
}
use native.Mathlib.Nat.{mul-le-mul, mod-eq_of_lt}

abbrev pub u64_mod : ℕ
u64_mod = 2 ^ 64

abbrev pub u128_mod : ℕ
u128_mod = 2 ^ 128

abbrev pub u256_mod : ℕ
u256_mod = 2 ^ 256

abbrev pub u256_max : ℕ
u256_max = 2 ^ 256 - 1

unfoldable pub add256 : ℕ → ℕ → ℕ
add256 a b = (a + b) % u256_mod

unfoldable pub sub256 : ℕ → ℕ → ℕ
sub256 a b = (a + u256_mod - b) % u256_mod

unfoldable pub mul256 : ℕ → ℕ → ℕ
mul256 a b = (a * b) % u256_mod

unfoldable pub checked_mul : ℕ → ℕ → Option ℕ
checked_mul a b = if ltb (a * b) u256_mod then some (a * b) else none

unfoldable pub saturating_add256 : ℕ → ℕ → ℕ
saturating_add256 a b = if ltb (a + b) u256_mod then a + b else u256_max

unfoldable pub saturating_mul256 : ℕ → ℕ → ℕ
saturating_mul256 a b = if ltb (a * b) u256_mod then a * b else u256_max

unfoldable pub add64 : ℕ → ℕ → ℕ
add64 a b = (a + b) % u64_mod

unfoldable pub saturating_add64 : ℕ → ℕ → ℕ
saturating_add64 a b = if ltb (a + b) u64_mod then a + b else u64_mod - 1

unfoldable pub saturating_mul64 : ℕ → ℕ → ℕ
saturating_mul64 a b = if ltb (a * b) u64_mod then a * b else u64_mod - 1

-- Below the modulus the wrapping operations are those of the numbers.
pub add256_exact : (a b : ℕ) → a + b < u256_mod → add256 a b ≡ a + b
unfolding add256
add256_exact a b h = omega arith

pub add64_exact : (a b : ℕ) → a + b < u64_mod → add64 a b ≡ a + b
unfolding add64
add64_exact a b h = omega arith

pub sub256_exact : (a b : ℕ) → a < u256_mod → b ≤ a → sub256 a b ≡ a - b
unfolding sub256
sub256_exact a b h k = omega arith

pub mul256_exact : (a b : ℕ) → a * b < u256_mod → mul256 a b ≡ a * b
unfolding mul256
mul256_exact a b h = mod-eq_of_lt h

pub mul256-lt : (a b : ℕ) → mul256 a b < u256_mod
unfolding mul256
mul256-lt a b = omega arith

pub checked_mul_exact : (a b : ℕ) → a * b < u256_mod → checked_mul a b ≡ some (a * b)
unfolding checked_mul
checked_mul_exact a b h = ground arith

-- A product of bounded factors is bounded.
pub mul-lt-bound : (a b m n : ℕ) → a ≤ m → b ≤ n → m * n < u256_mod → a * b < u256_mod
mul-lt-bound a b m n h k l = omega (arith, mul-le-mul h k)

-- A saturating sum lies between its first term and the sum.
pub saturating_add64_bounds :
    (a b : ℕ) → a < u64_mod → (a ≤ saturating_add64 a b) × (saturating_add64 a b ≤ a + b)
unfolding saturating_add64
saturating_add64_bounds a b h = ground arith
