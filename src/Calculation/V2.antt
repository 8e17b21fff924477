-- ===== src/Calculation/V2.antt =====
-- src/calculation/v2.rs: constant-product swaps over wrapping 256-bit integers.
pub mod Isqrt
pub mod Product
pub mod RoundTrip
use arb_bot.Prelude.{
  ℕ, zero, suc, ◌+◌, ◌-◌, ◌*◌, ◌/◌, Bool, Option, some, ltb, leb, ◌==◌, ◌||◌, if◌then◌else◌,
  checked_div,
}
use arb_bot.Word.{u256_max, add256, sub256, mul256}

unfoldable pub get_amount_out_v2 : ℕ → ℕ → ℕ → ℕ → ℕ
get_amount_out_v2 amount_in reserve_in reserve_out fee_factor =
    if amount_in == 0 || reserve_in == 0 || reserve_out == 0
    then 0
    else let amount_in_with_fee = mul256 amount_in fee_factor in
      let numerator = mul256 amount_in_with_fee reserve_out in
      let denominator = add256 (mul256 reserve_in 10_000) amount_in_with_fee in
      if denominator == 0 then 0 else numerator / denominator

unfoldable pub get_amount_in_v2 : ℕ → ℕ → ℕ → ℕ → ℕ
get_amount_in_v2 amount_out reserve_in reserve_out fee_factor =
    if amount_out == 0 || reserve_in == 0 || leb reserve_out amount_out
    then u256_max
    else let numerator = mul256 (mul256 reserve_in amount_out) 10_000 in
      let denominator = mul256 (sub256 reserve_out amount_out) fee_factor in
      if denominator == 0 then u256_max else add256 (numerator / denominator) 1

-- 1e18
abbrev pub scale : ℕ
scale = 1_000_000_000_000_000_000

unfoldable pub v2_rate_1e18 : ℕ → ℕ → ℕ → ℕ → ℕ
v2_rate_1e18 amount_in reserve_in reserve_out fee_factor =
    let amount_out = get_amount_out_v2 amount_in reserve_in reserve_out fee_factor in
    if amount_in == 0 then 0 else mul256 amount_out scale / amount_in

-- The divisor wraps: where it comes to zero the division panics, which is `none`.
unfoldable pub v2_marginal_rate_1e18 : ℕ → ℕ → ℕ → Option ℕ
v2_marginal_rate_1e18 reserve_in reserve_out fee_factor =
    if reserve_in == 0
    then some 0
    else checked_div (mul256 (mul256 fee_factor reserve_out) scale) (mul256 reserve_in 10_000)

-- How a loop ends: with a value, by the panic of a division by zero, or not within its fuel.
pub data Outcome : Type 0 where
  done : ℕ → Outcome
  panic out_of_fuel : Outcome

-- The `while y < x` loop. Each round makes `x` smaller, so `x` rounds are enough.
unfoldable pub newton : ℕ → ℕ → ℕ → ℕ → Outcome
newton zero n x y = if ltb y x then out_of_fuel else done x
newton (suc fuel) n x y =
    let next = newton fuel n y (add256 y (n / y) / 2) in
    if ltb y x then (if y == 0 then panic else next) else done x

unfoldable pub isqrt : ℕ → Outcome
unfolding newton
isqrt n = if n == 0 then done 0 else newton n n n (add256 n 1 / 2)

unfoldable pub optimal_v2_input : ℕ → ℕ → ℕ → Outcome
optimal_v2_input reserve_in reserve_out fee_factor =
    let product = mul256 (mul256 reserve_in reserve_out) fee_factor in
    elim (isqrt (product / 10_000)) [
      | done sqrt_prod ↦ done (if ltb reserve_in sqrt_prod then sqrt_prod - reserve_in else 0)
      | panic ↦ panic
      | out_of_fuel ↦ out_of_fuel
    ]
