-- ===== src/Calculation/Aerodrome.antt =====
-- src/calculation/aerodrome.rs: volatile and stable pools, over wrapping 256-bit integers.
pub mod Bounds
use arb_bot.Prelude.{
  ℕ, zero, suc, ◌+◌, ◌-◌, ◌*◌, ◌/◌, ◌%◌, ◌^◌, Bool, ◌||◌, ltb, leb, ◌==◌, if◌then◌else◌, Option,
  some, checked_div, ◌>>=◌,
}
use arb_bot.Word.{u64_mod, u256_mod, add256, sub256, mul256, saturating_add256}

abbrev pub one_e18 : ℕ
one_e18 = 1_000_000_000_000_000_000

-- `U256::from(10).pow(decimals)`
unfoldable pub pow10 : ℕ → ℕ
pow10 decimals = 10 ^ decimals % u256_mod

-- `none` is the panic of the division where the sum of reserve and input wraps to zero.
unfoldable pub get_amount_out_volatile : ℕ → ℕ → ℕ → Bool → Option ℕ
get_amount_out_volatile amount_in reserve0 reserve1 zero_for_one =
    let reserve_in = if zero_for_one then reserve0 else reserve1 in
    let reserve_out = if zero_for_one then reserve1 else reserve0 in
    if reserve_in == 0
    then some 0
    else checked_div (mul256 amount_in reserve_out) (add256 reserve_in amount_in)

unfoldable pub k_stable : ℕ → ℕ → ℕ → ℕ → ℕ
k_stable x y dec0 dec1 =
    if dec0 == 0 || dec1 == 0
    then 0
    else let x' = mul256 x one_e18 / dec0 in
      let y' = mul256 y one_e18 / dec1 in
      let a = mul256 x' y' / one_e18 in
      let b = add256 (mul256 x' x' / one_e18) (mul256 y' y' / one_e18) in mul256 a b / one_e18

unfoldable pub f_stable : ℕ → ℕ → ℕ
f_stable x0 y =
    let a = mul256 x0 y / one_e18 in
    let b = add256 (mul256 x0 x0 / one_e18) (mul256 y y / one_e18) in mul256 a b / one_e18

unfoldable pub d_stable : ℕ → ℕ → ℕ
d_stable x0 y =
    let y2 = mul256 y y / one_e18 in
    let x0_3 = mul256 (mul256 x0 x0 / one_e18) x0 / one_e18 in
    add256 (mul256 (mul256 3 x0) y2 / one_e18) x0_3

-- The `for _ in 0..255` loop. A difference of the code is taken where its first term is the larger.
unfoldable pub newton_y : ℕ → ℕ → ℕ → ℕ → ℕ
newton_y zero x0 xy y = 0
newton_y (suc rounds) x0 xy y =
    let k = f_stable x0 y in
    let d = d_stable x0 y in
    let up = mul256 (xy - k) one_e18 / d in
    let down = mul256 (k - xy) one_e18 / d in
    let higher = newton_y rounds x0 xy (saturating_add256 y (if up == 0 then 1 else up)) in
    let lower = newton_y rounds x0 xy (y - (if down == 0 then 1 else down)) in
    if d == 0
    then 0
    else if ltb k xy
    then higher
    else if down == 0
    then (if k == xy || ltb (f_stable x0 (y - 1)) xy then y else lower)
    else lower

unfoldable pub get_y_stable : ℕ → ℕ → ℕ → ℕ
unfolding newton_y
get_y_stable x0 xy y = newton_y 255 x0 xy y

-- An amount in the 18-decimal scale.
abbrev pub normalise : ℕ → ℕ → ℕ
normalise amount dec = if dec == 0 then 0 else mul256 amount one_e18 / dec

unfoldable pub get_amount_out_stable : ℕ → ℕ → ℕ → ℕ → ℕ → Bool → ℕ
get_amount_out_stable amount_in reserve0 reserve1 dec0 dec1 zero_for_one =
    let xy = k_stable reserve0 reserve1 dec0 dec1 in
    let r0_norm = normalise reserve0 dec0 in
    let r1_norm = normalise reserve1 dec1 in
    let amount_in_norm =
      if zero_for_one then normalise amount_in dec0 else normalise amount_in dec1 in
    let reserve_a_norm = if zero_for_one then r0_norm else r1_norm in
    let reserve_b_norm = if zero_for_one then r1_norm else r0_norm in
    let dec_out = if zero_for_one then dec1 else dec0 in
    let y = get_y_stable (add256 reserve_a_norm amount_in_norm) xy reserve_b_norm in
    if leb reserve_b_norm y then 0 else mul256 (reserve_b_norm - y) dec_out / one_e18

-- `10_000u64 - fee_bps` wraps around where the fee is above 10000 basis points.
abbrev pub fee_numerator : ℕ → ℕ
fee_numerator fee_bps = (10_000 + u64_mod - fee_bps) % u64_mod

unfoldable pub get_amount_out_aerodrome : ℕ → ℕ → ℕ → ℕ → ℕ → Bool → ℕ → Bool → Option ℕ
unfolding get_amount_out_stable get_amount_out_volatile
get_amount_out_aerodrome amount_in reserve0 reserve1 token0_decimals token1_decimals stable fee_bps
      zero_for_one =
    if amount_in == 0 || reserve0 == 0 || reserve1 == 0
    then some 0
    else let amount_in_after_fee = mul256 amount_in (fee_numerator fee_bps) / 10_000 in
      if stable
      then some (
          get_amount_out_stable amount_in_after_fee reserve0 reserve1 (pow10 token0_decimals)
            (pow10 token1_decimals) zero_for_one)
      else get_amount_out_volatile amount_in_after_fee reserve0 reserve1 zero_for_one

unfoldable pub aerodrome_rate_1e18 : ℕ → ℕ → ℕ → ℕ → ℕ → Bool → ℕ → Bool → Option ℕ
aerodrome_rate_1e18 reference_amount reserve0 reserve1 token0_decimals token1_decimals stable
      fee_bps zero_for_one =
    do
      out ←
          get_amount_out_aerodrome reference_amount reserve0 reserve1 token0_decimals
            token1_decimals stable fee_bps zero_for_one
      some (if reference_amount == 0 then 0 else mul256 out one_e18 / reference_amount)
