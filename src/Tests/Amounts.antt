-- ===== src/Tests/Amounts.antt =====
-- The arithmetic of src/calculation/ and src/gas_station.rs on concrete inputs.
use arb_bot.Prelude.{ℕ, ◌+◌, ◌-◌, ◌*◌, ◌/◌, ◌^◌, ◌≤◌, ◌<◌, max, ◌≡◌, refl, arith, false, true, some}
use arb_bot.Word.{add256, sub256, mul256, saturating_add64}
use arb_bot.Calculation.V2.{get_amount_out_v2, get_amount_in_v2, isqrt, newton, done}
use arb_bot.Calculation.V2.Isqrt.{isqrt-IsRoot}
use arb_bot.Calculation.V2.Product.{get_amount_out_v2_invariant}
use arb_bot.Calculation.V2.RoundTrip.{get_amount_out_v2_mono, get_amount_out_v2-get_amount_in_v2}
use arb_bot.Calculation.Aerodrome.{
  get_amount_out_aerodrome, get_amount_out_stable, get_y_stable, newton_y, f_stable, d_stable,
  k_stable, pow10,
}
use arb_bot.Calculation.Aerodrome.Bounds.{get_amount_out_aerodrome_bounds}
use arb_bot.Gas.{GasStation, calc_next_base_fee, calc_priority_fee}
use arb_bot.Gas.Bounds.{
  calc_next_base_fee_bounds, calc_next_base_fee_direction, calc_priority_fee_bounds,
}

program : Unit {0}
unfolding get_amount_out_v2 get_amount_in_v2 isqrt newton add256 sub256 mul256 saturating_add64
    calc_next_base_fee calc_priority_fee get_amount_out_aerodrome get_amount_out_stable get_y_stable
    newton_y f_stable d_stable k_stable pow10
program = tt

sells : get_amount_out_v2 1000 100000 300000 9970 ≡ 2961
unfolding program
sells = refl

asks : get_amount_in_v2 2961 100000 300000 9970 ≡ 1000
unfolding program
asks = refl

roots : (isqrt 0 ≡ done 0) × (isqrt 99 ≡ done 9) × (isqrt 100 ≡ done 10)
unfolding program
roots = (refl, refl, refl)

get_amount_out_v2_invariant_example :
    (get_amount_out_v2 1000 100000 300000 9970 ≤ 300000)
    × (0 < 300000 → get_amount_out_v2 1000 100000 300000 9970 < 300000)
    × (100000 * 10_000 * 300000
        ≤ (100000 * 10_000 + 1000 * 9970) * (300000 - get_amount_out_v2 1000 100000 300000 9970))
get_amount_out_v2_invariant_example =
    get_amount_out_v2_invariant 1000 100000 300000 9970 (omega arith) (omega arith) (omega arith)
      (omega arith) (omega arith)

get_amount_out_v2_mono_example :
    get_amount_out_v2 1000 100000 300000 9970 ≤ get_amount_out_v2 2000 100000 300000 9970
get_amount_out_v2_mono_example =
    get_amount_out_v2_mono 1000 2000 100000 300000 9970 (omega arith) (omega arith) (omega arith)
      (omega arith) (omega arith) (omega arith)

get_amount_out_v2-get_amount_in_v2_example :
    2961 ≤ get_amount_out_v2 (get_amount_in_v2 2961 100000 300000 9970) 100000 300000 9970
get_amount_out_v2-get_amount_in_v2_example =
    get_amount_out_v2-get_amount_in_v2 2961 100000 300000 9970 (omega arith) (omega arith)
      (omega arith) (omega arith) (omega arith) (omega arith) (omega arith) (rw asks (omega arith))

isqrt-IsRoot_example : (r : ℕ) × (isqrt 99 ≡ done r) × (r * r ≤ 99) × (99 < (r + 1) * (r + 1))
isqrt-IsRoot_example = isqrt-IsRoot 99 (omega arith)

get_amount_out_aerodrome_bounds_example :
    (out : ℕ) × (get_amount_out_aerodrome 1000 100000 300000 18 18 false 30 true ≡ some out)
    × (out ≤ 300000)
    × (false ≡ false → 100000 * 300000 ≤ (100000 + 997) * (300000 - out))
get_amount_out_aerodrome_bounds_example =
    get_amount_out_aerodrome_bounds 1000 100000 300000 18 18 false 30 true (omega arith)
      (omega arith) (omega arith) (omega arith)

-- The derivative of a nearly empty stable pool is rounded to zero: the quote is all that it has.
whole_reserve : get_amount_out_aerodrome 10 500 400 18 18 true 5 true ≡ some 400
unfolding program
whole_reserve = refl

calc_next_base_fee_bounds_example :
    (r : ℕ) × (calc_next_base_fee 1000 30_000_000 30_000_000 2 8 100 ≡ some r)
    × (100 ≤ r)
    × (r ≤ max 100 (1000 + max (1000 * (2 - 1) / 8) 1))
    × (1000 - 1000 / 8 ≤ r)
calc_next_base_fee_bounds_example =
    calc_next_base_fee_bounds 1000 30_000_000 30_000_000 2 8 100 (omega arith) (omega arith)
      (omega arith) (omega arith) (omega arith) refl

full_block : calc_next_base_fee 1000 30_000_000 30_000_000 2 8 100 ≡ some 1125
unfolding program
full_block = refl

calc_next_base_fee_direction_example :
    (30_000_000 / 2 < 30_000_000 → 1000 < 1125)
    × (30_000_000 ≤ 30_000_000 / 2 → 1125 ≤ max 1000 100)
    × (30_000_000 ≡ 30_000_000 / 2 → 1125 ≡ max 1000 100)
calc_next_base_fee_direction_example =
    calc_next_base_fee_direction 1000 30_000_000 30_000_000 2 8 100 1125 (omega arith) (omega arith)
      full_block

abbrev station : GasStation
station = record {
  base_fee = 1000;
  last_gas_used = 20_000_000;
  last_gas_limit = 30_000_000;
  elasticity_multiplier = 2;
  base_fee_change_denominator = 8;
  min_base_fee_wei = 100;
  priority_fee_cap_wei = 5_000_000_000;
}

calc_priority_fee_bounds_example :
    (calc_priority_fee station 1_000_000_000_000_000 300_000 5000 ≤ 5_000_000_000)
    × (calc_priority_fee station 1_000_000_000_000_000 300_000 5000 * 300_000 * 10_000
        ≤ 1_000_000_000_000_000 * 5000)
calc_priority_fee_bounds_example =
    calc_priority_fee_bounds station 1_000_000_000_000_000 300_000 5000

-- A balanced stable pool trades at a rate of almost one.
solved :
    get_amount_out_aerodrome (10 ^ 18) (10 ^ 24) (10 ^ 24) 18 18 true 0 true
    ≡ some 999_999_999_999_999_999
unfolding program
solved = refl
