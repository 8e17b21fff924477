-- ===== src/Calculation/V3/Swap.antt =====
-- `get_amount_out_v3` of src/calculation/v3.rs: the walk over the ticks until the input is used up.
use arb_bot.Prelude.{
  ℕ, zero, suc, ◌+◌, ◌-◌, ◌*◌, ◌/◌, ◌^◌, Bool, ◌&&◌, not, Option, none, some, ◌==◌, ltb,
  if◌then◌else◌, List,
}
use arb_bot.Prelude.Int.{ℤ, pos, negsuc, ◌+ℤ◌, ◌-ℤ◌, ltb_ℤ}
use arb_bot.Word.{u256_mod, mul256}
use arb_bot.Swap.Path.{Address}
use arb_bot.StateDb.Store.{BlockStateDb}
use arb_bot.StateDb.Read.{read_v3_slot0, read_v3_liquidity, read_v3_tick}
use arb_bot.Prelude.Fallible.{Fallible, found, missing, panic, ◌>>=◌, need}
use arb_bot.Calculation.V3.Bitmap.{is_zero_ℤ, find_next_initialized_tick}

-- What one step of a swap moves.
pub record StepAmounts : Type 0 where
  pub sqrt_price : ℕ
  pub amount_in : ℕ
  pub amount_out : ℕ
  pub fee_amount : ℕ

-- The functions of uniswap_v3_math; `none` is an error.
pub record V3Math : Type 0 where
  pub get_sqrt_ratio_at_tick : ℤ → Option ℕ
  pub get_tick_at_sqrt_ratio : ℕ → Option ℤ
  pub compute_swap_step : ℕ → ℕ → ℕ → ℤ → ℕ → Option StepAmounts

abbrev pub min_sqrt_ratio : ℕ
min_sqrt_ratio = 4295128739

abbrev pub max_sqrt_ratio : ℕ
max_sqrt_ratio = 6743328256752651558 + 17280870778742802505 * 2 ^ 64 + 4294805859 * 2 ^ 128

abbrev pub max_tick_iterations : ℕ
max_tick_iterations = 500

pub record Walk : Type 0 where
  pub sqrt_price : ℕ
  pub liq : ℕ
  pub amount_remaining : ℤ
  pub amount_calculated : ℕ
  pub tick : ℤ

-- `clamp(-887272, 887272)`
abbrev pub clamp_tick : ℤ → ℤ
clamp_tick t =
    if ltb_ℤ t (negsuc 887271)
    then negsuc 887271
    else if ltb_ℤ (pos 887272) t
    then pos 887272
    else t

-- `I256::try_from`
abbrev pub to_i256 : ℕ → Option ℤ
to_i256 v = if ltb v (2 ^ 255) then some (pos v) else none

-- `I256::checked_sub` of a number that is not negative
checked_sub_i256 : ℤ → ℤ → Option ℤ
unfolding ◌-ℤ◌
checked_sub_i256 a b = let d = a -ℤ b in if ltb_ℤ d (negsuc (2 ^ 255 - 1)) then none else some d

checked_add_u256 : ℕ → ℕ → Option ℕ
checked_add_u256 a b = if ltb (a + b) u256_mod then some (a + b) else none

-- `v as i128`, and an integer that fits in 128 bits `as u128`
as_i128 : ℕ → ℤ
as_i128 v = if ltb v (2 ^ 127) then pos v else negsuc (2 ^ 128 - v - 1)

as_u128 : ℤ → ℕ
as_u128 (pos n) = n
as_u128 (negsuc n) = 2 ^ 128 - n - 1

checked_i128 : ℤ → Option ℤ
checked_i128 d =
    if ltb_ℤ d (negsuc (2 ^ 127 - 1))
    then none
    else if ltb_ℤ (pos (2 ^ 127 - 1)) d
    then none
    else some d

-- The liquidity after a tick is crossed.
unfoldable pub cross : ℕ → ℤ → Bool → Option ℕ
unfolding as_i128 as_u128 checked_i128 ◌+ℤ◌ ◌-ℤ◌
cross liq net zero_for_one =
    let moved = if zero_for_one then as_i128 liq -ℤ net else as_i128 liq +ℤ net in
    elim (checked_i128 moved) [ none ↦ none | some v ↦ some (as_u128 v) ]

module _ (keccak256 : List ℕ → ℕ) (math : V3Math) where
  -- the liquidity where the step ended at the next tick
  next_liquidity : BlockStateDb → Address → ℤ → Bool → Bool → ℕ → Fallible ℕ
  unfolding cross
  next_liquidity db pool next_tick initialized zero_for_one liq =
      if initialized
      then (do
        (_, liquidity_net) ← need (read_v3_tick keccak256 db pool next_tick)
        need (cross liq liquidity_net zero_for_one))
      else found liq

  -- the end of the loop's body: the tick and the liquidity of the next round
  finish_step : BlockStateDb → Address → Bool → ℤ → Bool → ℕ → Walk → Fallible Walk
  unfolding next_liquidity ◌-ℤ◌
  finish_step db pool zero_for_one next_tick initialized sqrt_price_next w =
      if w.sqrt_price == sqrt_price_next
      then (do
        liq ← next_liquidity db pool next_tick initialized zero_for_one w.liq
        found
            (record w { liq = liq; tick = if zero_for_one then next_tick -ℤ pos 1 else next_tick }))
      else (do
        tick ← need (math.get_tick_at_sqrt_ratio w.sqrt_price)
        found (record w { tick = tick }))

  -- `sqrt_ratio_target`: the price at the next tick, within the limit of the direction
  abbrev pub price_target : Bool → ℕ → ℕ
  price_target zero_for_one sqrt_price_next =
      if zero_for_one
      then (if ltb sqrt_price_next (min_sqrt_ratio + 1)
          then min_sqrt_ratio + 1
          else sqrt_price_next)
      else (if ltb (max_sqrt_ratio - 1) sqrt_price_next
          then max_sqrt_ratio - 1
          else sqrt_price_next)

  unfoldable pub swap_step : BlockStateDb → Address → ℕ → ℤ → Bool → Walk → Fallible Walk
  unfolding checked_sub_i256 checked_add_u256 finish_step
  swap_step db pool fee tick_spacing zero_for_one w = do
    (next, initialized) ←
        find_next_initialized_tick keccak256 db pool w.tick tick_spacing zero_for_one
    let next_tick = clamp_tick next
    sqrt_price_next ← need (math.get_sqrt_ratio_at_tick next_tick)
    amounts ← need (
        math.compute_swap_step w.sqrt_price (price_target zero_for_one sqrt_price_next) w.liq
          w.amount_remaining fee)
    step_cost_u ← need (checked_add_u256 amounts.amount_in amounts.fee_amount)
    step_cost ← need (to_i256 step_cost_u)
    amount_remaining ← need (checked_sub_i256 w.amount_remaining step_cost)
    amount_calculated ← need (checked_add_u256 w.amount_calculated amounts.amount_out)
    finish_step db pool zero_for_one next_tick initialized sqrt_price_next (record w {
      sqrt_price = amounts.sqrt_price;
      amount_remaining = amount_remaining;
      amount_calculated = amount_calculated;
    })

  -- The test of the loop, but for the count of rounds.
  abbrev pub continues : Walk → Bool
  continues w = not (is_zero_ℤ w.amount_remaining) && ltb 0 w.liq

  -- `rounds` is what `iterations` leaves of `MAX_TICK_ITERATIONS`.
  unfoldable pub swap_loop : BlockStateDb → Address → ℕ → ℤ → Bool → ℕ → Walk → Fallible ℕ
  swap_loop db pool fee tick_spacing zero_for_one zero w = found w.amount_calculated
  swap_loop db pool fee tick_spacing zero_for_one (suc rounds) w =
      let rest = swap_step db pool fee tick_spacing zero_for_one w >>= λ w'.
      swap_loop db pool fee tick_spacing zero_for_one rounds w' in
      if continues w then rest else found w.amount_calculated

  unfoldable pub get_amount_out_v3 : BlockStateDb → Address → ℕ → Bool → ℕ → ℤ → Fallible ℕ
  unfolding swap_loop
  get_amount_out_v3 db pool amount_in zero_for_one fee tick_spacing =
      if amount_in == 0 then found 0 else (do
        (sqrt_price_x96, current_tick) ← need (read_v3_slot0 db pool)
        if sqrt_price_x96 == 0 then missing else (do
          liquidity ← need (read_v3_liquidity db pool)
          amount_remaining ← need (to_i256 amount_in)
          swap_loop db pool fee tick_spacing zero_for_one max_tick_iterations (record {
            sqrt_price = sqrt_price_x96;
            liq = liquidity;
            amount_remaining = amount_remaining;
            amount_calculated = 0;
            tick = current_tick;
          })))

  -- `unwrap_or(U256::ZERO)`; a panic stays one, which is `none`
  unfoldable pub v3_rate_1e18 : BlockStateDb → Address → ℕ → Bool → ℕ → ℤ → Option ℕ
  v3_rate_1e18 db pool amount_in zero_for_one fee tick_spacing =
      elim (get_amount_out_v3 db pool amount_in zero_for_one fee tick_spacing) [
        | panic ↦ none
        | missing ↦ some 0
        | found amount_out ↦ some (
            if amount_in == 0
            then 0
            else if amount_out == 0
            then 0
            else mul256 amount_out 1_000_000_000_000_000_000 / amount_in)
      ]
