-- ===== src/Gas.antt =====
-- src/gas_station.rs: the base fee of the next block by EIP-1559, and the bid for priority. The
-- atomics are fields of the state; `none` is the panic of a division by zero.
pub mod Bounds
use arb_bot.Prelude.{
  ℕ, ◌+◌, ◌-◌, ◌*◌, ◌/◌, ◌%◌, max, min, Option, none, some, ltb, ◌==◌, if◌then◌else◌, ◌>>=◌,
  checked_div,
}
use arb_bot.Word.{u64_mod, saturating_add64, saturating_mul64}

-- `GasParamsConfig` of src/config.rs
pub record GasParamsConfig : Type 0 where
  pub eip1559_elasticity_multiplier : ℕ
  pub eip1559_base_fee_change_denominator : ℕ
  pub min_base_fee_wei : ℕ
  pub priority_fee_cap_gwei : ℕ

pub record GasStation : Type 0 where
  pub base_fee : ℕ
  pub last_gas_used : ℕ
  pub last_gas_limit : ℕ
  pub elasticity_multiplier : ℕ
  pub base_fee_change_denominator : ℕ
  pub min_base_fee_wei : ℕ
  pub priority_fee_cap_wei : ℕ

unfoldable pub new : GasParamsConfig → GasStation
new params = record {
  base_fee = params.min_base_fee_wei;
  last_gas_used = 0;
  last_gas_limit = 30_000_000;
  elasticity_multiplier = params.eip1559_elasticity_multiplier;
  base_fee_change_denominator = params.eip1559_base_fee_change_denominator;
  min_base_fee_wei = params.min_base_fee_wei;
  priority_fee_cap_wei = saturating_mul64 params.priority_fee_cap_gwei 1_000_000_000;
}

unfoldable pub update_from_block : GasStation → ℕ → ℕ → ℕ → GasStation
update_from_block s base_fee gas_used gas_limit = record s {
  base_fee = base_fee;
  last_gas_used = gas_used;
  last_gas_limit = gas_limit;
}

-- `(parent_base_fee * gas_used_delta / parent_gas_target / denominator) as u64`, in 128 bits
fee_delta : ℕ → ℕ → ℕ → ℕ → Option ℕ
fee_delta parent_base_fee gas_used_delta parent_gas_target denominator = do
  delta ← checked_div (parent_base_fee * gas_used_delta / parent_gas_target) denominator
  some (delta % u64_mod)

-- `next_fee`, before the floor
next_fee : ℕ → ℕ → ℕ → ℕ → Option ℕ
unfolding fee_delta
next_fee parent_base_fee parent_gas_used parent_gas_target denominator =
    if parent_gas_used == parent_gas_target
    then some parent_base_fee
    else if ltb parent_gas_target parent_gas_used
    then (do
      delta ←
          fee_delta parent_base_fee (parent_gas_used - parent_gas_target) parent_gas_target
            denominator
      some (saturating_add64 parent_base_fee (max delta 1)))
    else (do
      delta ←
          fee_delta parent_base_fee (parent_gas_target - parent_gas_used) parent_gas_target
            denominator
      some (parent_base_fee - delta))

unfoldable pub calc_next_base_fee : ℕ → ℕ → ℕ → ℕ → ℕ → ℕ → Option ℕ
unfolding next_fee
calc_next_base_fee parent_base_fee parent_gas_used parent_gas_limit elasticity denominator floor =
    if parent_gas_limit == 0 then some (max parent_base_fee floor) else (do
      parent_gas_target ← checked_div parent_gas_limit elasticity
      if parent_gas_target == 0 then some (max parent_base_fee floor) else (do
        fee ← next_fee parent_base_fee parent_gas_used parent_gas_target denominator
        some (max fee floor)))

unfoldable pub predict_next_base_fee : GasStation → Option ℕ
predict_next_base_fee s =
    calc_next_base_fee s.base_fee s.last_gas_used s.last_gas_limit s.elasticity_multiplier
      s.base_fee_change_denominator s.min_base_fee_wei

unfoldable pub calc_priority_fee : GasStation → ℕ → ℕ → ℕ → ℕ
calc_priority_fee s profit_wei gas_estimate profit_share_bps =
    if gas_estimate == 0
    then 0
    else min ((profit_wei * profit_share_bps / 10_000 / gas_estimate) % u64_mod)
        s.priority_fee_cap_wei

unfoldable pub current_base_fee : GasStation → ℕ
current_base_fee s = s.base_fee

unfoldable pub total_fee_per_gas : GasStation → ℕ → ℕ → ℕ → Option ℕ
total_fee_per_gas s profit_wei gas_estimate profit_share_bps = do
  base ← predict_next_base_fee s
  some (saturating_add64 base (calc_priority_fee s profit_wei gas_estimate profit_share_bps))

unfoldable pub estimate_gas_cost_wei : GasStation → ℕ → Option ℕ
estimate_gas_cost_wei s gas_estimate = do
  base ← predict_next_base_fee s
  some (saturating_mul64 base gas_estimate)
