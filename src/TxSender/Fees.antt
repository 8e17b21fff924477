-- ===== src/TxSender/Fees.antt =====
-- Proofs on the fees that the sender of src/tx_sender_pipeline.rs bids.
use arb_bot.Prelude.{
  ℕ, ◌+◌, ◌-◌, ◌<◌, ◌≤◌, ◌≡◌, ap, some, arith, min, ltb, if◌then◌else◌, some_inj, nat_eq,
}
use arb_bot.Word.{u64_mod, saturating_add64, saturating_mul64}
use arb_bot.Gas.{GasStation, predict_next_base_fee, calc_priority_fee}
use arb_bot.Simulator.{ValidPath}
use arb_bot.TxSender.Worker.{TxSenderConfig, gas_params}

calc_priority_fee-lt :
    (station : GasStation) (profit gas share : ℕ)
    → calc_priority_fee station profit gas share < u64_mod
unfolding calc_priority_fee
calc_priority_fee-lt station profit gas share = ground arith

-- The fee for priority, from the bid.
abbrev lifted : ℕ → ℕ → ℕ
lifted base_fee bid =
    if ltb (saturating_add64 base_fee bid) 5_000_000 then 5_000_000 - base_fee else bid

lifted_bounds :
    (base_fee bid : ℕ)
    → base_fee < u64_mod
    → bid < u64_mod
    → (lifted base_fee bid < u64_mod) × (5_000_000 ≤ base_fee + lifted base_fee bid)
unfolding saturating_add64
lifted_bounds base_fee bid h k = ground arith

cap_bounds :
    (base_fee fee : ℕ)
    → base_fee < u64_mod
    → fee < u64_mod
    → (fee ≤ saturating_mul64 (saturating_add64 base_fee fee) 2)
      × (base_fee ≤ saturating_mul64 (saturating_add64 base_fee fee) 2)
      × (saturating_mul64 (saturating_add64 base_fee fee) 2 < u64_mod)
unfolding saturating_add64 saturating_mul64
cap_bounds base_fee fee h k = ground arith

-- The fees that are bid: the fee for priority is within the cap, the cap covers the predicted base
-- fee, and the two together are at least the least effective fee of 5000000, for a predicted base fee
-- of 64 bits.
pub gas_params_bounds :
    (station : GasStation) (config : TxSenderConfig) (valid : ValidPath) (base_fee : ℕ)
    (priority_fee max_fee : ℕ)
    → predict_next_base_fee station ≡ some base_fee
    → base_fee < u64_mod
    → gas_params station config valid ≡ some (priority_fee, max_fee)
    → (priority_fee ≤ max_fee)
      × (base_fee ≤ max_fee)
      × (5_000_000 ≤ base_fee + priority_fee)
      × (max_fee < u64_mod)
unfolding gas_params
gas_params_bounds station config valid base_fee priority_fee max_fee predicted small h =
    let bid =
      calc_priority_fee station (min valid.net_profit (u64_mod - 1)) valid.arb.gas_estimate
        config.profit_share_bps in
    let bid_small =
      calc_priority_fee-lt station (min valid.net_profit (u64_mod - 1)) valid.arb.gas_estimate
        config.profit_share_bps in
    let (fee_small, least) = lifted_bounds base_fee bid small bid_small in
    let fees : (
      lifted base_fee bid,
      saturating_mul64 (saturating_add64 base_fee (lifted base_fee bid)) 2,
    )
        ≡ (priority_fee, max_fee) =
      some_inj (rw predicted at h) in
    let e : lifted base_fee bid ≡ priority_fee = ap (λ (p : ℕ × ℕ). p.0) fees in
    let e' : saturating_mul64 (saturating_add64 base_fee (lifted base_fee bid)) 2 ≡ max_fee =
      ap (λ (p : ℕ × ℕ). p.1) fees in
    let (a, b, c) = cap_bounds base_fee (lifted base_fee bid) small fee_small in
    (rw (← e, ← e') a, rw (← e') b, rw (← e) least, rw (← e') c)
