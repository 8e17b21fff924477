-- ===== src/Simulator/Balance.antt =====
-- What a path that src/simulator_pipeline.rs accepts is worth.
use arb_bot.Prelude.{
  ℕ, ◌+◌, ◌-◌, ◌≤◌, ◌<◌, ◌≡◌, ◌⊎◌, refl, ap, ◌∙◌, inl, inr, Bool, true, false, Option, none, some,
  arith, ltb, leb, if◌then◌else◌, >>=-eq-some, some_inj, Bool-cases,
}
use mathlib.Core.Path.{subst}
use arb_bot.Word.{u256_mod}
use arb_bot.Swap.Path.{SwapPath, first_token}
use arb_bot.StateDb.Store.{BlockStateDb}
use arb_bot.SimDb.{SimDb, snapshot, write_back}
use arb_bot.Quoter.{optimize_input_with_db}
use arb_bot.Quoter.Best.{IsQuoted, optimize_input_with_db-IsQuoted}
use arb_bot.Gas.{estimate_gas_cost_wei}
use arb_bot.Searcher.{ArbPath}
use arb_bot.Simulator.{
  SimulatorWorker, ValidPath, flash_fee, profit_native, settle, is_viable, simulate_and_optimize,
}

-- The amounts of a path that is accepted: the output covers the input and the flash loan's fee, and
-- what is left, in native tokens, covers the gas and the least profit.
pub record IsSettled (w : SimulatorWorker) (db : BlockStateDb) (arb : ArbPath) (v : ValidPath)
    : Type 0 where
  pub same : v.arb ≡ arb
  pub gains : v.amount_in + flash_fee w.config v.amount_in < v.amount_out
  pub native :
      profit_native w db
        (first_token arb.path.steps w.native_token)
        (v.amount_out - v.amount_in - flash_fee w.config v.amount_in)
      ≡ some (v.gas_cost + v.net_profit)
  pub gas : estimate_gas_cost_wei w.gas_station arb.gas_estimate ≡ some v.gas_cost
  pub pays : 0 < v.net_profit
  pub least : w.config.min_profit_wei ≤ v.net_profit

guard {ℓ} :
    {A : Type ℓ} (c : Bool) (x : Option A) {v : A}
    → (if c then none else x) ≡ some v
    → (c ≡ false) × (x ≡ some v)
guard true x h = absurd (ground arith)
guard false x h = (refl, h)

settle-IsSettled :
    (w : SimulatorWorker) (db : BlockStateDb) (arb : ArbPath) (input output : ℕ) (v : ValidPath)
    → settle w db arb input output ≡ some v
    → IsSettled w db arb v × (v.amount_in ≡ input) × (v.amount_out ≡ output)
unfolding settle
settle-IsSettled w db arb input output v h =
    let fee = flash_fee w.config input in
    let start = first_token arb.path.steps w.native_token in
    let (gains, h1) = guard (leb output input) _ h in
    let (covers, h2) = guard (leb (output - input) fee) _ h1 in
    let (profit, e1, h3) = >>=-eq-some (profit_native w db start (output - input - fee)) _ h2 in
    let (gas, e2, h4) = >>=-eq-some (estimate_gas_cost_wei w.gas_station arb.gas_estimate) _ h3 in
    let (pays, h5) = guard (leb profit gas) _ h4 in
    let (enough, h6) = guard (ltb (profit - gas) w.config.min_profit_wei) _ h5 in
    let result : ValidPath = record {
      arb = arb;
      amount_in = input;
      amount_out = output;
      gas_cost = gas;
      net_profit = profit - gas;
    } in
    let sum : profit ≡ gas + (profit - gas) = ground arith in
    subst
      (λ (r : ValidPath). IsSettled w db arb r × (r.amount_in ≡ input) × (r.amount_out ≡ output))
      (some_inj h6)
      (
        record {
          same = refl;
          gains = ground arith;
          native = e1 ∙ ap (λ (n : ℕ). some n) sum;
          gas = e2;
          pays = ground arith;
          least = ground arith;
        },
        refl,
        refl,
      )

accepted :
    (quote : SimDb → ℕ → Option ℕ × SimDb) (w : SimulatorWorker) (db : BlockStateDb) (arb : ArbPath)
    (v : ValidPath) (input output : ℕ)
    → ((input ≡ w.config.min_input) × (output ≡ 0)) ⊎ IsQuoted quote w.config.max_input input output
    → IsSettled w db arb v
    → v.amount_in ≡ input
    → v.amount_out ≡ output
    → IsQuoted quote w.config.max_input v.amount_in v.amount_out × IsSettled w db arb v
accepted quote w db arb v input output (inl (at_min, nothing)) settled same_in same_out =
    absurd (omega (arith, settled.gains))
accepted quote w db arb v input output (inr quoted) settled same_in same_out =
    (rw (same_in, same_out) quoted, settled)

-- A path that the simulator accepts was quoted with exactly its amounts, by some database of the
-- simulation; its input is at most `max_input`; its output covers the input and the flash loan's
-- fee; and what is left, converted to native tokens, is exactly the predicted gas cost plus a net
-- profit that is positive and at least the configured minimum. The configured inputs are in order
-- and 1000 below 2^256.
pub simulate_and_optimize-IsSettled :
    (quote_with_db : SwapPath → SimDb → ℕ → Option ℕ × SimDb) (w : SimulatorWorker)
    (db : BlockStateDb) (arb : ArbPath) (v : ValidPath)
    → w.config.min_input ≤ w.config.max_input
    → w.config.max_input + 1000 < u256_mod
    → (simulate_and_optimize quote_with_db w db arb).0 ≡ some v
    → IsQuoted (quote_with_db arb.path) w.config.max_input v.amount_in v.amount_out
      × IsSettled w (simulate_and_optimize quote_with_db w db arb).1 arb v
unfolding simulate_and_optimize
simulate_and_optimize-IsSettled quote_with_db w db arb v m f h =
    let quote = quote_with_db arb.path in
    let probed = quote (snapshot db) w.config.min_input in
    let best =
      optimize_input_with_db quote probed.1 w.config.min_input w.config.max_input
        w.config.optimization_steps in
    let db' = write_back best.1 db in
    elim (Bool-cases (is_viable w.config.min_input probed.0)) [
      | inr hopeless ↦ absurd (ground (arith, rw (simulate_and_optimize, hopeless) at h))
      | inl viable ↦
          let (settled, same_in, same_out) =
            settle-IsSettled w db' arb best.0.0 best.0.1 v
              (rw (simulate_and_optimize, viable) at h) in
          let quoted =
            optimize_input_with_db-IsQuoted quote probed.1 w.config.min_input w.config.max_input
              w.config.optimization_steps m f in
          rw (simulate_and_optimize, viable)
            (accepted quote w db' arb v best.0.0 best.0.1 quoted settled same_in same_out)
    ]
