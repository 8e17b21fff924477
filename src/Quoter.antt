-- ===== src/Quoter.antt =====
-- The search for the best input in src/quoter_revm.rs. The quote itself, a run of the EVM on a
-- database of type `D`, is a parameter: it returns the output, or nothing, and the database after it.
pub mod Best
use arb_bot.Prelude.{
  ℕ, zero, suc, ◌+◌, ◌-◌, ◌*◌, ◌/◌, min, Bool, true, false, not, ◌&&◌, ◌||◌, Option, none, some,
  ltb, leb, ◌==◌, if◌then◌else◌, unwrap_or,
}
use arb_bot.Word.{add256, sub256, mul256}

-- The best quote so far.
pub record BestQuote : Type 0 where
  pub input : ℕ
  pub profit : ℕ
  pub output : ℕ

-- `if out > input { out - input } else { U256::ZERO }`
abbrev pub profit_of : ℕ → ℕ → ℕ
profit_of out input = if ltb input out then out - input else 0

abbrev pub improve : BestQuote → ℕ → ℕ → BestQuote
improve best input out =
    if ltb best.profit (profit_of out input)
    then record { input = input; profit = profit_of out input; output = out }
    else best

-- What the first phase leaves: the best quote, the bracket, and the probes that were used.
pub record Bracket : Type 0 where
  pub best : BestQuote
  pub lo : ℕ
  pub hi : ℕ
  pub used : ℕ

module _ {D : Type 0} (quote : D → ℕ → Option ℕ × D) where
  -- `rounds` is what `probes_used` leaves of `max_probes`.
  unfoldable pub probing : ℕ → ℕ → ℕ → D → ℕ → Bracket → Bracket × D
  probing zero min_input max_input sim_db probe b = (b, sim_db)
  probing (suc rounds) min_input max_input sim_db probe b =
      let (quoted, sim_db') = quote sim_db probe in
      let out = unwrap_or quoted 0 in
      let profit = profit_of out probe in
      let better = ltb b.best.profit profit in
      let worse = ltb profit b.best.profit && ltb 0 b.best.profit in
      let lo = if ltb (mul256 min_input 2) probe then probe / 4 else min_input in
      let used = record b { best = improve b.best probe out; used = b.used + 1 } in
      let more = probing rounds min_input max_input sim_db' (min (mul256 probe 2) max_input) used in
      if ltb max_input probe
      then (b, sim_db)
      else if not better && worse
      then (record used { lo = lo; hi = probe }, sim_db')
      else if leb max_input probe
      then (used, sim_db')
      else more

  -- The ternary search.
  unfoldable pub refining : ℕ → D → ℕ → ℕ → BestQuote → BestQuote × D
  refining zero sim_db lo hi best = (best, sim_db)
  refining (suc rounds) sim_db lo hi best =
      let mid1 = add256 lo (sub256 hi lo / 3) in
      let mid2 = sub256 hi (sub256 hi lo / 3) in
      let (quoted1, sim_db1) = quote sim_db mid1 in
      let out1 = unwrap_or quoted1 0 in
      let (quoted2, sim_db2) = quote sim_db1 mid2 in
      let out2 = unwrap_or quoted2 0 in
      let best' = improve (improve best mid1 out1) mid2 out2 in
      let left = refining rounds sim_db2 lo mid2 best' in
      let right = refining rounds sim_db2 mid1 hi best' in
      if leb hi (add256 lo 1000)
      then (best, sim_db)
      else if ltb (profit_of out2 mid2) (profit_of out1 mid1)
      then left
      else right

  unfoldable pub optimize_input_with_db : D → ℕ → ℕ → ℕ → (ℕ × ℕ) × D
  unfolding probing refining
  optimize_input_with_db sim_db min_input max_input steps =
      let start : BestQuote = record { input = min_input; profit = 0; output = 0 } in
      let (b, sim_db1) =
        probing (steps / 2) min_input max_input sim_db min_input
          (record { best = start; lo = min_input; hi = max_input; used = 0 }) in
      let (best, sim_db2) =
        refining (steps - b.used * 2) sim_db1 b.lo (min b.hi max_input) b.best in
      if b.best.profit == 0 then ((min_input, 0), sim_db1) else ((best.input, best.output), sim_db2)
