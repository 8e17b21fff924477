-- ===== src/Calculation/Rates/Prices.antt =====
-- The second loop of `seed_from_raw_pools` in src/calculation/rates.rs: what becomes of the prices.
use arb_bot.Prelude.{
  ℕ, ◌<◌, ◌≡◌, ◌⊎◌, refl, sym, ◌∙◌, inl, inr, Bool, true, false, List, [], ◌∷◌, Option, none, some,
  arith, ◌==◌, ==_iff, if◌then◌else◌, Bool-cases, Option-cases, nat_eq, pair_eq, lookup,
  lookup-insert, contains_key,
}
use arb_bot.Swap.Path.{Address}
use arb_bot.PoolLoader.{RawPool}
use arb_bot.Calculation.Rates.{RateEstimator, weth_price_of}
use arb_bot.Calculation.Rates.Seed.{price_token, seed_price, seed_prices, or_insert}

-- A price is as before, or it is new and not zero.
abbrev IsKept : Option ℕ → Option ℕ → Type 0
IsKept before after = (after ≡ before) ⊎ ((before ≡ none) × ((p : ℕ) × (after ≡ some p) × (0 < p)))

-- The rates are as before, and so is each price unless it is new.
record Extends (est est' : RateEstimator) : Type 0 where
  rates : est'.rates ≡ est.rates
  prices : (token : Address) → IsKept (weth_price_of est token) (weth_price_of est' token)

Extends-refl : (est : RateEstimator) → Extends est est
Extends-refl est = record { rates = refl; prices = λ token. inl refl }

IsKept-trans : (a b c : Option ℕ) → IsKept a b → IsKept b c → IsKept a c
IsKept-trans a b c (inl e) (inl f) = inl (f ∙ e)
IsKept-trans a b c (inl e) (inr f) = inr (sym e ∙ f.0, f.1)
IsKept-trans a b c (inr e) (inl f) = inr (e.0, (e.1.0, f ∙ e.1.1, e.1.2))
IsKept-trans a b c (inr e) (inr f) = absurd (ground (arith, e.1.1, f.0))

or_insert-IsKept :
    (other rate : ℕ) (prices : List (Address × ℕ)) (token : Address)
    → 0 < rate
    → IsKept (lookup token prices) (lookup token (or_insert other rate prices))
unfolding contains_key
or_insert-IsKept other rate prices token h = elim (Option-cases (lookup other prices)) [
  | inr (p, known) ↦ inl (ground arith)
  | inl missing ↦ elim (Bool-cases (other == token)) [
    | inl same ↦ inr (
      ground (arith, ==_iff other token),
      (rate, ground (arith, lookup-insert other token rate prices), h),
    )
    | inr distinct ↦ inl (ground (arith, lookup-insert other token rate prices))
  ]
]

if-Extends :
    (est x y : RateEstimator) (b : Bool)
    → (b ≡ true → Extends est x)
    → (b ≡ false → Extends est y)
    → Extends est (if b then x else y)
if-Extends est x y true h k = h refl
if-Extends est x y false h k = k refl

price_token-Extends :
    (est : RateEstimator) (pool other : Address) (d : Bool)
    → Extends est (price_token est pool other d)
unfolding price_token weth_price_of
price_token-Extends est pool other d = elim (Option-cases (lookup (pool, d) est.rates)) [
  | inl unknown ↦ rw (price_token, unknown) (Extends-refl est)
  | inr (rate, known) ↦
      rw (price_token, known)
        (if-Extends est est _ (rate == 0) (λ zero_rate. Extends-refl est)
          (λ positive. record {
            rates = refl;
            prices =
                λ token. or_insert-IsKept other rate est.token_weth_prices token (ground arith);
          }))
]

seed_price-Extends :
    (est : RateEstimator) (weth : Address) (pool : RawPool) → Extends est (seed_price est weth pool)
unfolding seed_price
seed_price-Extends est weth pool =
    if-Extends est _ _ (pool.token0 == weth)
      (λ first. price_token-Extends est pool.address pool.token1 false)
      (λ other.
        if-Extends est _ _ (pool.token1 == weth)
          (λ second. price_token-Extends est pool.address pool.token0 true)
          (λ neither. Extends-refl est))

-- The second loop of the seeding changes no rate and no price that is known, and every price that it
-- adds is positive.
pub seed_prices-weth_price_of :
    (est : RateEstimator) (weth : Address) (pools : List RawPool)
    → ((seed_prices est weth pools).rates ≡ est.rates)
      × ((token : Address)
          → (weth_price_of (seed_prices est weth pools) token ≡ weth_price_of est token)
            ⊎ ((weth_price_of est token ≡ none)
                × ((p : ℕ) × (weth_price_of (seed_prices est weth pools) token ≡ some p)
                    × (0 < p))))
unfolding seed_prices
seed_prices-weth_price_of est weth [] = (refl, λ token. inl refl)
seed_prices-weth_price_of est weth (pool ∷ pools) =
    let est' = seed_price est weth pool in
    let first = seed_price-Extends est weth pool in
    let rest = seed_prices-weth_price_of est' weth pools in
    (
      rest.0 ∙ first.rates,
      λ token.
          IsKept-trans (weth_price_of est token) (weth_price_of est' token)
            (weth_price_of (seed_prices est' weth pools) token) (first.prices token) (rest.1 token),
    )
