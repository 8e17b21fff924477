-- ===== src/Calculation/Rates/Frame.antt =====
-- Which rates the updates of src/calculation/rates.rs change: those of one pool.
use arb_bot.Prelude.{
  ℕ, ◌≡◌, ◌≢◌, refl, ◌∙◌, inl, inr, Bool, true, false, ◌||◌, List, [], ◌∷◌, Option, none, some,
  arith, ltb, ◌==◌, if◌then◌else◌, any, ◌>>=◌, >>=-eq-some, Option-cases, pair_eq, lookup,
  lookup-insert, lookup-remove, remove,
}
use arb_bot.Prelude.Int.{ℤ}
use arb_bot.Swap.Path.{Address, SwapStep, SwapPath, contains_pool}
use arb_bot.StateDb.Store.{BlockStateDb}
use arb_bot.StateDb.Read.{read_v2_reserves, read_v3_slot0}
use arb_bot.Prelude.Fallible.{Fallible, found, missing, panic}
use arb_bot.Calculation.V3.Swap.{V3Math, get_amount_out_v3}
use arb_bot.Calculation.Aerodrome.{get_amount_out_aerodrome}
use arb_bot.Calculation.Rates.{
  RateEstimator, store_nonzero, spot_rate, spot_0to1, spot_1to0, discounted, invalidate_pool,
  set_rate, mul_div, rate_scale, step_rate, evaluate_steps, evaluate_path, update_v2_rate,
  update_v3_rate, store_v3_out, update_exotic_passthrough, update_v3_passthrough_with_fee,
  update_v3_spot_rate, update_aerodrome_rate, decimal_reference, normalized_rate,
}

-- Two estimators that have the same rates but for those of one pool.
pub AgreeOff : Address → RateEstimator → RateEstimator → Type 0
AgreeOff pool est est' =
    (p : Address) (d : Bool) → p ≢ pool → lookup (p, d) est'.rates ≡ lookup (p, d) est.rates

pub agree_refl : (pool : Address) (est : RateEstimator) → AgreeOff pool est est
unfolding AgreeOff
agree_refl pool est p d h = refl

agree_set :
    (pool : Address) (d : Bool) (rate : ℕ) (est est' : RateEstimator)
    → AgreeOff pool est est'
    → AgreeOff pool est (set_rate est' pool d rate)
unfolding AgreeOff
agree_set pool d rate est est' a p e h =
    ground (arith, lookup-insert (pool, d) (p, e) rate est'.rates, a p e h)

module _ (pool : Address) (est est' : RateEstimator) (a : AgreeOff pool est est') where
  evaluate_steps-AgreeOff :
      (steps : List SwapStep) (c : ℕ)
      → any (λ s. s.pool_address == pool) steps ≡ false
      → evaluate_steps est' steps c ≡ evaluate_steps est steps c
  unfolding evaluate_steps step_rate AgreeOff
  evaluate_steps-AgreeOff [] c h = refl
  evaluate_steps-AgreeOff (s ∷ steps) c h =
      let same = a s.pool_address (ltb s.token_in s.token_out) (ground arith) in
      ground (
        arith,
        same,
        evaluate_steps-AgreeOff steps (mul_div c (step_rate est s) rate_scale) (ground arith),
      )

  pub evaluate_path-AgreeOff :
      (path : SwapPath)
      → contains_pool path pool ≡ false
      → evaluate_path est' path ≡ evaluate_path est path
  unfolding evaluate_path contains_pool
  evaluate_path-AgreeOff path h = evaluate_steps-AgreeOff path.steps rate_scale h

pub agree_if :
    (pool : Address) (est x y : RateEstimator) (b : Bool)
    → AgreeOff pool est x
    → AgreeOff pool est y
    → AgreeOff pool est (if b then x else y)
agree_if pool est x y true h k = h
agree_if pool est x y false h k = k

agree_set_both :
    (pool : Address) (r0 r1 : ℕ) (est : RateEstimator)
    → AgreeOff pool est (set_rate (set_rate est pool true r0) pool false r1)
agree_set_both pool r0 r1 est =
    agree_set pool false r1 est (set_rate est pool true r0)
      (agree_set pool true r0 est est (agree_refl pool est))

agree_nonzero :
    (pool : Address) (d : Bool) (rate : ℕ) (est est' : RateEstimator)
    → AgreeOff pool est est'
    → AgreeOff pool est (store_nonzero est' pool d rate)
agree_nonzero pool d rate est est' a =
    agree_if pool est est' (set_rate est' pool d rate) (rate == 0) a
      (agree_set pool d rate est est' a)

module _ (est : RateEstimator) (db : BlockStateDb) (pool : Address) (d0 d1 fee : ℕ) where
  pub update_v2_rate-AgreeOff : AgreeOff pool est (update_v2_rate est db pool d0 d1 fee)
  unfolding update_v2_rate
  update_v2_rate-AgreeOff = elim (Option-cases (read_v2_reserves db pool)) [
    | inl miss ↦ rw (update_v2_rate, miss) (agree_refl pool est)
    | inr ((r0, r1), hit) ↦
        rw (update_v2_rate, hit)
          (agree_if pool est est _ (r0 == 0 || r1 == 0) (agree_refl pool est)
            (agree_set_both pool _ _ est))
  ]

  pub update_v3_spot_rate-AgreeOff : AgreeOff pool est (update_v3_spot_rate est db pool d0 d1 fee)
  unfolding update_v3_spot_rate
  update_v3_spot_rate-AgreeOff = elim (Option-cases (read_v3_slot0 db pool)) [
    | inl miss ↦ rw (update_v3_spot_rate, miss) (agree_refl pool est)
    | inr ((sqrt_price, tick), hit) ↦
        rw (update_v3_spot_rate, hit)
          (agree_if pool est est _ (sqrt_price == 0) (agree_refl pool est) (
            agree_nonzero pool false
              (spot_rate (spot_1to0 (decimal_reference d1) sqrt_price) fee d0) est _
              (agree_nonzero pool true
                (spot_rate (spot_0to1 (decimal_reference d0) sqrt_price) fee d1) est est
                (agree_refl pool est))))
  ]

pub agree_trans :
    (pool : Address) (a b c : RateEstimator)
    → AgreeOff pool a b
    → AgreeOff pool b c
    → AgreeOff pool a c
unfolding AgreeOff
agree_trans pool a b c h k p d e = k p d e ∙ h p d e

pub invalidate_pool-AgreeOff :
    (est : RateEstimator) (pool : Address) → AgreeOff pool est (invalidate_pool est pool)
unfolding AgreeOff invalidate_pool
invalidate_pool-AgreeOff est pool p d h = ground (
  arith,
  lookup-remove (pool, false) (p, d) (remove (pool, true) est.rates),
  lookup-remove (pool, true) (p, d) est.rates,
)

pub update_exotic_passthrough-AgreeOff :
    (est : RateEstimator) (pool : Address) → AgreeOff pool est (update_exotic_passthrough est pool)
unfolding update_exotic_passthrough
update_exotic_passthrough-AgreeOff est pool = agree_set_both pool rate_scale rate_scale est

pub update_v3_passthrough_with_fee-AgreeOff :
    (est : RateEstimator) (pool : Address) (fee : ℕ)
    → AgreeOff pool est (update_v3_passthrough_with_fee est pool fee)
unfolding update_v3_passthrough_with_fee
update_v3_passthrough_with_fee-AgreeOff est pool fee =
    agree_set_both pool (discounted fee) (discounted fee) est

-- A result that agrees, where there is one.
pub AgreeIfSome : Address → RateEstimator → Option RateEstimator → Type 0
AgreeIfSome pool est r = (est' : RateEstimator) → r ≡ some est' → AgreeOff pool est est'

pub agree_some :
    (pool : Address) (est x : RateEstimator) → AgreeOff pool est x → AgreeIfSome pool est (some x)
unfolding AgreeIfSome AgreeOff
agree_some pool est x h est' e p d k = ground (arith, h p d k)

agree_none : (pool : Address) (est : RateEstimator) → AgreeIfSome pool est none
unfolding AgreeIfSome
agree_none pool est est' e = cc

agree_after :
    {A : Type 0} (pool : Address) (est : RateEstimator) (m : Option A)
    (f : A → Option RateEstimator)
    → ((a : A) → AgreeIfSome pool est (f a))
    → AgreeIfSome pool est (m >>= f)
agree_after pool est none f k = agree_none pool est
agree_after pool est (some a) f k = k a

pub agree_bind :
    (pool : Address) (est : RateEstimator) (m : Option RateEstimator)
    (f : RateEstimator → Option RateEstimator)
    → AgreeIfSome pool est m
    → ((x : RateEstimator) → AgreeIfSome pool x (f x))
    → AgreeIfSome pool est (m >>= f)
unfolding AgreeIfSome
agree_bind pool est m f h k est' e =
    let (x, ex, ef) = >>=-eq-some m f e in agree_trans pool est x est' (h x ex) (k x est' ef)

store_v3_out-AgreeOff :
    (est : RateEstimator) (pool : Address) (d : Bool) (out : Fallible ℕ) (dec : ℕ)
    → AgreeIfSome pool est (store_v3_out est pool d out dec)
unfolding store_v3_out
store_v3_out-AgreeOff est pool d panic dec = agree_none pool est
store_v3_out-AgreeOff est pool d missing dec = agree_some pool est est (agree_refl pool est)
store_v3_out-AgreeOff est pool d (found out) dec = agree_some pool est _ (
    agree_if pool est est (set_rate est pool d (normalized_rate out dec)) (out == 0)
      (agree_refl pool est)
      (agree_set pool d (normalized_rate out dec) est est (agree_refl pool est)))

pub update_v3_rate-AgreeOff :
    (keccak256 : List ℕ → ℕ) (math : V3Math) (est : RateEstimator) (db : BlockStateDb)
    (pool : Address) (d0 d1 fee : ℕ) (spacing : ℤ)
    → AgreeIfSome pool est (update_v3_rate keccak256 math est db pool d0 d1 fee spacing)
unfolding update_v3_rate
update_v3_rate-AgreeOff keccak256 math est db pool d0 d1 fee spacing =
    agree_bind pool est _ _
      (store_v3_out-AgreeOff est pool true
        (get_amount_out_v3 keccak256 math db pool (decimal_reference d0) true fee spacing) d1)
      (λ x.
        store_v3_out-AgreeOff x pool false
          (get_amount_out_v3 keccak256 math db pool (decimal_reference d1) false fee spacing) d0)

pub agree_if_some :
    (pool : Address) (est : RateEstimator) (x y : Option RateEstimator) (b : Bool)
    → AgreeIfSome pool est x
    → AgreeIfSome pool est y
    → AgreeIfSome pool est (if b then x else y)
agree_if_some pool est x y true h k = h
agree_if_some pool est x y false h k = k

pub update_aerodrome_rate-AgreeOff :
    (est : RateEstimator) (db : BlockStateDb) (pool : Address) (d0 d1 : ℕ) (stable : Bool) (fee : ℕ)
    → AgreeIfSome pool est (update_aerodrome_rate est db pool d0 d1 stable fee)
unfolding update_aerodrome_rate
update_aerodrome_rate-AgreeOff est db pool d0 d1 stable fee =
    elim (Option-cases (read_v2_reserves db pool)) [
      | inl miss ↦ rw (update_aerodrome_rate, miss) (agree_some pool est est (agree_refl pool est))
      | inr ((r0, r1), hit) ↦
          rw (update_aerodrome_rate, hit)
            (agree_if_some pool est (some est) _ (r0 == 0 || r1 == 0)
              (agree_some pool est est (agree_refl pool est))
              (agree_after pool est
                (get_amount_out_aerodrome (decimal_reference d0) r0 r1 d0 d1 stable fee true) _
                (λ out_0to1.
                  agree_after pool est
                    (get_amount_out_aerodrome (decimal_reference d1) r0 r1 d0 d1 stable fee false) _
                    (λ out_1to0. agree_some pool est _ (
                      agree_set_both pool (normalized_rate out_0to1 d1)
                        (normalized_rate out_1to0 d0) est)))))
    ]

pub agree_after_change :
    (pool : Address) (est x : RateEstimator) (r : Option RateEstimator)
    → AgreeOff pool est x
    → AgreeIfSome pool x r
    → AgreeIfSome pool est r
unfolding AgreeIfSome
agree_after_change pool est x r h k est' e = agree_trans pool est x est' h (k est' e)

pub agree_apply :
    (pool : Address) (est x : RateEstimator) (r : Option RateEstimator)
    → AgreeIfSome pool est r
    → r ≡ some x
    → AgreeOff pool est x
unfolding AgreeIfSome
agree_apply pool est x r h e = h x e
