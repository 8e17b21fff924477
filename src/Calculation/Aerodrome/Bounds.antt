-- ===== src/Calculation/Aerodrome/Bounds.antt =====
-- What the swaps of src/calculation/aerodrome.rs pay out, against the reserve that it is taken from.
use native.Mathlib.Nat.{mul-le-mul_right, div-mul-le_self}
use arb_bot.Prelude.{
  ℕ, ◌+◌, ◌-◌, ◌*◌, ◌/◌, ◌≤◌, ◌<◌, ◌≡◌, refl, inl, inr, Bool, true, false, some, arith, leb, ◌==◌,
  ◌||◌, if◌then◌else◌, Bool-cases, checked_div,
}
use arb_bot.Prelude.Arith.{mul-sub, div-le_of_le-mul, mul_mono}
use arb_bot.Word.{u256_mod, add256, mul256, add256_exact, mul256_exact, mul-lt-bound}
use arb_bot.Calculation.Aerodrome.{
  one_e18, pow10, normalise, get_amount_out_stable, get_amount_out_volatile, fee_numerator,
  get_amount_out_aerodrome,
}
use arb_bot.Calculation.V2.Product.{u112_mod}

abbrev pub reserve_in : Bool → ℕ → ℕ → ℕ
reserve_in true reserve0 reserve1 = reserve0
reserve_in false reserve0 reserve1 = reserve1

abbrev pub reserve_out : Bool → ℕ → ℕ → ℕ
reserve_out true reserve0 reserve1 = reserve1
reserve_out false reserve0 reserve1 = reserve0

-- The input that is left after a fee in basis points.
abbrev pub after_fee : ℕ → ℕ → ℕ
after_fee amount_in fee_bps = amount_in * (10_000 - fee_bps) / 10_000

mul256-le : (a b : ℕ) → mul256 a b ≤ a * b
unfolding mul256
mul256-le a b = omega arith

normalise-le : (r dec : ℕ) → normalise r dec * dec ≤ r * one_e18
normalise-le r dec = elim (Bool-cases (dec == 0)) [
  | inl e ↦ rw e (omega arith)
  | inr e ↦ rw e (omega (arith, div-mul-le_self (mul256 r one_e18) dec, mul256-le r one_e18))
]

-- A share of a normalised reserve, in the token's own units.
payout-le : (r y dec : ℕ) → mul256 (normalise r dec - y) dec / one_e18 ≤ r
payout-le r y dec =
    let less : (normalise r dec - y) * dec ≤ normalise r dec * dec =
      mul-le-mul_right dec (omega arith) in
    omega (arith, mul256-le (normalise r dec - y) dec, less, normalise-le r dec)

guarded_payout-le :
    (r y dec : ℕ)
    → (if leb (normalise r dec) y then 0 else mul256 (normalise r dec - y) dec / one_e18) ≤ r
guarded_payout-le r y dec = elim (Bool-cases (leb (normalise r dec) y)) [
  | inl e ↦ rw e (omega arith)
  | inr e ↦ rw e (payout-le r y dec)
]

get_amount_out_stable-le :
    (a r0 r1 dec0 dec1 : ℕ) (zero_for_one : Bool)
    → get_amount_out_stable a r0 r1 dec0 dec1 zero_for_one ≤ reserve_out zero_for_one r0 r1
unfolding get_amount_out_stable
get_amount_out_stable-le a r0 r1 dec0 dec1 true = guarded_payout-le r1 _ dec1
get_amount_out_stable-le a r0 r1 dec0 dec1 false = guarded_payout-le r0 _ dec0

-- A payment that is no more than the reserve, after which the product of the reserves is no smaller.
abbrev IsCovered : ℕ → ℕ → ℕ → ℕ → Type 0
IsCovered a ri ro out = (out ≤ ro) × (ri * ro ≤ (ri + a) * (ro - out))

nothing-IsCovered : (a ri ro : ℕ) → IsCovered a ri ro 0
nothing-IsCovered a ri ro =
    let same : ro - 0 ≡ ro = omega arith in (omega arith, rw same (omega arith))

quotient-IsCovered : (a ri ro : ℕ) → 0 < ri → IsCovered a ri ro (a * ro / (ri + a))
quotient-IsCovered a ri ro p =
    let below : a * ro / (ri + a) ≤ ro =
      div-le_of_le-mul (a * ro) ro (ri + a) (omega arith) (omega arith) in
    (
      below,
      omega
          (arith, mul-sub (ri + a) ro (a * ro / (ri + a)) below, div-mul-le_self (a * ro) (ri + a)),
    )

after_fee-le : (a fee : ℕ) → after_fee a fee ≤ a
after_fee-le a fee =
    let less : a * (10_000 - fee) ≤ a * 10_000 = mul_mono (omega arith) (omega arith) in omega arith

module _ (a ri ro : ℕ) (ha : a < u112_mod) (hi : ri < u112_mod) (ho : ro < u112_mod) where
  volatile_exact : 0 < ri → checked_div (mul256 a ro) (add256 ri a) ≡ some (a * ro / (ri + a))
  volatile_exact p =
      let product : a * ro < u256_mod =
        mul-lt-bound a ro u112_mod u112_mod (omega arith) (omega arith) (omega arith) in
      let positive : (ri + a == 0) ≡ false = ground arith in
      rw (mul256_exact a ro product, add256_exact ri a (omega arith)) (rw positive refl)

  after_fee_exact :
      (fee : ℕ) → fee ≤ 10_000 → mul256 a (fee_numerator fee) / 10_000 ≡ after_fee a fee
  after_fee_exact fee hf =
      let kept : fee_numerator fee ≡ 10_000 - fee = omega arith in
      let product : a * (10_000 - fee) < u256_mod =
        mul-lt-bound a (10_000 - fee) u112_mod 10_000 (omega arith) (omega arith) (omega arith) in
      rw kept (rw (mul256_exact a (10_000 - fee) product) refl)

  -- The swap of a volatile pool, in either direction.
  volatile-IsCovered :
      (out : ℕ) × ((if ri == 0 then some 0 else checked_div (mul256 a ro) (add256 ri a)) ≡ some out)
      × IsCovered a ri ro out
  volatile-IsCovered = elim (Bool-cases (ri == 0)) [
    | inl e ↦ (0, rw e refl, nothing-IsCovered a ri ro)
    | inr e ↦
        let p : 0 < ri = ground arith in
        (a * ro / (ri + a), rw (e, volatile_exact p) refl, quotient-IsCovered a ri ro p)
  ]

get_amount_out_volatile-IsCovered :
    (a r0 r1 : ℕ) (zero_for_one : Bool)
    → a < u112_mod
    → r0 < u112_mod
    → r1 < u112_mod
    → (out : ℕ) × (get_amount_out_volatile a r0 r1 zero_for_one ≡ some out)
      × IsCovered a (reserve_in zero_for_one r0 r1) (reserve_out zero_for_one r0 r1) out
unfolding get_amount_out_volatile
get_amount_out_volatile-IsCovered a r0 r1 true ha h0 h1 = volatile-IsCovered a r0 r1 ha h0 h1
get_amount_out_volatile-IsCovered a r0 r1 false ha h0 h1 = volatile-IsCovered a r1 r0 ha h1 h0

-- For 112-bit amounts and reserves and a fee of at most 10000 basis points, a swap never panics and
-- pays out at most the output reserve, in a stable pool whatever its solver returns. In a volatile
-- pool the product of the reserves, with the input after the fee added, does not fall.
pub get_amount_out_aerodrome_bounds :
    (a r0 r1 dec0 dec1 : ℕ) (stable : Bool) (fee : ℕ) (zero_for_one : Bool)
    → a < u112_mod
    → r0 < u112_mod
    → r1 < u112_mod
    → fee ≤ 10_000
    → (out : ℕ) × (get_amount_out_aerodrome a r0 r1 dec0 dec1 stable fee zero_for_one ≡ some out)
      × (out ≤ reserve_out zero_for_one r0 r1)
      × (stable ≡ false
          → reserve_in zero_for_one r0 r1 * reserve_out zero_for_one r0 r1
            ≤ (reserve_in zero_for_one r0 r1 + after_fee a fee)
              * (reserve_out zero_for_one r0 r1 - out))
unfolding get_amount_out_aerodrome
get_amount_out_aerodrome_bounds a r0 r1 dec0 dec1 stable fee zero_for_one ha h0 h1 hf =
    rw (after_fee_exact a r0 r1 ha h0 h1 fee hf) (elim (Bool-cases (a == 0 || r0 == 0 || r1 == 0)) [
      | inl e ↦
          let (least, kept) =
            nothing-IsCovered (after_fee a fee) (reserve_in zero_for_one r0 r1)
              (reserve_out zero_for_one r0 r1) in
          (0, rw e refl, least, λ _. kept)
      | inr e ↦ rw e (swapped stable)
    ])
  where
    swapped :
        (s : Bool)
        → (out : ℕ) × ((if s
              then some (
                  get_amount_out_stable
                    (after_fee a fee)
                    r0
                    r1
                    (pow10 dec0)
                    (pow10 dec1)
                    zero_for_one)
              else get_amount_out_volatile (after_fee a fee) r0 r1 zero_for_one)
            ≡ some out)
          × (out ≤ reserve_out zero_for_one r0 r1)
          × (s ≡ false
              → reserve_in zero_for_one r0 r1 * reserve_out zero_for_one r0 r1
                ≤ (reserve_in zero_for_one r0 r1 + after_fee a fee)
                  * (reserve_out zero_for_one r0 r1 - out))
    swapped true = (
      _,
      refl,
      get_amount_out_stable-le (after_fee a fee) r0 r1 (pow10 dec0) (pow10 dec1) zero_for_one,
      λ e. absurd (cc),
    )
    swapped false =
        let small : after_fee a fee < u112_mod = omega (arith, after_fee-le a fee) in
        let (out, e, (least, kept)) =
          get_amount_out_volatile-IsCovered (after_fee a fee) r0 r1 zero_for_one small h0 h1 in
        (out, e, least, λ _. kept)
