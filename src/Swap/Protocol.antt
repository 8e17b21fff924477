-- ===== src/Swap/Protocol.antt =====
-- `PoolProtocol` of src/swap_types.rs, with the classifications that the pipeline branches on.
use arb_bot.Prelude.{ℕ, ◌≤◌, ◌<◌, ◌≡◌, ◌⊎◌, Bool, true, false, arith}

pub data PoolProtocol : Type 0 where
  uniswap_v2 sushi_swap_v2 pancake_swap_v2 base_swap_v2 alien_base_v2 aerodrome : PoolProtocol
  uniswap_v3 sushi_swap_v3 base_swap_v3 pancake_swap_v3 alien_base_v3 slipstream : PoolProtocol
  algebra_v1 balancer_v2 curve_two_crypto curve_tri_crypto maverick_v2 : PoolProtocol

unfoldable pub is_v3 : PoolProtocol → Bool
is_v3 uniswap_v3 = true
is_v3 sushi_swap_v3 = true
is_v3 base_swap_v3 = true
is_v3 pancake_swap_v3 = true
is_v3 alien_base_v3 = true
is_v3 slipstream = true
is_v3 algebra_v1 = true
is_v3 _ = false

unfoldable pub is_v2 : PoolProtocol → Bool
is_v2 uniswap_v2 = true
is_v2 sushi_swap_v2 = true
is_v2 pancake_swap_v2 = true
is_v2 base_swap_v2 = true
is_v2 alien_base_v2 = true
is_v2 _ = false

unfoldable pub is_curve : PoolProtocol → Bool
is_curve curve_two_crypto = true
is_curve curve_tri_crypto = true
is_curve _ = false

unfoldable pub curve_n_tokens : PoolProtocol → ℕ
curve_n_tokens curve_tri_crypto = 3
curve_n_tokens _ = 2

unfoldable pub v2_fee_factor : PoolProtocol → ℕ
v2_fee_factor uniswap_v2 = 9970
v2_fee_factor sushi_swap_v2 = 9970
v2_fee_factor pancake_swap_v2 = 9975
v2_fee_factor base_swap_v2 = 9975
v2_fee_factor alien_base_v2 = 9984
v2_fee_factor _ = 9970

unfoldable pub to_quoter_version : PoolProtocol → ℕ
to_quoter_version uniswap_v3 = 1
to_quoter_version sushi_swap_v3 = 1
to_quoter_version base_swap_v3 = 1
to_quoter_version pancake_swap_v3 = 1
to_quoter_version alien_base_v3 = 1
to_quoter_version slipstream = 1
to_quoter_version algebra_v1 = 2
to_quoter_version _ = 0

-- `matches!(protocol, PoolProtocol::Aerodrome)`
unfoldable pub is_aerodrome : PoolProtocol → Bool
is_aerodrome aerodrome = true
is_aerodrome _ = false

-- `matches!(protocol, BalancerV2 | CurveTwoCrypto | CurveTriCrypto | MaverickV2)`
unfoldable pub is_exotic : PoolProtocol → Bool
is_exotic balancer_v2 = true
is_exotic curve_two_crypto = true
is_exotic curve_tri_crypto = true
is_exotic maverick_v2 = true
is_exotic _ = false

-- The quoter is told a concentrated-liquidity version, 1 or 2, exactly for the protocols that
-- `is_v3` accepts, and version 0 for all others: version 3, a Solidly stable pool, is never sent.
pub to_quoter_version-is_v3 :
    (p : PoolProtocol)
    → ((is_v3 p ≡ true) × ((to_quoter_version p ≡ 1) ⊎ (to_quoter_version p ≡ 2)))
      ⊎ ((is_v3 p ≡ false) × (to_quoter_version p ≡ 0))
unfolding is_v3 to_quoter_version
to_quoter_version-is_v3 p = ground arith

-- Every protocol falls into exactly one of the four classes by which the rate updates branch.
pub protocol_class :
    (p : PoolProtocol)
    → ((is_v3 p ≡ true) × (is_aerodrome p ≡ false) × (is_exotic p ≡ false) × (is_v2 p ≡ false))
      ⊎ ((is_v3 p ≡ false) × (is_aerodrome p ≡ true) × (is_exotic p ≡ false) × (is_v2 p ≡ false))
      ⊎ ((is_v3 p ≡ false) × (is_aerodrome p ≡ false) × (is_exotic p ≡ true) × (is_v2 p ≡ false))
      ⊎ ((is_v3 p ≡ false) × (is_aerodrome p ≡ false) × (is_exotic p ≡ false) × (is_v2 p ≡ true))
unfolding is_v3 is_aerodrome is_exotic is_v2
protocol_class p = ground arith

-- The built-in fee factors lie in the range that the CSV values are clamped to.
pub v2_fee_factor_bounds : (p : PoolProtocol) → (9900 ≤ v2_fee_factor p) × (v2_fee_factor p < 10000)
unfolding v2_fee_factor
v2_fee_factor_bounds p = ground arith
