-- ===== src/Calculation/V3.antt =====
-- src/calculation/v3.rs: swaps through the ticks of a concentrated-liquidity pool. The arithmetic of
-- one step and of the price at a tick is the crate uniswap_v3_math, a parameter.
pub mod Bitmap
pub mod Swap
