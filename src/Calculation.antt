-- ===== src/Calculation.antt =====
-- src/calculation/: the arithmetic of the pools, and the rates that the searcher filters by.
pub mod V2
pub mod V3
pub mod Aerodrome
pub mod Rates
