-- ===== src/Swap.antt =====
-- src/swap_types.rs: the protocols of a pool, the steps of a swap and the paths that they form.
pub mod Protocol
pub mod Path
