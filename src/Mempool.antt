-- ===== src/Mempool.antt =====
-- src/mempool.rs: the listener for pending transactions, which recognises swaps in their calldata and
-- reports the pools that they will touch.
pub mod Decode
pub mod Watch
pub mod Affected
pub mod Encoding
pub mod RoundTrip
pub mod Panics
pub mod MultiHop
