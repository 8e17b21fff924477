-- ===== src/StateDb.antt =====
-- src/state_db.rs: the local copy of the chain's state, its readers for pool storage, and its use as
-- the database of the EVM. A `HashMap` is a map, and what the bot asks a node for is a parameter.
pub mod Slots
pub mod Store
pub mod Read
pub mod Reads
pub mod Writes
