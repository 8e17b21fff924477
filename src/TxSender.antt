-- ===== src/TxSender.antt =====
-- src/tx_sender_pipeline.rs: the sender, which checks an opportunity against the node, submits it,
-- and blacklists what keeps failing.
pub mod Worker
pub mod Preflight
pub mod Send
pub mod Strikes
pub mod Tally
pub mod Blacklist
pub mod Signing
pub mod Submission
pub mod Reverts
pub mod Fees
