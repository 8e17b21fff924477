-- ===== src/Tests.antt =====
-- Runs of the models on concrete inputs, and the theorems applied to them.
mod Amounts
mod State
mod Search
mod Paths
mod Simulate
mod Pending
mod Sending
mod Blocks
mod Loading
