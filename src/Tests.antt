-- ===== src/Tests.antt =====
-- Runs of the model on small inputs, and the theorems at concrete data.
pub mod Fixtures
mod Configs
mod Waits
mod Transactions
mod Contracts
mod Nodes
mod Events
mod Requests
mod Feeds
