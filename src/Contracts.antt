-- ===== src/Contracts.antt =====
-- fm-demo/go-scripts/contracts/ethereum_contracts.go: the contracts as the program uses them.
-- `Defs` has what they share, with `fund`.
pub mod Defs
pub mod Deployments
pub mod Methods
pub mod Funding
