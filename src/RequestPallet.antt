-- ===== src/RequestPallet.antt =====
-- pallet-chainlink/src/lib.rs: the Substrate pallet through which users ask operators for data.
pub mod Runtime
pub mod Calls
pub mod Maps
pub mod Initiation
pub mod Moves
pub mod Invariant
pub mod Answers
pub mod Fees
pub mod Expiry
