-- ===== src/Bindings/Offchain.antt =====
-- fm-demo/go-scripts/contracts/ethereum/OffchainAggregator.go: the methods and events of the
-- contract that the program itself does not use, beside those of Aggregators.
pub mod Calls
pub mod Sends
pub mod Events
pub mod Filters
pub mod Iterators
pub mod Watches
