-- ===== src/Bindings.antt =====
-- The generated bindings below fm-demo/go-scripts/contracts/ethereum: `Bound` is what they all do
-- alike, over the library `bind` as a parameter, and the others are the contracts.
pub mod Bound
pub mod Events
pub mod Watch
pub mod LinkToken
pub mod Parts
pub mod Aggregators
pub mod Flux
pub mod Offchain
pub mod Store
pub mod Frame
