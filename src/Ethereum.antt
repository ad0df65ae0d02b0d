-- ===== src/Ethereum.antt =====
-- fm-demo/go-scripts/client/ethereum.go: the client of an Ethereum node. `Defs` has the client and
-- the shared state, `Wait` waits for a transaction, `Messages` and `Sending` make and send one.
pub mod Defs
pub mod Wait
pub mod Messages
pub mod Sending
pub mod Frame
