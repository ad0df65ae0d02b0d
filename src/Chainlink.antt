-- ===== src/Chainlink.antt =====
-- fm-demo/go-scripts/client/chainlink.go: the HTTP client of a Chainlink node.
pub mod Models
pub mod Web
pub mod Requests
pub mod Session
pub mod Endpoints
pub mod Main
