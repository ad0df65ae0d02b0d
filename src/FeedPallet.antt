-- ===== src/FeedPallet.antt =====
-- The pallet of pallet-chainlink-feed/src/lib.rs.
pub mod Types
pub mod Effects
pub mod Median
pub mod Feed
pub mod Submit
pub mod Owners
pub mod Funds
pub mod Feeds
pub mod Interface
pub mod Genesis
pub mod Calls
