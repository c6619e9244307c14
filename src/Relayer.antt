-- ===== src/Relayer.antt =====
-- The relayer: orders of swaps between the two chains, their auction prices, the order manager that
-- creates and empties escrows, and the service that scans the chains for orders.
pub mod Types
pub mod Auction
mod Errors
pub mod Orders
pub mod Manager
pub mod Service
pub mod Clients
pub mod Statistics
pub mod Config
mod Tests
