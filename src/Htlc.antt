-- ===== src/Htlc.antt =====
-- The x/htlc-com module: hashed time-locked contracts held by the module's account.
mod Types
mod Environment
mod Keeper
pub mod Msgs
pub mod View
pub mod Handlers
pub mod Sums
pub mod Solvency
pub mod Payout
pub mod Transactions
pub mod Queries
pub mod Example
pub mod Commands
mod Tests
pub use Types.*
pub use Environment.*
unfoldable pub use Keeper.*
