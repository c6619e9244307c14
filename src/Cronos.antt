-- ===== src/Cronos.antt =====
-- x/cronos: the mapping between coin denominations and token contracts, who may change it, and the
-- conversion between coins of the bank and tokens of the EVM.
mod Types
mod Denoms
mod Environment
mod Keeper
mod Admin
mod Msgs
mod Evm
mod Ibc
mod Hooks
mod Middleware
mod Callbacks
mod Transactions
mod Queries
mod Genesis
mod Migration
pub mod Mapping
pub mod Backing
pub mod Logs
mod Example
pub mod Commands
mod Tests
pub use Types.*
unfoldable pub use Denoms.*
pub use Environment.*
unfoldable pub use Keeper.*
unfoldable pub use Admin.*
unfoldable pub use Msgs.*
unfoldable pub use Evm.*
unfoldable pub use Ibc.*
unfoldable pub use Hooks.*
unfoldable pub use Middleware.*
unfoldable pub use Callbacks.*
unfoldable pub use Transactions.*
unfoldable pub use Queries.*
unfoldable pub use Genesis.*
unfoldable pub use Migration.*
