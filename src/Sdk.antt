-- ===== src/Sdk.antt =====
-- What the modules use of the Cosmos SDK, which is not part of the repository: the key-value store
-- of a module, the bank keeper, and accounts. Each is a record of operations, with a second record
-- of the documented behaviour that theorems take as a hypothesis.
pub mod Store
pub mod BankKeeper
pub mod Example
pub use Store.*
pub use BankKeeper.*
