-- ===== src/Cronos/Mapping.antt =====
-- The token mapping of x/cronos: its entries in the store, its setters, its invariant, the messages
-- and conversions that keep it, and who may change it.
pub mod Reads
pub mod Setters
pub mod Consistent
pub mod Messages
pub mod Lookup
pub mod Permitted
pub mod Conversions
pub mod Writes
pub mod Vouchers
pub mod History
pub mod Bootstrap
pub mod Answers
pub mod Exported
pub mod Migrated
mod Tests
