-- ===== src/Precompiles.antt =====
-- x/cronos/keeper/precompiles: the contracts of the EVM that call the bank, IBC and the interchain
-- accounts. What a native action wrote is undone if it fails, so an error carries no state.
mod Input
pub mod Bank
pub mod Relayer
pub mod Ica
mod Example
mod Tests
