-- ===== src/Sdk/Example.antt =====
-- A small platform on which the hypotheses of the theorems hold: an association list as the store,
-- a bank of one denomination, and codecs. Only the examples use it.
pub mod Memory
pub mod Ledger
pub mod Codec
