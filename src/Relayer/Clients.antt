-- ===== src/Relayer/Clients.antt =====
-- relayer/pkg/ethereum_client and relayer/pkg/cronos_client: what the relayer reads of the two chains and
-- sends to them.
pub mod Ethereum
pub mod Cronos
pub mod Waiting
pub mod Reported
pub mod Account
mod Tests
