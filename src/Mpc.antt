-- ===== src/Mpc.antt =====
-- The matching committee: apps/mpc-committee and packages/mpc-crypto.
pub mod Matching
pub mod Priced
pub mod Batch
pub mod Shamir
pub mod Session
pub mod Round
pub mod Node
pub mod Network
pub mod Coordinator
mod Tests
