-- ===== src/Relayer.antt =====
-- apps/relayer/src/worker.ts: the worker that brings the jobs of the queue "relayer" to the chains.
pub mod World
pub mod Settle
pub mod Job
pub mod Guards
pub mod Outcome
mod Tests
