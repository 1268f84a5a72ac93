-- ===== src/Api/Rfq.antt =====
-- apps/api/src/routes.ts: the routes of an RFQ, from the intent to its settlement.
pub mod Tables
pub mod Intents
pub mod Quotes
pub mod Settle
pub mod Allows
pub mod Gate
pub mod Complete
pub mod Owned
pub mod Keeps
pub mod Backed
pub mod Lifecycle
pub mod Accepts
mod Tests
