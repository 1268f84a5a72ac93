-- ===== src/Api.antt =====
-- apps/api: the routes for note vaults, deposits, sign-in, RFQs, spends and reports, on their tables.
pub mod Recovery
pub mod Store
pub mod Vaults
pub mod Deposits
pub mod Ownership
pub mod Gates
pub mod SignIn
pub mod Sql
pub mod Rfq
pub mod Spend
pub mod Reports
mod Tests
