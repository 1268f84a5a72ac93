-- ===== src/Vault.antt =====
-- packages/note-vault/src/index.ts: the note vault, and the gates that keep its secrets out of what is
-- stored or logged. A JSON value is a tree; an object's fields are in the order of `Object.entries`,
-- with each key once.
pub mod Json
pub mod Gate
pub mod Redact
pub mod Notes
pub mod Envelope
pub mod Recovered
pub mod Validate
mod Tests
