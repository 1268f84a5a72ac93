-- ===== src/Mpc/Batch.antt =====
-- packages/mpc-crypto/src/committee.ts: the hash, the signatures and the verification of a match
-- batch. The hash function and tweetnacl are not the program's: they are the record `Crypto`.
mod Defs
pub mod Verify
pub mod Signing
pub mod Tests
pub use Defs.{Row, NodeSignature, SignedMatchBatch, CommitteeNodeInfo, NodeKeyPair, Crypto}
unfoldable pub use Defs.{
  to_row, row_key, insert_row, sort_rows, compute_batch_hash, sign_batch, verify_node_signature,
  threshold, check_signatures, verify_signed_batch, node_public_info,
}
