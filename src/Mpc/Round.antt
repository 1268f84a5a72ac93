-- ===== src/Mpc/Round.antt =====
-- apps/mpc-committee/src/coordinator.ts and remote-coordinator.ts: one matching round of a
-- session, in one process and over the network. `nacl.box.open`, the batch id and the answers of
-- the nodes are arguments. A session is changed in place, so a round returns the session too.
mod Defs
pub mod Outcome
pub mod Privacy
pub mod Remote
pub mod Tests
pub use Defs.{Reason, CoordinatorResult, too_few_intents, decrypt_failed, not_enough_shares}
pub use Defs.{too_few_decrypted, too_few_signed, answers, done, refused, BoxOpen, DecryptReply}
unfoldable pub use Defs.{
  decrypt_nodes, reconstruct_intents, clear_nodes, sign_round, run_matching_round,
  run_matching_round_remote,
}
