-- ===== src/Mpc/Round/Outcome.antt =====
-- What a matching round in one process leaves behind, whatever way it ends.
use shade.Shared.{
  ◌≤◌, ◌<◌, String, ◌≡◌, sym, ap, ◌∙◌, true, List, map, some, Nodup, arith, length, All,
}
use shade.Mpc.Matching.{AmountSort, match_intents, netted}
use shade.Mpc.Matching.Disjoint.{match_intents-Nodup}
use shade.Mpc.Batch.{
  SignedMatchBatch, NodeKeyPair, Crypto, node_public_info, sign_batch, verify_signed_batch,
}
use shade.Mpc.Batch.Signing.{IsPaired, publics, verify-sign_committee}
use shade.Mpc.Session.{SessionState, matching, signed, failed}
use shade.Mpc.Round.Defs.{
  CoordinatorResult, BoxOpen, too_few_intents, done, refused, decrypt_nodes, reconstruct_intents,
  clear_nodes, node_ids, match_and_sign, run_matching_round, sign_round,
}

-- The session and the answer of a round that began with the session `s`.
abbrev pub Agrees : SessionState → SessionState × CoordinatorResult → Type 0
Agrees s (t, refused too_few_intents) = (t ≡ s) × (length s.intents < 2)
Agrees s (t, refused _) =
    (t.status ≡ failed)
    × (t.signed_batch ≡ s.signed_batch)
    × (t.intents ≡ s.intents)
    × (t.session_id ≡ s.session_id)
    × (2 ≤ length s.intents)
Agrees s (t, done batch) =
    (t.status ≡ signed)
    × (t.signed_batch ≡ some batch)
    × (t.intents ≡ s.intents)
    × (batch.session_id ≡ s.session_id)
    × (2 ≤ length s.intents)

module _ (c : Crypto) (sorts : AmountSort) (batch_id : String) where
  pub match_and_sign-done :
      (nodes : List NodeKeyPair) (t : SessionState) (batch : SignedMatchBatch)
      → (match_and_sign c sorts batch_id nodes t).1 ≡ done batch
      → let matches =
          match_intents sorts (reconstruct_intents (node_ids nodes) t.shares t.intents).0 in
        (batch
          ≡ sign_round c batch_id t.session_id matches (map (sign_batch c batch_id matches) nodes))
        × ((match_and_sign c sorts batch_id nodes t).0.shares
            ≡ clear_nodes (node_ids nodes) t.shares)
  unfolding match_and_sign
  match_and_sign-done nodes t batch e = ground arith

  pub run-match_and_sign :
      (box_open : BoxOpen) (s : SessionState) (nodes : List NodeKeyPair) (batch : SignedMatchBatch)
      → (run_matching_round c sorts batch_id box_open s nodes).1 ≡ done batch
      → (t : SessionState) × (run_matching_round c sorts batch_id box_open s nodes
          ≡ match_and_sign c sorts batch_id nodes t)
  unfolding run_matching_round
  run-match_and_sign box_open s nodes batch e = (
    record s { status = matching; shares = (decrypt_nodes box_open nodes s.shares).0 },
    ground arith,
  )

-- A batch that a round returns passes `verifySignedBatch` for the committee of the nodes that ran
-- it, and settles no intent twice, if the keys of each node belong together and no two nodes
-- have the same public key.
pub run_matching_round-verifies :
    (c : Crypto) (sorts : AmountSort) (batch_id : String) (box_open : BoxOpen) (s : SessionState)
    (nodes : List NodeKeyPair) (batch : SignedMatchBatch)
    → (run_matching_round c sorts batch_id box_open s nodes).1 ≡ done batch
    → All (IsPaired c) nodes
    → Nodup (publics nodes)
    → (verify_signed_batch c batch (map node_public_info nodes) ≡ true)
      × Nodup (netted batch.matches)
run_matching_round-verifies c sorts batch_id box_open s nodes batch e paired distinct =
    let (t, same) = run-match_and_sign c sorts batch_id box_open s nodes batch e in
    let made =
      (match_and_sign-done c sorts batch_id nodes t batch
        (ap (λ (r : SessionState × CoordinatorResult). r.1) (sym same) ∙ e)).0 in
    rw made (
      verify-sign_committee c batch_id t.session_id _ _ nodes paired distinct,
      match_intents-Nodup sorts (reconstruct_intents (node_ids nodes) t.shares t.intents).0,
    )
