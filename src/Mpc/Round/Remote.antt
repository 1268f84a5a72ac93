-- ===== src/Mpc/Round/Remote.antt =====
-- What a matching round over the network leaves behind.
use shade.Shared.{
  ℕ, ◌≤◌, String, ◌≡◌, refl, inl, inr, List, Option, arith, ltb, ltb→lt, length, Bool-cases,
  Option-cases,
}
use shade.Mpc.Matching.{AmountSort, MatchResult, match_intents}
use shade.Mpc.Batch.{SignedMatchBatch, NodeSignature, Crypto, threshold}
use shade.Mpc.Session.{SessionState, matching}
use shade.Mpc.Round.Defs.{
  DecryptReply, done, reconstruct_intents, sign_round, answers, store_replies, match_and_collect,
  run_matching_round_remote,
}
use shade.Mpc.Round.Outcome.{Agrees}

module _ (c : Crypto) (sorts : AmountSort) (batch_id : String)
    (asked : List MatchResult → List (Option NodeSignature)) where
  collect-done :
      (nodes : List String) (n need : ℕ) (s : SessionState) (batch : SignedMatchBatch)
      → (match_and_collect c sorts batch_id asked n need nodes s).1 ≡ done batch
      → let matches = match_intents sorts (reconstruct_intents nodes s.shares s.intents).0 in
        (batch ≡ sign_round c batch_id s.session_id matches (answers (asked matches)))
        × (need ≤ length (answers (asked matches)))
  unfolding match_and_collect
  collect-done nodes n need s batch e = ground arith

  collect-Agrees :
      (nodes : List String) (n need : ℕ) (s t : SessionState)
      → t.signed_batch ≡ s.signed_batch
      → t.intents ≡ s.intents
      → t.session_id ≡ s.session_id
      → 2 ≤ length s.intents
      → Agrees s (match_and_collect c sorts batch_id asked n need nodes t)
  unfolding match_and_collect
  collect-Agrees nodes n need s t hb hi hs h =
      elim (Option-cases (reconstruct_intents nodes t.shares t.intents).1) [
        | inr (i, e) ↦ rw (e, match_and_collect) (refl, hb, hi, hs, h)
        | inl e ↦
            elim (Bool-cases (
              ltb
                (length (
                  answers
                    (asked (match_intents sorts (reconstruct_intents nodes t.shares t.intents).0))))
                need)) [
                  | inl few ↦ rw (e, few, match_and_collect) (refl, hb, hi, hs, h)
                  | inr many ↦ rw (e, many, match_and_collect) (refl, refl, hi, hs, h)
                ]
      ]

  -- A round over the network of fewer than two intents is refused and changes nothing. Any other ends with
  -- the session `signed`, the batch stored in it and returned under the session's id, or with the session
  -- `failed` and whatever batch it held before; the intents stay as they were.
  pub remote-Agrees :
      (decrypted : List (Option DecryptReply)) (s : SessionState) (nodes : List String)
      → Agrees s (run_matching_round_remote c sorts batch_id decrypted asked s nodes)
  unfolding run_matching_round_remote
  remote-Agrees decrypted s nodes = elim (Bool-cases (ltb (length s.intents) 2)) [
    | inl few ↦ rw (few, run_matching_round_remote) (refl, ltb→lt _ 2 few)
    | inr enough ↦ elim (Bool-cases (ltb (length (answers decrypted)) (threshold (length nodes)))) [
      | inl down ↦
          rw (enough, down, run_matching_round_remote) (refl, refl, refl, refl, ground arith)
      | inr up ↦
          rw (enough, up, run_matching_round_remote)
            (collect-Agrees nodes (length nodes) (threshold (length nodes)) s
              (record s { status = matching; shares = store_replies s.shares (answers decrypted) })
              refl refl refl (ground arith))
    ]
  ]

  -- A batch that a round over the network returns is what `matchIntents` makes of some amounts, with the
  -- signatures that came in, and these are as many as the threshold asks for.
  pub remote-done :
      (decrypted : List (Option DecryptReply)) (s : SessionState) (nodes : List String)
      (batch : SignedMatchBatch)
      → (run_matching_round_remote c sorts batch_id decrypted asked s nodes).1 ≡ done batch
      → let shares = store_replies s.shares (answers decrypted) in
        let matches = match_intents sorts (reconstruct_intents nodes shares s.intents).0 in
        (batch ≡ sign_round c batch_id s.session_id matches (answers (asked matches)))
        × (threshold (length nodes) ≤ length (answers (asked matches)))
  unfolding run_matching_round_remote
  remote-done decrypted s nodes batch e = elim (Bool-cases (ltb (length s.intents) 2)) [
    | inl few ↦ absurd (cc (rw (few, run_matching_round_remote) at e))
    | inr enough ↦ elim (Bool-cases (ltb (length (answers decrypted)) (threshold (length nodes)))) [
      | inl down ↦ absurd (cc (rw (enough, down, run_matching_round_remote) at e))
      | inr up ↦
          collect-done nodes (length nodes) (threshold (length nodes))
            (record s { status = matching; shares = store_replies s.shares (answers decrypted) })
            batch (rw (enough, up, run_matching_round_remote) at e)
    ]
  ]
