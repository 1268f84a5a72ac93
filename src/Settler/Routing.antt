-- ===== src/Settler/Routing.antt =====
-- Which matches of a batch the settler takes: those that no RFQ intent is part of.
use shade.Shared.{
  ℕ, suc, ◌+◌, String, ◌≡◌, refl, subst, ◌⊎◌, inl, inr, true, false, List, [], ◌∷◌, some, Mem,
  arith, ◌==◌, eq_iff, Bool-cases, All, All-map, All-Mem, get_elem?, ltb, or-false_left,
  or-false_right,
}
use shade.Queue.{ServiceJob, Tables, new_job}
use shade.Queue.Keys.{enqueue-All}
use shade.Settler.Retry.{settle_key-given}
use shade.Settler.{
  MatchRow, BatchRow, IntentRow, SettlePayload, Database, is_rfq_routed, settle_payload, settle_key,
  skips, queue_matches, queue_settlement_jobs, set_settlement_status,
}

-- The job of one match of the batch, neither side of which has a row in `intents`.
abbrev pub ForMatch :
    {R : Type 0}
    → (String → String)
    → ℕ
    → List String
    → List IntentRow
    → BatchRow
    → ServiceJob SettlePayload R
    → Type 0
ForMatch fresh now hashes intents batch j =
    (i : ℕ) × (m : MatchRow) × (get_elem? batch.matches_json i ≡ some m)
    × (is_rfq_routed hashes m.intent_a_id ≡ false)
    × (is_rfq_routed hashes m.intent_b_id ≡ false)
    × (j
        ≡ new_job (fresh (settle_key batch i)) now "relayer" "MPC_SETTLE_SUBMIT"
            (settle_payload intents batch i m) (some (settle_key batch i)))

module _ {R : Type 0} (fresh : String → String) (now : ℕ) (hashes : List String)
    (intents : List IntentRow) (batch : BatchRow) (Q : ServiceJob SettlePayload R → Type 0)
    (mine : (j : ServiceJob SettlePayload R)
      → ForMatch fresh now hashes intents batch j
      → Q j) where
  queue_matches-All :
      (i : ℕ) (ms : List MatchRow) (t : Tables SettlePayload R)
      → ((k : ℕ) (m : MatchRow)
          → get_elem? ms k ≡ some m
          → get_elem? batch.matches_json (i + k) ≡ some m)
      → All Q t.jobs
      → All Q (queue_matches fresh now hashes intents batch i ms t).1.jobs
  unfolding queue_matches
  queue_matches-All i [] t at h = h
  queue_matches-All i (m ∷ ms) t at h =
      let later : (k : ℕ) (m' : MatchRow)
          → get_elem? ms k ≡ some m'
          → get_elem? batch.matches_json (i + 1 + k) ≡ some m' =
        λ k m' e.
          subst (λ n. get_elem? batch.matches_json n ≡ some m') (omega arith) (at (suc k) m' e) in
      elim (Bool-cases (skips hashes m)) [
        | inl out ↦ rw (out, queue_matches) (queue_matches-All (i + 1) ms t later h)
        | inr here ↦
            rw (here, queue_matches)
              (queue_matches-All (i + 1) ms _ later (
                enqueue-All t (settle_key batch i) (settle_key-given batch i)
                  (fresh (settle_key batch i)) now "relayer" "MPC_SETTLE_SUBMIT"
                  (settle_payload intents batch i m) Q h
                  (mine _ (
                    i,
                    m,
                    subst (λ n. get_elem? batch.matches_json n ≡ some m) (omega arith)
                        (at 0 m refl),
                    or-false_left _ _ (unfold skips in here),
                    or-false_right _ _ (unfold skips in here),
                    refl,
                  ))))
      ]

-- Every job after the dispatch of a batch was there before, or is the job of one of its matches that
-- no RFQ intent is part of: the others settle by `rfq_settle` alone.
pub queue_settlement_jobs-All :
    {R : Type 0} (fresh : String → String) (now : ℕ) (batch : BatchRow) (db : Database R)
    → All
        (λ j. Mem j db.tables.jobs ⊎ ForMatch fresh now db.intent_hashes db.mpc_intents batch j)
        (queue_settlement_jobs fresh now batch db).tables.jobs
unfolding queue_settlement_jobs
queue_settlement_jobs-All fresh now batch db =
    queue_matches-All fresh now db.intent_hashes db.mpc_intents batch
      (λ j. Mem j db.tables.jobs ⊎ ForMatch fresh now db.intent_hashes db.mpc_intents batch j)
      (λ j h. inr h) 0 batch.matches_json db.tables
      (λ k m e. subst (λ n. get_elem? batch.matches_json n ≡ some m) (omega arith) e)
      (All-map (λ j. Mem j db.tables.jobs)
        (λ j. Mem j db.tables.jobs ⊎ ForMatch fresh now db.intent_hashes db.mpc_intents batch j)
        (λ j h. inl h) db.tables.jobs (All-Mem db.tables.jobs))

module _ {R : Type 0} (fresh : String → String) (now : ℕ) (hashes : List String)
    (intents : List IntentRow) (batch : BatchRow) where
  queue_matches-none :
      (i : ℕ) (ms : List MatchRow) (t : Tables SettlePayload R)
      → (queue_matches fresh now hashes intents batch i ms t).0 ≡ 0
      → All (λ m. skips hashes m ≡ true) ms
  unfolding queue_matches
  queue_matches-none i [] t e = tt
  queue_matches-none i (m ∷ ms) t e = elim (Bool-cases (skips hashes m)) [
    | inl out ↦ (out, queue_matches-none (i + 1) ms t (rw (out, queue_matches) at e))
    | inr mine ↦ absurd (let e' = rw (mine, queue_matches) at e in omega arith)
  ]

  queue_matches-skipped :
      (i : ℕ) (ms : List MatchRow) (t : Tables SettlePayload R)
      → All (λ m. skips hashes m ≡ true) ms
      → (queue_matches fresh now hashes intents batch i ms t).0 ≡ 0
  unfolding queue_matches
  queue_matches-skipped i [] t h = refl
  queue_matches-skipped i (m ∷ ms) t h =
      rw (h.0, queue_matches) (queue_matches-skipped (i + 1) ms t h.1)

set_settlement_status-All :
    (id status : String) (batches : List BatchRow)
    → All
        (λ b. b.batch_id ≡ id → b.settlement_status ≡ status)
        (set_settlement_status id status batches)
unfolding set_settlement_status
set_settlement_status-All id status [] = tt
set_settlement_status-All id status (b ∷ batches) = (
  elim (Bool-cases (b.batch_id == id)) [
    | inl hit ↦ rw hit (λ e. refl)
    | inr miss ↦ rw miss (λ e. ground (arith, eq_iff b.batch_id id))
  ],
  set_settlement_status-All id status batches,
)

-- After the dispatch of a batch its rows are no longer pending: they are `rfq_routed` if every match
-- has an RFQ intent on some side, and `queued` if some match has none.
pub queue_settlement_jobs-status :
    {R : Type 0} (fresh : String → String) (now : ℕ) (batch : BatchRow) (db : Database R)
    → All
        (λ b.
          b.batch_id ≡ batch.batch_id
          → ((b.settlement_status ≡ "rfq_routed")
              × All (λ m. skips db.intent_hashes m ≡ true) batch.matches_json)
            ⊎ ((b.settlement_status ≡ "queued")
                × ¬ (All (λ m. skips db.intent_hashes m ≡ true) batch.matches_json)))
        (queue_settlement_jobs fresh now batch db).batches
unfolding queue_settlement_jobs
queue_settlement_jobs-status fresh now batch db =
    let queued =
      (queue_matches fresh now db.intent_hashes db.mpc_intents batch 0 batch.matches_json
        db.tables).0 in
    elim (Bool-cases (ltb 0 queued)) [
      | inl some_left ↦ rw some_left (
          All-map _ _
            (λ b h e. inr (
              h e,
              λ out.
                  let z =
                    queue_matches-skipped fresh now db.intent_hashes db.mpc_intents batch 0
                      batch.matches_json db.tables out in
                  ground arith,
            ))
            _ (set_settlement_status-All batch.batch_id "queued" db.batches))
      | inr none_left ↦ rw none_left (
          All-map _ _
            (λ b h e. inl (
              h e,
              queue_matches-none fresh now db.intent_hashes db.mpc_intents batch 0
                  batch.matches_json db.tables (ground arith),
            ))
            _ (set_settlement_status-All batch.batch_id "rfq_routed" db.batches))
    ]
