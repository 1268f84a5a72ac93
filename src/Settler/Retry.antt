-- ===== src/Settler/Retry.antt =====
-- A batch that is dispatched twice is queued once: what the idempotency keys of the jobs are for.
use Prim.Native.String.append
use Prim.Native.String.compare
use shade.Shared.{ℕ, ◌+◌, String, ◌≡◌, refl, inl, inr, false, List, [], ◌∷◌, some, ◌==◌, Bool-cases}
use shade.Queue.{ServiceJob, Tables, find_by_key}
use shade.Queue.Keys.{enqueue-known, find-enqueue, find-enqueue_keeps}
use shade.Settler.{
  MatchRow, BatchRow, IntentRow, SettlePayload, Database, settle_payload, settle_key, skips,
  queue_matches, queue_settlement_jobs,
}

pub settle_key-given : (batch : BatchRow) (i : ℕ) → (settle_key batch i == "") ≡ false
unfolding settle_key
settle_key-given batch i = rw (append.cons, compare.cons-nil) refl

module _ {R : Type 0} (hashes : List String) (intents : List IntentRow) (batch : BatchRow) where
  -- Every match that this path settles has a job.
  HasJobs : ℕ → List MatchRow → Tables SettlePayload R → Type 0
  HasJobs i [] t = Unit
  HasJobs i (m ∷ ms) t =
      (skips hashes m ≡ false
        → (j : ServiceJob SettlePayload R) × (find_by_key (settle_key batch i) t.jobs ≡ some j))
      × HasJobs (i + 1) ms t

  queue_matches-known :
      (fresh : String → String) (now i : ℕ) (ms : List MatchRow) (t : Tables SettlePayload R)
      → HasJobs i ms t
      → (queue_matches fresh now hashes intents batch i ms t).1 ≡ t
  unfolding queue_matches HasJobs
  queue_matches-known fresh now i [] t h = refl
  queue_matches-known fresh now i (m ∷ ms) t h = elim (Bool-cases (skips hashes m)) [
    | inl out ↦ rw (out, queue_matches) (queue_matches-known fresh now (i + 1) ms t h.1)
    | inr mine ↦
        let (j, e) = h.0 mine in
        rw
          (
            mine,
            queue_matches,
            enqueue-known t (settle_key batch i) (settle_key-given batch i)
                (fresh (settle_key batch i)) now "relayer" "MPC_SETTLE_SUBMIT"
                (settle_payload intents batch i m) j e,
          )
          (queue_matches-known fresh now (i + 1) ms t h.1)
  ]

  module _ (fresh : String → String) (now : ℕ) where
    find-queue_matches :
        (i : ℕ) (ms : List MatchRow) (t : Tables SettlePayload R) (key : String)
        (j : ServiceJob SettlePayload R)
        → find_by_key key t.jobs ≡ some j
        → find_by_key key (queue_matches fresh now hashes intents batch i ms t).1.jobs ≡ some j
    unfolding queue_matches
    find-queue_matches i [] t key j e = e
    find-queue_matches i (m ∷ ms) t key j e = elim (Bool-cases (skips hashes m)) [
      | inl out ↦ rw (out, queue_matches) (find-queue_matches (i + 1) ms t key j e)
      | inr mine ↦
          rw (mine, queue_matches)
            (find-queue_matches (i + 1) ms _ key j (
              find-enqueue_keeps t (settle_key batch i) (settle_key-given batch i)
                (fresh (settle_key batch i)) now "relayer" "MPC_SETTLE_SUBMIT"
                (settle_payload intents batch i m) key j e))
    ]

    queue_matches-HasJobs :
        (i : ℕ) (ms : List MatchRow) (t : Tables SettlePayload R)
        → HasJobs i ms (queue_matches fresh now hashes intents batch i ms t).1
    unfolding queue_matches HasJobs
    queue_matches-HasJobs i [] t = tt
    queue_matches-HasJobs i (m ∷ ms) t = elim (Bool-cases (skips hashes m)) [
      | inl out ↦ rw (out, queue_matches) (λ mine. absurd (cc), queue_matches-HasJobs (i + 1) ms t)
      | inr mine ↦
          let (j, e) =
            find-enqueue t (settle_key batch i) (settle_key-given batch i)
              (fresh (settle_key batch i)) now "relayer" "MPC_SETTLE_SUBMIT"
              (settle_payload intents batch i m) in
          rw (mine, queue_matches)
            (
              λ _. (j, find-queue_matches (i + 1) ms _ (settle_key batch i) j e),
              queue_matches-HasJobs (i + 1) ms _,
            )
    ]

-- Dispatching a batch again, at any later time and whatever became of its row in `mpc_batches`,
-- changes nothing in the queue if nothing else did.
pub queue_settlement_jobs-again :
    {R : Type 0} (fresh fresh' : String → String) (now now' : ℕ) (batch : BatchRow)
    (db : Database R) (rows : List BatchRow)
    → let after = queue_settlement_jobs fresh now batch db in
      (queue_settlement_jobs fresh' now' batch (record after { batches = rows })).tables
      ≡ after.tables
unfolding queue_settlement_jobs
queue_settlement_jobs-again fresh fresh' now now' batch db rows =
    queue_matches-known db.intent_hashes db.mpc_intents batch fresh' now' 0 batch.matches_json _ (
      queue_matches-HasJobs db.intent_hashes db.mpc_intents batch fresh now 0 batch.matches_json
        db.tables)
