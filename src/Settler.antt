-- ===== src/Settler.antt =====
-- apps/mpc-committee/src/settler.ts and persist.ts: signed batches become jobs of the relayer.
-- The tables `mpc_batches`, `mpc_intents` and `intents` are lists of the columns that are read, in
-- the order of their creation. Rows of `matches_json` and `signatures_json` come parsed.
pub mod Persist
pub mod Retry
pub mod Routing
pub mod Tests
use Prim.Native.String.{◌++◌}
use shade.Shared.Texts.{printed}
use shade.Shared.{
  ℕ, zero, suc, ◌+◌, String, Bool, true, false, ◌||◌, List, [], ◌∷◌, map, Option, none, some, ltb,
  member, length, ◌==◌, if◌then◌else◌,
}
use shade.Mpc.Matching.{MatchResult}
use shade.Mpc.Batch.{NodeSignature}
use shade.Queue.{Tables, enqueue}

-- A row of `matches_json` is a stored `MatchResult`, whose amount is the text of its number.
abbrev pub MatchRow : Type 0
MatchRow = MatchResult

pub record BatchRow : Type 0 where
  pub batch_id : String
  pub session_id : String
  pub batch_hash : String
  pub matches_json : List MatchRow
  pub signatures_json : List NodeSignature
  pub settlement_status : String

pub record IntentRow : Type 0 where
  pub intent_id : String
  pub note_nullifier : String
  pub note_commitment : String
  pub recipient_commitment : String

-- The payload of an MPC_SETTLE_SUBMIT job.
pub record SettlePayload : Type 0 where
  pub batch_id : String
  pub batch_hash : String
  pub signatures : List NodeSignature
  pub match_index : ℕ
  pub session_id : String
  pub intent_a_id : String
  pub intent_b_id : String
  pub matched_amount7dp : ℕ
  pub input_asset : String
  pub output_asset : String
  pub nullifier_a : Option String
  pub nullifier_b : Option String
  pub output_commitment_a : Option String
  pub output_commitment_b : Option String

-- `intent_hashes` is the column `intent_hash` of `intents`.
pub record Database (R : Type 0) : Type 0 where
  pub batches : List BatchRow
  pub mpc_intents : List IntentRow
  pub intent_hashes : List String
  pub tables : Tables SettlePayload R

unfoldable pub fetch_intent_note : List IntentRow → String → Option IntentRow
fetch_intent_note [] intent_id = none
fetch_intent_note (r ∷ rows) intent_id =
    if r.intent_id == intent_id then some r else fetch_intent_note rows intent_id

unfoldable pub is_rfq_routed : List String → String → Bool
is_rfq_routed intent_hashes intent_id = member intent_id intent_hashes

abbrev nullifier_of : Option IntentRow → Option String
nullifier_of none = none
nullifier_of (some r) = some r.note_nullifier

abbrev recipient_of : Option IntentRow → Option String
recipient_of none = none
recipient_of (some r) = some r.recipient_commitment

unfoldable pub settle_payload : List IntentRow → BatchRow → ℕ → MatchRow → SettlePayload
unfolding fetch_intent_note
settle_payload intents batch i m =
    let note_a = fetch_intent_note intents m.intent_a_id in
    let note_b = fetch_intent_note intents m.intent_b_id in
    record {
      batch_id = batch.batch_id;
      batch_hash = batch.batch_hash;
      signatures = batch.signatures_json;
      match_index = i;
      session_id = batch.session_id;
      intent_a_id = m.intent_a_id;
      intent_b_id = m.intent_b_id;
      matched_amount7dp = m.matched_amount7dp;
      input_asset = m.input_asset;
      output_asset = m.output_asset;
      nullifier_a = nullifier_of note_a;
      nullifier_b = nullifier_of note_b;
      output_commitment_a = recipient_of note_a;
      output_commitment_b = recipient_of note_b;
    }

-- `mpc_settle:${batch.batch_id}:${i}`
unfoldable pub settle_key : BatchRow → ℕ → String
settle_key batch i = "mpc_settle:" ++ (batch.batch_id ++ (":" ++ printed i))

unfoldable pub skips : List String → MatchRow → Bool
unfolding is_rfq_routed
skips hashes m = is_rfq_routed hashes m.intent_a_id || is_rfq_routed hashes m.intent_b_id

-- `fresh` and `now` are the id and the time that the queue's table gives a new row.
module _ {R : Type 0} (fresh : String → String) (now : ℕ) (hashes : List String)
    (intents : List IntentRow) where
  -- The loop over the matches from index `i` on, with the number of jobs queued.
  unfoldable pub queue_matches :
      BatchRow → ℕ → List MatchRow → Tables SettlePayload R → ℕ × Tables SettlePayload R
  unfolding settle_key skips settle_payload
  queue_matches batch i [] t = (0, t)
  queue_matches batch i (m ∷ ms) t = elim (skips hashes m) [
    | true ↦ queue_matches batch (i + 1) ms t
    | false ↦
        let key = settle_key batch i in
        let t' =
          (enqueue t (fresh key) now "relayer" "MPC_SETTLE_SUBMIT"
            (settle_payload intents batch i m) (some key)).1 in
        let (queued, after) = queue_matches batch (i + 1) ms t' in (queued + 1, after)
  ]

-- `UPDATE mpc_batches SET settlement_status=$2 … WHERE batch_id=$1`
unfoldable pub set_settlement_status : String → String → List BatchRow → List BatchRow
set_settlement_status id status [] = []
set_settlement_status id status (b ∷ batches) =
    (if b.batch_id == id then record b { settlement_status = status } else b)
    ∷ set_settlement_status id status batches

-- The pending batches in the order of their creation, `LIMIT 50`.
unfoldable pub pending_batches : ℕ → List BatchRow → List BatchRow
pending_batches limit [] = []
pending_batches zero (b ∷ batches) = []
pending_batches (suc limit) (b ∷ batches) = elim (b.settlement_status == "pending") [
  | true ↦ b ∷ pending_batches limit batches
  | false ↦ pending_batches (suc limit) batches
]

module _ {R : Type 0} (fresh : String → String) (now : ℕ) where
  unfoldable pub queue_settlement_jobs : BatchRow → Database R → Database R
  unfolding queue_matches set_settlement_status
  queue_settlement_jobs batch db =
      let (queued, t) =
        queue_matches fresh now db.intent_hashes db.mpc_intents batch 0 batch.matches_json
          db.tables in
      let status = if ltb 0 queued then "queued" else "rfq_routed" in
      record db { batches = set_settlement_status batch.batch_id status db.batches; tables = t }

  unfoldable pub queue_all : List BatchRow → Database R → Database R
  unfolding queue_settlement_jobs
  queue_all [] db = db
  queue_all (b ∷ batches) db = queue_all batches (queue_settlement_jobs b db)

  unfoldable pub settle_once : Database R → ℕ × Database R
  unfolding pending_batches queue_all
  settle_once db = let rows = pending_batches 50 db.batches in (length rows, queue_all rows db)
