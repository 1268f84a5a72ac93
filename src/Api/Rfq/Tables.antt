-- ===== src/Api/Rfq/Tables.antt =====
-- apps/api/src/db.ts: the tables of an RFQ, and the queries on them. The payload of a quote and all times
-- are left out; the newest row of a table comes first.
use shade.Shared.{
  ℕ, String, Bool, true, not, List, ◌∷◌, Option, none, some, ◌==◌, ltb, if◌then◌else◌,
}
use shade.Api.Sql.{first, any_row, update_rows}
use shade.Api.Store.{Activity}

pub record EncryptedShare : Type 0 where
  pub node_id : String
  pub ciphertext : String
  pub nonce : String
  pub sender_pubkey : String

-- What the schema lets through of an intent.
pub record IntentBody : Type 0 where
  pub input_asset : String
  pub output_asset : String
  pub amount_commitment : String
  pub min_output_commitment : String
  pub expiry_ledger : ℕ
  pub compliance_policy_id : String
  pub signature : String
  pub note_nullifier : Option String
  pub note_commitment : Option String
  pub recipient_commitment : Option String
  pub encrypted_shares : List EncryptedShare

pub record IntentRow : Type 0 where
  pub intent_hash : String
  pub idempotency_key : String
  pub public_commitment : IntentBody
  pub expiry_ledger : ℕ
  pub policy_id : String
  pub user_signature : String
  pub user_id : Option String
  pub state : String
  pub mpc_session_id : Option String

pub record MpcIntentRow : Type 0 where
  pub intent_id : String
  pub session_id : String
  pub user_id : String
  pub note_nullifier : String
  pub note_commitment : String
  pub recipient_commitment : String
  pub status : String

pub record ShareRow : Type 0 where
  pub intent_id : String
  pub share : EncryptedShare

pub record QuoteRow : Type 0 where
  pub quote_id : String
  pub intent_hash : String
  pub quote_hash : String
  pub solver_id : String
  pub quote_signature : String
  pub valid_until_ledger : ℕ
  pub state : String

pub record AcceptanceRow : Type 0 where
  pub acceptance_id : String
  pub quote_id : String
  pub intent_hash : String
  pub user_signature_hash : String
  pub user_id : String

pub record LockRow : Type 0 where
  pub lock_id : String
  pub quote_id : String
  pub solver_id : String
  pub lock_hash : String
  pub state : String

pub record FillRow : Type 0 where
  pub fill_id : String
  pub quote_id : String
  pub fill_receipt_hash : String
  pub destination_tx_hash : Option String
  pub amount : String
  pub recipient : String
  pub state : String

pub record SettlementRow : Type 0 where
  pub settlement_id : String
  pub intent_hash : String
  pub quote_id : String
  pub fill_id : Option String
  pub proof_job_id : String
  pub nullifier : String
  pub user_id : Option String
  pub state : String

pub record ProofRow : Type 0 where
  pub proof_job_id : String
  pub status : String

pub record Transition : Type 0 where
  pub entity_type : String
  pub entity_id : String
  pub to_state : String
  pub tx_hash : Option String

pub record Tables : Type 0 where
  pub intents : List IntentRow
  pub mpc_sessions : List String
  pub mpc_intents : List MpcIntentRow
  pub mpc_shares : List ShareRow
  pub quotes : List QuoteRow
  pub acceptances : List AcceptanceRow
  pub locks : List LockRow
  pub fills : List FillRow
  pub settlements : List SettlementRow
  pub proof_jobs : List ProofRow
  pub nullifier_spends : List String
  pub transitions : List Transition
  pub activity : List Activity
  pub critical_findings : ℕ

-- `transition`
abbrev pub transition : String → String → String → Option String → Tables → Tables
transition entity_type entity_id to_state tx_hash t = record t {
  transitions =
      record {
        entity_type = entity_type;
        entity_id = entity_id;
        to_state = to_state;
        tx_hash = tx_hash;
      }
      ∷ t.transitions;
}

-- `logActivity`
abbrev pub log : String → String → String → Tables → Tables
log user_id event_type entity_id t = record t {
  activity =
      record { user_id = user_id; event_type = event_type; entity_id = entity_id } ∷ t.activity;
}

-- `assertRootHealthy`: whether it passes.
unfoldable pub root_healthy : Tables → Bool
root_healthy t = not (ltb 0 t.critical_findings)

abbrev pub has_intent : String → IntentRow → Bool
has_intent intent_hash r = r.intent_hash == intent_hash

abbrev pub has_quote : String → QuoteRow → Bool
has_quote quote_id r = r.quote_id == quote_id

abbrev pub accepts : String → AcceptanceRow → Bool
accepts quote_id r = r.quote_id == quote_id

abbrev pub fills_quote : String → FillRow → Bool
fills_quote quote_id r = r.quote_id == quote_id

abbrev pub has_proof : String → ProofRow → Bool
has_proof proof_job_id r = r.proof_job_id == proof_job_id

-- What `rfqLifecycle` reads.
pub record Lifecycle : Type 0 where
  pub intent : Option IntentRow
  pub quote : Option QuoteRow
  pub accepted : Bool
  pub fill : Option FillRow

unfoldable pub rfq_lifecycle : String → String → Tables → Lifecycle
unfolding first any_row
rfq_lifecycle intent_hash quote_id t = record {
  intent = first (has_intent intent_hash) t.intents;
  quote = first (has_quote quote_id) t.quotes;
  accepted = any_row (accepts quote_id) t.acceptances;
  fill = first (fills_quote quote_id) t.fills;
}

-- `isNullifierSpent`, on a table that can be read.
unfoldable pub is_nullifier_spent : String → Tables → Bool
unfolding any_row
is_nullifier_spent nullifier t = any_row (λ spent. spent == nullifier) t.nullifier_spends

-- Whether the user may act on a row: it has no owner, or the user is the owner.
abbrev pub may_act : String → Option String → Bool
may_act user_id none = true
may_act user_id (some owner) = owner == user_id

-- `requireOwnedIntent`: none where it passes, or the code of the error.
unfoldable pub require_owned_intent : String → Option IntentRow → Option ℕ
require_owned_intent user_id none = some 404
require_owned_intent user_id (some r) = if may_act user_id r.user_id then none else some 403

unfoldable pub executed : String → FillRow → FillRow
executed tx_hash r = record r { destination_tx_hash = some tx_hash; state = "EXECUTED" }

-- `executeFill`: whether the fill is there, and the table after it.
unfoldable pub execute_fill : String → String → List FillRow → Bool × List FillRow
unfolding any_row update_rows executed
execute_fill fill_id tx_hash rows = (
  any_row (λ r. r.fill_id == fill_id) rows,
  update_rows (λ r. r.fill_id == fill_id) (executed tx_hash) rows,
)
