-- ===== src/Api/Rfq/Settle.antt =====
-- apps/api/src/routes.ts: the routes of fills, and POST /v1/rfq/settle.
use shade.Shared.{
  ℕ, String, Bool, true, false, not, ◌&&◌, List, [], ◌∷◌, Option, none, some, ◌==◌, if◌then◌else◌,
}
use shade.Api.Vaults.{Reply, ok, error}
use shade.Api.Sql.{first, any_row, update_rows}
use shade.Api.Rfq.Intents.{truthy}
use shade.Api.Rfq.Tables.{
  IntentRow, FillRow, ProofRow, SettlementRow, Tables, Lifecycle, transition, log, root_healthy,
  has_intent, has_quote, has_proof, rfq_lifecycle, is_nullifier_spent, may_act, execute_fill,
}

pub record FillBody : Type 0 where
  pub quote_id : String
  pub fill_receipt_hash : String
  pub destination_tx_hash : Option String
  pub amount : String
  pub recipient : String

pub record SettleBody : Type 0 where
  pub intent_hash : String
  pub quote_id : String
  pub fill_id : Option String
  pub fill_receipt_hash : Option String
  pub proof_job_id : String
  pub nullifier : String

abbrev pub new_fill : String → FillBody → FillRow
new_fill fill_id b = record {
  fill_id = fill_id;
  quote_id = b.quote_id;
  fill_receipt_hash = b.fill_receipt_hash;
  destination_tx_hash = b.destination_tx_hash;
  amount = b.amount;
  recipient = b.recipient;
  state = "FILL_CREATED";
}

-- POST /v1/fills; `id_of` is `deterministicId` on the quote and the receipt's hash.
unfoldable pub create_fill :
    (String → String → String) → Option FillBody → Tables → Reply String × Tables
unfolding any_row
create_fill id_of none t = (error 400, t)
create_fill id_of (some b) t =
    let fill_id = id_of b.quote_id b.fill_receipt_hash in
    let created = transition "fill" fill_id "FILL_CREATED" none in
    if any_row (λ r. r.fill_id == fill_id) t.fills
    then (ok fill_id, created t)
    else if any_row (has_quote b.quote_id) t.quotes
    then (ok fill_id, created (record t { fills = new_fill fill_id b ∷ t.fills }))
    else (error 500, t)

-- POST /v1/fills/:fill_id/execute
unfoldable pub execute : String → Option String → Tables → Reply String × Tables
unfolding execute_fill
execute fill_id none t = (error 400, t)
execute fill_id (some tx_hash) t =
    let (hit, fills) = execute_fill fill_id tx_hash t.fills in
    let t' = record t { fills = fills } in
    if tx_hash == ""
    then (error 400, t)
    else if hit
    then (ok fill_id, transition "fill" fill_id "FILL_EXECUTED" (some tx_hash) t')
    else (error 404, t')

-- The guards of a settlement, in their order: none where one passes, or the code of the error.
abbrev pub check_intent : String → Lifecycle → Option ℕ
check_intent user_id lc = elim lc.intent [
  | none ↦ some 404
  | some i ↦ if may_act user_id i.user_id then none else some 403
]

abbrev pub check_quote : String → Lifecycle → Option ℕ
check_quote intent_hash lc = elim lc.quote [
  | none ↦ some 404
  | some q ↦
      if not (q.intent_hash == intent_hash)
      then some 409
      else if lc.accepted
      then none
      else some 409
]

abbrev pub receipt_differs : Option String → String → Bool
receipt_differs none found = false
receipt_differs (some given) found = not (given == "") && not (found == given)

abbrev pub check_fill : Option String → Lifecycle → Option ℕ
check_fill receipt lc = elim lc.fill [
  | none ↦ some 409
  | some f ↦
      if not (f.state == "EXECUTED")
      then some 409
      else if receipt_differs receipt f.fill_receipt_hash
      then some 409
      else none
]

abbrev pub check_proof : Option ProofRow → Option ℕ
check_proof none = some 409
check_proof (some p) = if p.status == "ready" then none else some 409

abbrev pub mpc_matched : String → Tables → Bool
mpc_matched intent_hash t =
    any_row (λ r. r.intent_id == intent_hash && r.status == "matched") t.mpc_intents

abbrev pub check_mpc : String → Option IntentRow → Tables → Option ℕ
check_mpc intent_hash none t = none
check_mpc intent_hash (some i) t =
    if truthy i.mpc_session_id && not (mpc_matched intent_hash t) then some 409 else none

abbrev pub check_nullifier : String → Tables → Option ℕ
check_nullifier nullifier t = if is_nullifier_spent nullifier t then some 409 else none

-- The first guard that fails.
unfoldable pub first_error : List (Option ℕ) → Option ℕ
first_error [] = none
first_error (none ∷ checks) = first_error checks
first_error (some code ∷ checks) = some code

unfoldable pub refusal : String → SettleBody → Tables → Option ℕ
unfolding first_error rfq_lifecycle first
refusal user_id b t =
    let lc = rfq_lifecycle b.intent_hash b.quote_id t in
    first_error (
      check_intent user_id lc
      ∷ check_quote b.intent_hash lc
      ∷ check_fill b.fill_receipt_hash lc
      ∷ check_proof (first (has_proof b.proof_job_id) t.proof_jobs)
      ∷ check_nullifier b.nullifier t
      ∷ check_mpc b.intent_hash (first (has_intent b.intent_hash) t.intents) t
      ∷ [])

abbrev pub given : Option String → Bool
given none = false
given (some s) = true

-- Whether the fill that the row names, if it names one, is there.
abbrev pub fill_exists : Option String → Tables → Bool
unfolding any_row
fill_exists none t = true
fill_exists (some fill_id) t = any_row (λ r. r.fill_id == fill_id) t.fills

unfoldable pub owned_by : String → SettlementRow → SettlementRow
owned_by user_id r = record r { user_id = some user_id }

-- `id_of` is `deterministicId` on the intent, the quote and the nullifier.
module _ (id_of : String → String → String → String) where
  abbrev pub submitted : SettleBody → SettlementRow
  submitted b = record {
    settlement_id = id_of b.intent_hash b.quote_id b.nullifier;
    intent_hash = b.intent_hash;
    quote_id = b.quote_id;
    fill_id = b.fill_id;
    proof_job_id = b.proof_job_id;
    nullifier = b.nullifier;
    user_id = none;
    state = "SETTLEMENT_SUBMITTED";
  }

  -- `insertGeneric` with every field of the body, and `setRowUser`. The table has no column for the
  -- receipt's hash, so with that field the insertion throws, as it does for a fill that is not there.
  unfoldable pub insert_settlement : String → SettleBody → Tables → Option Tables
  unfolding any_row update_rows owned_by
  insert_settlement user_id b t =
      let row = submitted b in
      let is_row : SettlementRow → Bool = λ r. r.settlement_id == row.settlement_id in
      if given b.fill_receipt_hash
      then none
      else if any_row is_row t.settlements
      then some (record t { settlements = update_rows is_row (owned_by user_id) t.settlements })
      else if fill_exists b.fill_id t
      then some
          (record t { settlements = update_rows is_row (owned_by user_id) (row ∷ t.settlements) })
      else none

  unfoldable pub record_settlement : String → SettleBody → Tables → Reply String × Tables
  unfolding insert_settlement
  record_settlement user_id b t =
      let id = id_of b.intent_hash b.quote_id b.nullifier in
      elim (insert_settlement user_id b t) [
        | none ↦ (error 500, t)
        | some t' ↦ (
          ok id,
          log user_id "rfq.settle" id (transition "settlement" id "SETTLEMENT_SUBMITTED" none t'),
        )
      ]

  -- POST /v1/rfq/settle; the reply is the id of the settlement.
  unfoldable pub settle : Option String → Option SettleBody → Tables → Reply String × Tables
  unfolding record_settlement refusal root_healthy
  settle none body t = (error 401, t)
  settle (some user_id) none t = if root_healthy t then (error 400, t) else (error 409, t)
  settle (some user_id) (some b) t =
      if not (root_healthy t) then (error 409, t) else elim (refusal user_id b t) [
        | some code ↦ (error code, t)
        | none ↦ record_settlement user_id b t
      ]
