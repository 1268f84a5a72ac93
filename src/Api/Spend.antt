-- ===== src/Api/Spend.antt =====
-- apps/api/src/routes.ts: the routes that spend notes, by withdrawal and by exit to another chain. A body
-- that the handler passes on is a map of texts; the ids of rows and of jobs and the clock are arguments.
pub mod Guard
mod Tests
use Prim.Native.String.{◌++◌}
use shade.Shared.{
  ℕ, String, Bool, true, false, not, ◌||◌, List, [], ◌∷◌, Option, none, some, ◌==◌, ltb,
  if◌then◌else◌,
}
use shade.Shared.Maps.{Assoc, get, put}
use shade.Queue
use shade.Queue.{ServiceJob, enqueue}
use shade.Api.Store.{Activity}
use shade.Api.Vaults.{Reply, ok, error}
use shade.Api.Sql.{first, insert_new}
use shade.Api.Rfq.Intents.{truthy}
use shade.Api.Rfq.Tables.{Transition, may_act}

pub record WithdrawalRow : Type 0 where
  pub withdrawal_id : String
  pub idempotency_key : String
  pub nullifier : String
  pub amount_usdc_7dp : ℕ
  pub recipient : String
  pub relayer_fee : ℕ
  pub deadline_ledger : ℕ
  pub user_id : String
  pub state : String

pub record ExitRow : Type 0 where
  pub exit_id : String
  pub idempotency_key : String
  pub nullifier : String
  pub destination_domain : ℕ
  pub destination_recipient : String
  pub amount_usdc_7dp : ℕ
  pub relayer_fee : ℕ
  pub user_id : Option String
  pub state : String

pub record WithdrawalBody : Type 0 where
  pub nullifier : String
  pub amount_public : ℕ
  pub recipient : String
  pub relayer_fee : ℕ
  pub deadline_ledger : ℕ

pub record ExitBody : Type 0 where
  pub nullifier : String
  pub destination_domain : ℕ
  pub destination_recipient : String
  pub amount_usdc_7dp : ℕ
  pub relayer_fee : ℕ

pub record Spends (R : Type 0) : Type 0 where
  pub withdrawals : List WithdrawalRow
  pub exits : List ExitRow
  pub tables : Queue.Tables (Assoc String) R
  pub transitions : List Transition
  pub activity : List Activity
  pub critical_findings : ℕ

-- `requireOwnedExit`: none where it passes, or the code of the error.
unfoldable pub require_owned_exit : String → Option ExitRow → Option ℕ
require_owned_exit user_id none = some 404
require_owned_exit user_id (some r) = if may_act user_id r.user_id then none else some 403

-- `{ ...a, ...b }`
unfoldable pub spread : Assoc String → Assoc String → Assoc String
unfolding put
spread fields [] = fields
spread fields ((k, v) ∷ more) = spread (put k v fields) more

-- `key ? prefix + key : undefined`
abbrev pub prefixed : String → Option String → Option String
prefixed prefix none = none
prefixed prefix (some key) = if key == "" then none else some (prefix ++ key)

abbrev new_withdrawal : String → String → String → WithdrawalBody → WithdrawalRow
new_withdrawal id key user_id b = record {
  withdrawal_id = id;
  idempotency_key = key;
  nullifier = b.nullifier;
  amount_usdc_7dp = b.amount_public;
  recipient = b.recipient;
  relayer_fee = b.relayer_fee;
  deadline_ledger = b.deadline_ledger;
  user_id = user_id;
  state = "prepared";
}

abbrev new_exit : String → String → String → ExitBody → ExitRow
new_exit id key user_id b = record {
  exit_id = id;
  idempotency_key = key;
  nullifier = b.nullifier;
  destination_domain = b.destination_domain;
  destination_recipient = b.destination_recipient;
  amount_usdc_7dp = b.amount_usdc_7dp;
  relayer_fee = b.relayer_fee;
  user_id = some user_id;
  state = "prepared";
}

-- `id_of` is `deterministicId` on the kind, the key and the nullifier.
module _ {R : Type 0} (id_of : String → String → String → String) (fresh : String) (now : ℕ) where
  -- `assertRootHealthy`: whether it passes.
  abbrev pub healthy : Spends R → Bool
  healthy s = not (ltb 0 s.critical_findings)

  -- The row's transition to `prepared` and its line in the user's activity.
  abbrev pub prepared_row : String → String → String → String → Spends R → Spends R
  prepared_row user_id entity event_type id s = record s {
    transitions =
        record { entity_type = entity; entity_id = id; to_state = "prepared"; tx_hash = none }
        ∷ s.transitions;
    activity = record { user_id = user_id; event_type = event_type; entity_id = id } ∷ s.activity;
  }

  -- A job for the relayer; the reply is its id.
  unfoldable pub queue_job :
      String → Assoc String → Option String → Spends R → Reply String × Spends R
  unfolding enqueue
  queue_job job_type payload key s =
      let (job, tables) = enqueue s.tables fresh now "relayer" job_type payload key in
      (ok job.job_id, record s { tables = tables })

  -- `createWithdrawal`
  unfoldable pub create_withdrawal :
      String → Option WithdrawalBody → Option String → Spends R → Reply String × Spends R
  unfolding insert_new
  create_withdrawal user_id none key s = (error 400, s)
  create_withdrawal user_id (some b) none s = (error 400, s)
  create_withdrawal user_id (some b) (some key) s =
      let id = id_of "wd" key b.nullifier in
      (
        ok id,
        prepared_row user_id "withdrawal" "withdrawal.prepare" id (record s {
          withdrawals =
              insert_new (λ r. r.withdrawal_id == id || r.idempotency_key == key)
                (new_withdrawal id key user_id b) s.withdrawals;
        }),
      )

  -- POST /v1/withdrawals/prepare
  unfoldable pub prepare_withdrawal :
      Option String → Option WithdrawalBody → Option String → Spends R → Reply String × Spends R
  unfolding create_withdrawal
  prepare_withdrawal none body key s = (error 401, s)
  prepare_withdrawal (some user_id) body key s =
      if not (healthy s) then (error 409, s) else create_withdrawal user_id body key s

  -- POST /v1/withdrawals/submit
  unfoldable pub submit_withdrawal :
      Option String → Assoc String → Spends R → Reply String × Spends R
  unfolding queue_job get
  submit_withdrawal none body s = (error 401, s)
  submit_withdrawal (some user_id) body s =
      if not (healthy s)
      then (error 409, s)
      else queue_job "WITHDRAW_PUBLIC_SUBMIT" body
          (prefixed "wd-submit:" (get "idempotency_key" body)) s

  -- The row of an exit, and the reply that names it.
  unfoldable pub create_exit :
      String → Option ExitBody → Option String → Spends R → Reply String × Spends R
  unfolding insert_new
  create_exit user_id none key s = (error 400, s)
  create_exit user_id (some b) none s = (error 400, s)
  create_exit user_id (some b) (some key) s =
      let id = id_of "exit" key b.nullifier in
      (
        ok id,
        prepared_row user_id "cctp_exit" "cctp_exit.prepare" id (record s {
          exits =
              insert_new (λ r. r.exit_id == id || r.idempotency_key == key)
                (new_exit id key user_id b) s.exits;
        }),
      )

  -- POST /v1/cctp/outbound/prepare
  unfoldable pub prepare_exit :
      Option String → Option ExitBody → Option String → Spends R → Reply String × Spends R
  unfolding create_exit
  prepare_exit none body key s = (error 401, s)
  prepare_exit (some user_id) body key s =
      if not (healthy s) then (error 409, s) else create_exit user_id body key s

  abbrev pub find_exit : String → Spends R → Option ExitRow
  find_exit exit_id s = first (λ r. r.exit_id == exit_id) s.exits

  -- `if (b.exit_id) await requireOwnedExit(…)`
  abbrev pub exit_refusal : String → Option String → Spends R → Option ℕ
  exit_refusal user_id none s = none
  exit_refusal user_id (some exit_id) s =
      if exit_id == "" then none else require_owned_exit user_id (find_exit exit_id s)

  -- POST /v1/cctp/outbound/submit
  unfoldable pub submit_exit : Option String → Assoc String → Spends R → Reply String × Spends R
  unfolding queue_job get first require_owned_exit
  submit_exit none body s = (error 401, s)
  submit_exit (some user_id) body s =
      if not (healthy s)
      then (error 409, s)
      else elim (exit_refusal user_id (get "exit_id" body) s) [
        | some code ↦ (error code, s)
        | none ↦
            queue_job "WITHDRAW_CCTP_BURN" body
              (prefixed "exit-submit:" (get "idempotency_key" body)) s
      ]

  -- POST /v1/cctp/outbound/:exit_id/fetch-attestation and …/complete-mint, by the type of the job.
  unfoldable pub step_exit :
      String → Option String → String → Assoc String → Spends R → Reply String × Spends R
  unfolding queue_job spread first require_owned_exit
  step_exit job_type none exit_id body s = (error 401, s)
  step_exit job_type (some user_id) exit_id body s =
      elim (require_owned_exit user_id (find_exit exit_id s)) [
        | some code ↦ (error code, s)
        | none ↦
            queue_job job_type (spread (("exit_id", exit_id) ∷ []) body)
              (some (job_type ++ ":" ++ exit_id)) s
      ]
