-- ===== src/Api/Deposits.antt =====
-- apps/api/src/routes.ts: POST /v1/deposits/prepare and /v1/deposits/:deposit_id/burn-submitted.
use Prim.Native.String.{◌++◌}
use shade.Shared.Texts.{lower}
use shade.Cctp.{usdc6_to_stellar7}
use shade.Shared.{ℕ, ◌*◌, ◌/◌, String, Bool, not, Option, none, some, ltb, ◌==◌, if◌then◌else◌}
use shade.Queue.{Tables, enqueue}
use shade.Api.Store.{
  DepositRow, Store, user_owns_vault, user_owns_wallet, vault_deposit_ready, create_user_deposit,
  get_deposit_for_user, set_deposit_burn_tx, log_activity,
}
use shade.Api.Vaults.{Auth, Reply, ok, error}

-- What the schema lets through; the amount is the number that the text prints.
pub record PrepareBody : Type 0 where
  pub amount_usdc_6dp : ℕ
  pub source_chain : String
  pub source_wallet_address : String
  pub vault_id : String
  pub commitment : String

pub record PrepareReply : Type 0 where
  pub deposit_id : String
  pub approve_amount : ℕ
  pub burn_amount : ℕ
  pub max_fee : ℕ
  pub expected_amount_7dp_max : ℕ

unfoldable pub max_fee : ℕ → ℕ
max_fee amount6 = if ltb 0 (amount6 / 1000) then amount6 / 1000 else 1

-- `assertRootHealthy`: whether it passes.
unfoldable pub root_healthy : Store → Bool
root_healthy s = not (ltb 0 s.critical_findings)

-- The row that a prepared deposit becomes.
abbrev pub prepared : String → String → String → PrepareBody → DepositRow
prepared deposit_id key user_id body = record {
  deposit_id = deposit_id;
  idempotency_key = key;
  user_id = user_id;
  source_wallet_address = body.source_wallet_address;
  vault_id = body.vault_id;
  amount_usdc_6dp = body.amount_usdc_6dp;
  amount_usdc_7dp = body.amount_usdc_6dp * 10;
  commitment = body.commitment;
  source_tx_hash = none;
  state = "prepared";
}

-- `id_of` is `deterministicId` on the key and the commitment; `contracts` is whether the configured
-- forwarder and pool are Stellar contracts, without which their encoding throws.
module _ (id_of : String → String → String) (contracts : Bool) where
  unfoldable pub insert_prepared : Auth → String → PrepareBody → Store → Reply PrepareReply × Store
  unfolding create_user_deposit usdc6_to_stellar7 max_fee
  insert_prepared auth key body s =
      let deposit_id = id_of key body.commitment in
      (
        ok (record {
          deposit_id = deposit_id;
          approve_amount = body.amount_usdc_6dp;
          burn_amount = body.amount_usdc_6dp;
          max_fee = max_fee body.amount_usdc_6dp;
          expected_amount_7dp_max = usdc6_to_stellar7 body.amount_usdc_6dp;
        }),
        log_activity auth.user_id "deposit.prepare" deposit_id (record s {
          deposits = create_user_deposit (prepared deposit_id key auth.user_id body) s.deposits;
        }),
      )

  unfoldable pub prepare_deposit :
      Option Auth → Option PrepareBody → Option String → Store → Reply PrepareReply × Store
  unfolding insert_prepared root_healthy
  prepare_deposit none body key s = (error 401, s)
  prepare_deposit (some auth) none key s = (error 400, s)
  prepare_deposit (some auth) (some body) none s = (error 400, s)
  prepare_deposit (some auth) (some body) (some key) s =
      if not (body.source_chain == "arbitrum-sepolia")
      then (error 400, s)
      else if not (ltb 0 body.amount_usdc_6dp)
      then (error 400, s)
      else if not (user_owns_wallet auth.user_id body.source_wallet_address s.wallets)
      then (error 403, s)
      else if not (user_owns_vault auth.user_id body.vault_id s.vaults)
      then (error 403, s)
      else if not (vault_deposit_ready auth.user_id body.vault_id s.vaults)
      then (error 409, s)
      else if not (root_healthy s)
      then (error 409, s)
      else if not contracts
      then (error 500, s)
      else insert_prepared auth key body s

pub record BurnBody : Type 0 where
  pub burn_tx_hash : String
  pub source_wallet_address : String

pub record BurnPayload : Type 0 where
  pub deposit_id : String
  pub burn_tx_hash : String
  pub source_wallet_address : String
  pub expected_amount6 : ℕ
  pub commitment : String
  pub vault_id : String

-- The store and the tables of the queue.
pub record Backend (R : Type 0) : Type 0 where
  pub store : Store
  pub tables : Tables BurnPayload R

module _ {R : Type 0} (fresh : String) (now : ℕ) where
  -- The job of a deposit whose burn was reported; the reply is the id of the job.
  unfoldable pub queue_burn : Auth → DepositRow → BurnBody → Backend R → Reply String × Backend R
  unfolding set_deposit_burn_tx
  queue_burn auth d body b =
      let (job, tables) =
        enqueue b.tables fresh now "relayer" "CCTP_INBOUND_AFTER_USER_BURN"
          (record {
            deposit_id = d.deposit_id;
            burn_tx_hash = body.burn_tx_hash;
            source_wallet_address = body.source_wallet_address;
            expected_amount6 = d.amount_usdc_6dp;
            commitment = d.commitment;
            vault_id = d.vault_id;
          })
          (some ("user-burn:" ++ d.deposit_id)) in
      (
        ok job.job_id,
        record {
          store =
              log_activity auth.user_id "deposit.burn_submitted" d.deposit_id (record (b.store) {
                deposits = set_deposit_burn_tx d.deposit_id body.burn_tx_hash b.store.deposits;
              });
          tables = tables;
        },
      )

  unfoldable pub burn_submitted :
      Option Auth → String → Option BurnBody → Backend R → Reply String × Backend R
  unfolding get_deposit_for_user queue_burn
  burn_submitted none deposit_id body b = (error 401, b)
  burn_submitted (some auth) deposit_id none b = (error 400, b)
  burn_submitted (some auth) deposit_id (some body) b =
      elim (get_deposit_for_user auth.user_id deposit_id b.store.deposits) [
        | none ↦ (error 404, b)
        | some d ↦
            if not (lower d.source_wallet_address == lower body.source_wallet_address)
            then (error 403, b)
            else queue_burn auth d body b
      ]
