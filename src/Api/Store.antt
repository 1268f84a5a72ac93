-- ===== src/Api/Store.antt =====
-- apps/api/src/db.ts: the tables of vaults, wallets and deposits, and the queries on them. Times are
-- left out.
use shade.Shared.Texts.{lower}
use shade.Shared.{
  ℕ, String, Bool, true, false, ◌&&◌, ◌||◌, List, [], ◌∷◌, Option, none, some, ◌==◌, if◌then◌else◌,
}
use shade.Api.Recovery.{VaultWrapper, is_enough}

pub record Envelope : Type 0 where
  pub vault_id : String
  pub privy_user_id : String
  pub ciphertext : String
  pub aad : String
  pub wrappers : List VaultWrapper

pub record Verification : Type 0 where
  pub vault_id : String
  pub decrypted_vault_hash : String
  pub commitments_hash : String
  pub method : String

pub record VaultRow : Type 0 where
  pub user_id : String
  pub privy_user_id : String
  pub vault_id : String
  pub envelope : Envelope
  pub backup_status : String
  pub recovery_policy_status : String
  pub last_backup_verification : Option Verification

pub record WrapperRow : Type 0 where
  pub id : String
  pub vault_id : String
  pub user_id : String
  pub wrapper_type : String

pub record WalletRow : Type 0 where
  pub user_id : String
  pub address : String

pub record DepositRow : Type 0 where
  pub deposit_id : String
  pub idempotency_key : String
  pub user_id : String
  pub source_wallet_address : String
  pub vault_id : String
  pub amount_usdc_6dp : ℕ
  pub amount_usdc_7dp : ℕ
  pub commitment : String
  pub source_tx_hash : Option String
  pub state : String

pub record Activity : Type 0 where
  pub user_id : String
  pub event_type : String
  pub entity_id : String

pub record Store : Type 0 where
  pub vaults : List VaultRow
  pub wrappers : List WrapperRow
  pub wallets : List WalletRow
  pub deposits : List DepositRow
  pub activity : List Activity
  pub critical_findings : ℕ

abbrev pub owns : String → String → VaultRow → Bool
owns user_id vault_id r = r.user_id == user_id && r.vault_id == vault_id

-- `select … from note_vaults where user_id=$1 and vault_id=$2`
unfoldable pub get_note_vault : String → String → List VaultRow → Option VaultRow
get_note_vault user_id vault_id [] = none
get_note_vault user_id vault_id (r ∷ rows) =
    if owns user_id vault_id r then some r else get_note_vault user_id vault_id rows

abbrev found : Option VaultRow → Bool
found none = false
found (some r) = true

unfoldable pub user_owns_vault : String → String → List VaultRow → Bool
unfolding get_note_vault
user_owns_vault user_id vault_id rows = found (get_note_vault user_id vault_id rows)

-- `update note_vaults set … where user_id=$1 and vault_id=$2`
unfoldable pub update_vaults :
    String → String → (VaultRow → VaultRow) → List VaultRow → List VaultRow
update_vaults user_id vault_id change [] = []
update_vaults user_id vault_id change (r ∷ rows) =
    (if owns user_id vault_id r then change r else r) ∷ update_vaults user_id vault_id change rows

abbrev pub with_envelope : Envelope → String → VaultRow → VaultRow
with_envelope env policy r = record r { envelope = env; recovery_policy_status = policy }

-- `insert … on conflict (vault_id) do update`
unfoldable pub create_note_vault :
    String → String → Envelope → String → List VaultRow → List VaultRow
create_note_vault user_id privy_user_id env policy [] =
    record {
      user_id = user_id;
      privy_user_id = privy_user_id;
      vault_id = env.vault_id;
      envelope = env;
      backup_status = "created";
      recovery_policy_status = policy;
      last_backup_verification = none;
    }
    ∷ []
create_note_vault user_id privy_user_id env policy (r ∷ rows) =
    if r.vault_id == env.vault_id
    then with_envelope env policy r ∷ rows
    else r ∷ create_note_vault user_id privy_user_id env policy rows

abbrev is_ready : Option VaultRow → Bool
is_ready none = false
is_ready (some r) = r.backup_status == "verified" && is_enough r.recovery_policy_status

-- `ready` of `vaultDepositReady`, and false for a missing row.
unfoldable pub vault_deposit_ready : String → String → List VaultRow → Bool
unfolding get_note_vault
vault_deposit_ready user_id vault_id rows = is_ready (get_note_vault user_id vault_id rows)

-- `lower(address)=lower($2)`
unfoldable pub user_owns_wallet : String → String → List WalletRow → Bool
unfolding lower
user_owns_wallet user_id address [] = false
user_owns_wallet user_id address (w ∷ rows) =
    (w.user_id == user_id && lower w.address == lower address)
    || user_owns_wallet user_id address rows

-- `insert … on conflict (deposit_id) do nothing`
unfoldable pub create_user_deposit : DepositRow → List DepositRow → List DepositRow
create_user_deposit d [] = d ∷ []
create_user_deposit d (r ∷ rows) =
    if r.deposit_id == d.deposit_id then r ∷ rows else r ∷ create_user_deposit d rows

unfoldable pub get_deposit_for_user : String → String → List DepositRow → Option DepositRow
get_deposit_for_user user_id deposit_id [] = none
get_deposit_for_user user_id deposit_id (r ∷ rows) =
    if r.deposit_id == deposit_id && r.user_id == user_id
    then some r
    else get_deposit_for_user user_id deposit_id rows

unfoldable pub set_deposit_burn_tx : String → String → List DepositRow → List DepositRow
set_deposit_burn_tx deposit_id hash [] = []
set_deposit_burn_tx deposit_id hash (r ∷ rows) =
    (if r.deposit_id == deposit_id
      then record r { source_tx_hash = some hash; state = "burn_submitted" }
      else r)
    ∷ set_deposit_burn_tx deposit_id hash rows

-- `delete from note_vault_wrappers where id=$1 and vault_id=$2 and user_id=$3`
unfoldable pub delete_vault_wrapper :
    String → String → String → List WrapperRow → Bool × List WrapperRow
delete_vault_wrapper user_id vault_id id [] = (false, [])
delete_vault_wrapper user_id vault_id id (w ∷ rows) =
    let (hit, rest) = delete_vault_wrapper user_id vault_id id rows in
    if w.id == id && (w.vault_id == vault_id && w.user_id == user_id)
    then (true, rest)
    else (hit, w ∷ rest)

abbrev pub log_activity : String → String → String → Store → Store
log_activity user_id event_type entity_id s = record s {
  activity =
      record { user_id = user_id; event_type = event_type; entity_id = entity_id } ∷ s.activity;
}
