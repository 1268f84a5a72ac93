-- ===== src/Api/Tests.antt =====
-- A user with a vault, a wallet and a deposit, and another user.
use shade.Shared.{String, ◌≡◌, refl, true, false, [], ◌∷◌, none, some}
use shade.Api.Recovery.{VaultWrapper, PolicyOptions, evaluate_recovery_policy}
use shade.Api.Store.{Envelope, Verification, VaultRow, Store}
use shade.Api.SignIn.{AuthTables, verify_wallet}
use shade.Api.Vaults.{Auth, ok, verify_backup}
use shade.Api.Deposits.{PrepareBody, prepare_deposit}
use shade.Api.Ownership.{others, put, handle, handle-others}
use shade.Api.Gates.{Prepares, prepare_deposit-Prepares}

abbrev options : PolicyOptions
options = record { mainnet = false; min = 1; allow_evm_only = false }

abbrev wrapper : VaultWrapper
wrapper = record {
  id = "w";
  wrapper_type = "passkey_prf";
  status = "active";
  diagnostic_only = false;
}

abbrev envelope : String → Envelope
envelope text = record {
  vault_id = "v";
  privy_user_id = "did:a";
  ciphertext = text;
  aad = "aad";
  wrappers = wrapper ∷ [];
}

abbrev vault : VaultRow
vault = record {
  user_id = "a";
  privy_user_id = "did:a";
  vault_id = "v";
  envelope = envelope "c";
  backup_status = "created";
  recovery_policy_status = "sufficient";
  last_backup_verification = none;
}

abbrev store : Store
store = record {
  vaults = vault ∷ [];
  wrappers = [];
  wallets = record { user_id = "a"; address = "0xA" } ∷ [];
  deposits = [];
  activity = [];
  critical_findings = 0;
}

abbrev alice : Auth
alice = record { user_id = "a"; privy_user_id = "did:a" }

abbrev mallory : Auth
mallory = record { user_id = "m"; privy_user_id = "did:m" }

-- The id of the other user's vault under the own identity.
abbrev stolen : Envelope
stolen = record (envelope "d") { privy_user_id = "did:m" }

abbrev verification : Verification
verification = record {
  vault_id = "v";
  decrypted_vault_hash = "hash";
  commitments_hash = "cs";
  method = "passkey_prf";
}

abbrev body : PrepareBody
body = record {
  amount_usdc_6dp = 5000;
  source_chain = "arbitrum-sepolia";
  source_wallet_address = "0xa";
  vault_id = "v";
  commitment = "cm";
}

enough : evaluate_recovery_policy (wrapper ∷ []) options ≡ "sufficient"
unfolding evaluate_recovery_policy
enough = refl

verifies : (verify_backup (some alice) "v" (some verification) store).0 ≡ ok true
unfolding verify_backup
verifies = refl

handle-others_example :
    others "a" (handle options (λ n. "id") (put "v" (some (envelope "d"))) alice store).vaults
    ≡ others "a" store.vaults
handle-others_example =
    handle-others options (λ n. "id") (put "v" (some (envelope "d"))) alice store

prepare_deposit-Prepares_example :
    Prepares
      (λ key commitment. commitment)
      alice
      body
      "key"
      store
      (prepare_deposit
        (λ key commitment. commitment)
        true
        (some alice)
        (some body)
        (some "key")
        store)
prepare_deposit-Prepares_example =
    prepare_deposit-Prepares (λ key commitment. commitment) true alice body "key" store

abbrev signing_in : AuthTables
signing_in = record {
  nonces =
      record {
        wallet_type = "EVM";
        address = "0xA";
        nonce = "n";
        message = "m";
        expires_at = 100;
        consumed = false;
      }
      ∷ [];
  sessions = [];
  wallets = [];
}

signs_in :
    (verify_wallet (λ k a m s. true) "a" "hash" 9 "EVM" "0xA" "n" "sig" signing_in).0 ≡ ok "a"
unfolding verify_wallet
signs_in = refl
