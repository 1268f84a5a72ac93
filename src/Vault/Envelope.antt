-- ===== src/Vault/Envelope.antt =====
-- packages/note-vault/src/index.ts: the encryption of a vault under a master key, and
-- the wrappers from which the key is recovered. WebCrypto, base64 and the bytes of JSON texts are
-- parameters; the bytes that are drawn are arguments.
use shade.Shared.{
  ℕ, zero, suc, String, Bool, true, false, ◌&&◌, nat_eq, List, [], ◌∷◌, ◌++◌, Option, none, some,
  ◌==◌, if◌then◌else◌,
}
use shade.Shared.Results.{Result, ok, ◌>>=◌}
use shade.Vault.Notes.{NoteVault}
use shade.Vault.Json.{bool, Fields, no_fields, field}

-- `wrapper_type` is the source's `type`.
pub record VaultWrapper : Type 0 where
  pub id : String
  pub wrapper_type : String
  pub status : String
  pub kdf : String
  pub salt : String
  pub wrapped_key : String
  pub diagnostic_only : Bool
  pub metadata : Fields

pub record VaultAad : Type 0 where
  pub app : String
  pub origin : String
  pub vault_id : String
  pub privy_user_id : String
  pub vault_version : ℕ

-- `iv` is that of the source's `cipher`, whose other fields are constants, as `version` is.
pub record EncryptedVaultEnvelope : Type 0 where
  pub vault_id : String
  pub privy_user_id : String
  pub iv : String
  pub aad : VaultAad
  pub ciphertext : String
  pub wrappers : List VaultWrapper

pub record RecoveryFile : Type 0 where
  pub vault_id : String
  pub created_at : String
  pub recovery_file_secret : String
  pub wrapper : VaultWrapper

-- AES-256-GCM, the derivations of keys, base64, and the bytes of texts and of JSON. `encrypt` and
-- `decrypt` take the key, the initial vector, the additional data if any, and the text.
pub record Platform : Type 0 where
  pub encrypt : List ℕ → List ℕ → Option (List ℕ) → List ℕ → Result (List ℕ)
  pub decrypt : List ℕ → List ℕ → Option (List ℕ) → List ℕ → Result (List ℕ)
  pub hkdf : List ℕ → List ℕ → String → List ℕ
  pub pbkdf2 : String → List ℕ → ℕ → List ℕ
  pub to_b64 : List ℕ → String
  pub from_b64 : String → Result (List ℕ)
  pub to_hex : List ℕ → String
  pub vault_bytes : NoteVault → List ℕ
  pub parse_vault : List ℕ → Result NoteVault
  pub aad_bytes : VaultAad → List ℕ

-- What a wrapping draws: `randomBytes(16)`, `randomBytes(12)` and `randomBytes(8)`.
pub record Draws : Type 0 where
  pub salt : List ℕ
  pub iv : List ℕ
  pub id : List ℕ

-- What a user shows to recover the key.
pub data Secret : Type 0 where
  passkey_prf : List ℕ → Secret
  stellar_signature : List ℕ → Secret
  recovery_file_secret : List ℕ → Secret
  recovery_kit_password : String → Secret

abbrev pub pbkdf2_iters : ℕ
pbkdf2_iters = 310000

-- `blob.slice(0, n)` and `blob.slice(n)`
unfoldable pub first_bytes : ℕ → List ℕ → List ℕ
first_bytes zero blob = []
first_bytes (suc n) [] = []
first_bytes (suc n) (b ∷ blob) = b ∷ first_bytes n blob

unfoldable pub bytes_after : ℕ → List ℕ → List ℕ
bytes_after zero blob = blob
bytes_after (suc n) [] = []
bytes_after (suc n) (b ∷ blob) = bytes_after n blob

abbrev pub wrapper_type_of : Secret → String
wrapper_type_of (passkey_prf s) = "passkey_prf"
wrapper_type_of (stellar_signature s) = "stellar_ed25519_signature"
wrapper_type_of (recovery_file_secret s) = "recovery_file_secret"
wrapper_type_of (recovery_kit_password s) = "recovery_kit_password"

abbrev pub kdf_of : Secret → String
kdf_of (passkey_prf s) = "HKDF-SHA256"
kdf_of (stellar_signature s) = "HKDF-SHA256"
kdf_of (recovery_file_secret s) = "HKDF-SHA256"
kdf_of (recovery_kit_password s) = "PBKDF2-SHA256"

abbrev pub aad_of : NoteVault → String → String → VaultAad
aad_of vault privy_user_id origin = record {
  app = "Shade Protocol";
  origin = origin;
  vault_id = vault.vault_id;
  privy_user_id = privy_user_id;
  vault_version = 1;
}

-- The envelope around a ciphertext and its vector.
abbrev pub envelope_of :
    NoteVault → String → VaultAad → List VaultWrapper → String × String → EncryptedVaultEnvelope
envelope_of vault privy_user_id aad wrappers e = record {
  vault_id = vault.vault_id;
  privy_user_id = privy_user_id;
  iv = e.1;
  aad = aad;
  ciphertext = e.0;
  wrappers = wrappers;
}

-- `{ ...metadata, diagnostic_only: true }`
unfoldable pub with_diagnostic : Fields → Fields
with_diagnostic no_fields = field "diagnostic_only" (bool true) no_fields
with_diagnostic (field k v fs) =
    let rest = with_diagnostic fs in
    if k == "diagnostic_only" then field k (bool true) fs else field k v rest

abbrev pub evm_wrapper_of : Platform → Draws → Fields → String → VaultWrapper
evm_wrapper_of platform draws metadata wrapped = record {
  id = platform.to_hex draws.id;
  wrapper_type = "evm_signature";
  status = "active";
  kdf = "HKDF-SHA256";
  salt = platform.to_b64 draws.salt;
  wrapped_key = wrapped;
  diagnostic_only = true;
  metadata = with_diagnostic metadata;
}

module _ (platform : Platform) where
  unfoldable pub encrypt_note_vault :
      List ℕ → NoteVault → List ℕ → VaultAad → Result (String × String)
  encrypt_note_vault iv vault master aad = do
    ct ← platform.encrypt master iv (some (platform.aad_bytes aad)) (platform.vault_bytes vault)
    ok (platform.to_b64 ct, platform.to_b64 iv)

  unfoldable pub decrypt_note_vault : String → String → List ℕ → VaultAad → Result NoteVault
  decrypt_note_vault ciphertext iv master aad = do
    nonce ← platform.from_b64 iv
    ct ← platform.from_b64 ciphertext
    pt ← platform.decrypt master nonce (some (platform.aad_bytes aad)) ct
    platform.parse_vault pt

  unfoldable pub create_vault_envelope :
      List ℕ
      → NoteVault
      → List ℕ
      → String
      → String
      → List VaultWrapper
      → Result EncryptedVaultEnvelope
  unfolding encrypt_note_vault
  create_vault_envelope iv vault master privy_user_id origin wrappers = do
    let aad = aad_of vault privy_user_id origin
    e ← encrypt_note_vault iv vault master aad
    ok (envelope_of vault privy_user_id aad wrappers e)

  unfoldable pub decrypt_envelope : EncryptedVaultEnvelope → List ℕ → Result NoteVault
  unfolding decrypt_note_vault
  decrypt_envelope env master = decrypt_note_vault env.ciphertext env.iv master env.aad

  unfoldable pub wrap_with_key : List ℕ → List ℕ → List ℕ → Result String
  wrap_with_key iv key master = do
    ct ← platform.encrypt key iv none master
    ok (platform.to_b64 (iv ++ ct))

  unfoldable pub unwrap_with_key : List ℕ → String → Result (List ℕ)
  unfolding first_bytes bytes_after
  unwrap_with_key key wrapped_key = do
    blob ← platform.from_b64 wrapped_key
    platform.decrypt key (first_bytes 12 blob) none (bytes_after 12 blob)

  -- The key that a secret and a salt derive.
  unfoldable pub wrapping_key : Secret → List ℕ → List ℕ
  wrapping_key (passkey_prf prf) salt = platform.hkdf prf salt "shade-vault-passkey-prf"
  wrapping_key (stellar_signature sig) salt = platform.hkdf sig salt "shade-vault-stellar-ed25519"
  wrapping_key (recovery_file_secret s) salt = platform.hkdf s salt "shade-vault-recovery-file"
  wrapping_key (recovery_kit_password password) salt = platform.pbkdf2 password salt pbkdf2_iters

  abbrev pub wrapper_of : Secret → Draws → Fields → String → VaultWrapper
  wrapper_of secret draws metadata wrapped = record {
    id = platform.to_hex draws.id;
    wrapper_type = wrapper_type_of secret;
    status = "active";
    kdf = kdf_of secret;
    salt = platform.to_b64 draws.salt;
    wrapped_key = wrapped;
    diagnostic_only = false;
    metadata = metadata;
  }

  -- The four functions `wrapVaultKeyWith…`, by the kind of secret.
  unfoldable pub wrap_vault_key : Secret → Draws → Fields → List ℕ → Result VaultWrapper
  unfolding wrap_with_key wrapping_key
  wrap_vault_key secret draws metadata master = do
    wrapped ← wrap_with_key draws.iv (wrapping_key secret draws.salt) master
    ok (wrapper_of secret draws metadata wrapped)

  -- The four functions `unwrapVaultKeyWith…`.
  unfoldable pub unwrap_vault_key : VaultWrapper → Secret → Result (List ℕ)
  unfolding unwrap_with_key wrapping_key
  unwrap_vault_key wrapper secret = do
    salt ← platform.from_b64 wrapper.salt
    unwrap_with_key (wrapping_key secret salt) wrapper.wrapped_key

  unfoldable pub build_recovery_file : String → List ℕ → VaultWrapper → String → RecoveryFile
  build_recovery_file vault_id secret wrapper now = record {
    vault_id = vault_id;
    created_at = now;
    recovery_file_secret = platform.to_b64 secret;
    wrapper = wrapper;
  }

  -- `diagnosticWrapVaultKeyWithEvmSignature`, which has no counterpart that unwraps.
  unfoldable pub wrap_vault_key_with_evm_signature :
      List ℕ → Draws → Fields → List ℕ → Result VaultWrapper
  unfolding wrap_with_key
  wrap_vault_key_with_evm_signature signature draws metadata master = do
    let key = platform.hkdf signature draws.salt "shade-vault-evm-diagnostic"
    wrapped ← wrap_with_key draws.iv key master
    ok (evm_wrapper_of platform draws metadata wrapped)

-- `diagnosticVerifyEvmSignatureStability`
unfoldable pub is_stable : List ℕ → List ℕ → Bool
is_stable [] [] = true
is_stable [] (b ∷ bs) = false
is_stable (a ∷ rest) [] = false
is_stable (a ∷ rest) (b ∷ bs) = nat_eq a b && is_stable rest bs
