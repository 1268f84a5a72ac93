-- ===== src/Vault/Recovered.antt =====
-- The round trip of packages/note-vault/src/index.ts: a vault that is set up with a wrapper opens again
-- with what the wrapper was made from.
mod Tests
use shade.Shared.{
  ℕ, zero, suc, ◌≡◌, refl, ap, arith, String, List, [], ◌∷◌, ◌++◌, Option, none, some, length,
}
use shade.Shared.Results.{Result, ok, ◌>>=◌}
use shade.Vault.Json.{Fields}
use shade.Vault.Notes.{NoteVault}
use shade.Vault.Envelope.{
  VaultWrapper, EncryptedVaultEnvelope, Platform, Draws, Secret, passkey_prf, stellar_signature,
  recovery_file_secret, recovery_kit_password, first_bytes, bytes_after, encrypt_note_vault,
  decrypt_note_vault, create_vault_envelope, decrypt_envelope, wrap_with_key, aad_of, envelope_of,
  wrapper_of, unwrap_with_key, wrapping_key, wrap_vault_key, unwrap_vault_key,
}

-- What the platform documents: AES-256-GCM takes any key of 32 bytes and vector of 12, and decrypts what
-- it encrypted; the derived keys have 256 bits; base64 decodes what it encoded.
pub record IsPlatform (p : Platform) : Type 0 where
  pub encrypts :
      (key iv : List ℕ) (aad : Option (List ℕ)) (pt : List ℕ)
      → length key ≡ 32
      → length iv ≡ 12
      → (ct : List ℕ) × (p.encrypt key iv aad pt ≡ ok ct) × (p.decrypt key iv aad ct ≡ ok pt)
  pub hkdf_bits : (secret salt : List ℕ) (info : String) → length (p.hkdf secret salt info) ≡ 32
  pub pbkdf2_bits :
      (password : String) (salt : List ℕ) (n : ℕ) → length (p.pbkdf2 password salt n) ≡ 32
  pub decodes : (b : List ℕ) → p.from_b64 (p.to_b64 b) ≡ ok b

first_bytes-append : (n : ℕ) (xs ys : List ℕ) → length xs ≡ n → first_bytes n (xs ++ ys) ≡ xs
unfolding first_bytes
first_bytes-append zero [] ys h = refl
first_bytes-append zero (x ∷ xs) ys h = cc
first_bytes-append (suc n) [] ys h = cc
first_bytes-append (suc n) (x ∷ xs) ys h =
    ap (λ zs. x ∷ zs) (first_bytes-append n xs ys (omega arith))

bytes_after-append : (n : ℕ) (xs ys : List ℕ) → length xs ≡ n → bytes_after n (xs ++ ys) ≡ ys
unfolding bytes_after
bytes_after-append zero [] ys h = refl
bytes_after-append zero (x ∷ xs) ys h = cc
bytes_after-append (suc n) [] ys h = cc
bytes_after-append (suc n) (x ∷ xs) ys h = bytes_after-append n xs ys (omega arith)

module _ (p : Platform) (lawful : IsPlatform p) where
  length-wrapping_key : (s : Secret) (salt : List ℕ) → length (wrapping_key p s salt) ≡ 32
  unfolding wrapping_key
  length-wrapping_key (passkey_prf prf) salt = lawful.hkdf_bits _ _ _
  length-wrapping_key (stellar_signature sig) salt = lawful.hkdf_bits _ _ _
  length-wrapping_key (recovery_file_secret s) salt = lawful.hkdf_bits _ _ _
  length-wrapping_key (recovery_kit_password password) salt = lawful.pbkdf2_bits _ _ _

  unwrap_with_key-wrap :
      (iv key master : List ℕ)
      → length key ≡ 32
      → length iv ≡ 12
      → (wrapped : String) × (wrap_with_key p iv key master ≡ ok wrapped)
        × (unwrap_with_key p key wrapped ≡ ok master)
  unfolding wrap_with_key unwrap_with_key
  unwrap_with_key-wrap iv key master sized drawn =
      let c = lawful.encrypts key iv none master sized drawn in
      (
        p.to_b64 (iv ++ c.0),
        rw c.1 refl,
        rw
            (
              lawful.decodes (iv ++ c.0),
              first_bytes-append 12 iv c.0 drawn,
              bytes_after-append 12 iv c.0 drawn,
            )
            c.2,
      )

  unwrap_vault_key-wrap :
      (s : Secret) (draws : Draws) (metadata : Fields) (master : List ℕ)
      → length draws.iv ≡ 12
      → (w : VaultWrapper) × (wrap_vault_key p s draws metadata master ≡ ok w)
        × (unwrap_vault_key p w s ≡ ok master)
  unfolding wrap_vault_key unwrap_vault_key
  unwrap_vault_key-wrap s draws metadata master drawn =
      let k = wrapping_key p s draws.salt in
      let u = unwrap_with_key-wrap draws.iv k master (length-wrapping_key s draws.salt) drawn in
      (wrapper_of p s draws metadata u.0, rw u.1 refl, rw (lawful.decodes draws.salt) u.2)

  decrypt_envelope-create :
      (iv : List ℕ) (vault : NoteVault) (master : List ℕ) (user origin : String)
      (wrappers : List VaultWrapper)
      → length iv ≡ 12
      → length master ≡ 32
      → p.parse_vault (p.vault_bytes vault) ≡ ok vault
      → (env : EncryptedVaultEnvelope) × (create_vault_envelope p iv vault master user origin
            wrappers
          ≡ ok env)
        × (decrypt_envelope p env master ≡ ok vault)
  unfolding create_vault_envelope decrypt_envelope encrypt_note_vault decrypt_note_vault
  decrypt_envelope-create iv vault master user origin wrappers drawn sized parses =
      let c =
        lawful.encrypts master iv (some (p.aad_bytes (aad_of vault user origin)))
          (p.vault_bytes vault) sized drawn in
      (
        envelope_of vault user (aad_of vault user origin) wrappers (p.to_b64 c.0, p.to_b64 iv),
        rw c.1 refl,
        rw (lawful.decodes iv, lawful.decodes c.0, c.2) parses,
      )

  -- On a platform that does what it documents, for any kind of secret, any vault that its JSON text
  -- parses back to, a master key of 32 bytes and vectors of 12: wrapping the key and making the envelope
  -- succeed, and unwrapping the key from the wrapper with the same secret and decrypting the envelope
  -- with it gives the vault, whatever other wrappers the envelope has.
  pub unwrap_vault_key-decrypt_envelope :
      (s : Secret) (draws : Draws) (metadata : Fields) (iv : List ℕ) (vault : NoteVault)
      (master : List ℕ) (user origin : String) (wrappers : List VaultWrapper)
      → length draws.iv ≡ 12
      → length iv ≡ 12
      → length master ≡ 32
      → p.parse_vault (p.vault_bytes vault) ≡ ok vault
      → (w : VaultWrapper) × (env : EncryptedVaultEnvelope) × (wrap_vault_key p s draws metadata
            master
          ≡ ok w)
        × (create_vault_envelope p iv vault master user origin (w ∷ wrappers) ≡ ok env)
        × ((unwrap_vault_key p w s >>= decrypt_envelope p env) ≡ ok vault)
  unwrap_vault_key-decrypt_envelope s draws metadata iv vault master user origin wrappers h drawn
        sized parses =
      let u = unwrap_vault_key-wrap s draws metadata master h in
      let e =
        decrypt_envelope-create iv vault master user origin (u.0 ∷ wrappers) drawn sized parses in
      (u.0, e.0, u.1, e.1, rw u.2 e.2)
