-- ===== src/Vault/Tests.antt =====
-- An envelope with a secret inside a list of its wrappers.
use shade.Shared.{String, [], ◌∷◌, ◌≡◌, ◌↔◌, refl, false, true, none, some, member}
use shade.Shared.Results.{ok}
use shade.Vault.Envelope.{EncryptedVaultEnvelope}
use shade.Vault.Validate.{
  validate_vault_envelope, envelope_json, IsStorable, validate_vault_envelope_iff,
}
use shade.Vault.Json.{
  Json, text, array, object, no_items, item, no_fields, field, is_forbidden, hides, forbidden_key,
  redact,
}
use shade.Vault.Gate.{Occurs, forbidden_key_iff}
use shade.Vault.Redact.{Alike, redact-Alike_iff}

abbrev wrapper : String → Json
wrapper secret =
    object (field "wrapped_key" (text secret) (field "type" (text "passkey_prf") no_fields))

abbrev envelope : Json → Json
envelope w =
    object (field "vault_id" (text "v") (field "wrappers" (array (item w no_items)) no_fields))

abbrev leaking : Json
leaking = object (field "blinding" (text "7") no_fields)

passes : forbidden_key (envelope (wrapper "k")) ≡ none
unfolding forbidden_key is_forbidden member
passes = refl

refuses : forbidden_key (envelope leaking) ≡ some "blinding"
unfolding forbidden_key is_forbidden member
refuses = refl

hidden_key : redact (envelope (wrapper "k")) ≡ envelope (wrapper "[REDACTED]")
unfolding redact hides is_forbidden member
hidden_key = refl

forbidden_key_iff_example :
    ((forbidden_key (envelope leaking) ≡ none)
      ↔ ((k : String) → Occurs k (envelope leaking) → is_forbidden k ≡ false))
    × ((k : String)
        → forbidden_key (envelope leaking) ≡ some k
        → Occurs k (envelope leaking) × (is_forbidden k ≡ true))
forbidden_key_iff_example = forbidden_key_iff (envelope leaking)

redact-Alike_iff_example :
    (redact (envelope (wrapper "k")) ≡ redact (envelope (wrapper "l")))
    ↔ Alike (envelope (wrapper "k")) (envelope (wrapper "l"))
redact-Alike_iff_example = redact-Alike_iff (envelope (wrapper "k")) (envelope (wrapper "l"))

abbrev stored : EncryptedVaultEnvelope
stored = record {
  vault_id = "v";
  privy_user_id = "user";
  iv = "aXY=";
  aad = record {
    app = "Shade Protocol";
    origin = "shade";
    vault_id = "v";
    privy_user_id = "user";
    vault_version = 1;
  };
  ciphertext = "Y3Q=";
  wrappers =
      record {
        id = "01";
        wrapper_type = "passkey_prf";
        status = "active";
        kdf = "HKDF-SHA256";
        salt = "c2FsdA==";
        wrapped_key = "a2V5";
        diagnostic_only = false;
        metadata = field "created_at" (text "today") no_fields;
      }
      ∷ [];
}

validate_vault_envelope_iff_example :
    (validate_vault_envelope (envelope_json stored) ≡ ok tt) ↔ IsStorable stored
validate_vault_envelope_iff_example = validate_vault_envelope_iff stored
