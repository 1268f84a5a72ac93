-- ===== src/Vault/Validate.antt =====
-- `validateVaultEnvelope` of packages/note-vault/src/index.ts, and the JSON value of an envelope.
use shade.Shared.{
  String, ◌≡◌, ◌≢◌, ◌↔◌, inl, inr, refl, Bool, true, false, not, ◌&&◌, List, [], ◌∷◌, Option, none,
  some, ◌==◌, if◌then◌else◌, nat_eq, All, member, eq_iff, Bool-cases, Option-cases, ne_of_test,
}
use shade.Shared.Results.{Result, ok, err, ◌>>=◌, ◌>>◌, guard}
use shade.Vault.Json.{
  Json, null, bool, number, text, array, object, Items, no_items, item, Fields, no_fields, field,
  is_forbidden, or_else, forbidden_key, forbidden_item, forbidden_field,
}
use shade.Vault.Envelope.{VaultAad, VaultWrapper, EncryptedVaultEnvelope}

unfoldable pub lookup : String → Fields → Json
lookup k no_fields = null
lookup k (field j v fs) = let rest = lookup k fs in if j == k then v else rest

-- `v?.k`; a field that is not there is as good as null here.
abbrev pub get : Json → String → Json
get (object fs) k = lookup k fs
get v k = null

-- Whether a value counts as true.
abbrev pub holds : Json → Bool
holds null = false
holds (bool b) = b
holds (number n) = not (nat_eq n 0)
holds (text s) = not (s == "")
holds (array xs) = true
holds (object fs) = true

abbrev pub is_text : Json → String → Bool
is_text (text s) t = s == t
is_text v t = false

abbrev pub is_array : Json → Bool
is_array (array xs) = true
is_array v = false

abbrev pub no_plaintext : Option String → Result (Unit {0})
no_plaintext none = ok tt
no_plaintext (some k) = err "plaintext note field is forbidden in stored/transmitted vault data"

unfoldable pub validate_vault_envelope : Json → Result (Unit {0})
unfolding lookup
validate_vault_envelope env = do
  guard (is_text (get env "version") "shade-encrypted-vault-v1") "bad envelope version"
  guard
      (holds (get env "vault_id")
        && holds (get env "privy_user_id")
        && holds (get env "ciphertext")
        && is_text (get (get env "cipher") "name") "AES-256-GCM")
      "malformed envelope"
  guard (is_array (get env "wrappers")) "envelope missing wrappers"
  no_plaintext (forbidden_key env)

-- `parseVaultEnvelope`, with the parsing of JSON as a function.
unfoldable pub parse_vault_envelope : (String → Result Json) → String → Result Json
unfolding validate_vault_envelope
parse_vault_envelope parse json = do env ← parse json; validate_vault_envelope env; ok env

abbrev pub diagnostic_field : Bool → Fields → Fields
diagnostic_field true fs = field "diagnostic_only" (bool true) fs
diagnostic_field false fs = fs

-- The objects that `createVaultEnvelope` and the wrapping of keys make.
abbrev pub wrapper_json : VaultWrapper → Json
wrapper_json w = object (
    field "id" (text w.id) (
      field "type" (text w.wrapper_type) (
        field "status" (text w.status) (
          field "kdf" (text w.kdf) (
            field "salt" (text w.salt) (
              field "wrapped_key" (text w.wrapped_key) (
                diagnostic_field w.diagnostic_only
                  (field "metadata" (object w.metadata) no_fields))))))))

unfoldable pub wrappers_json : List VaultWrapper → Items
wrappers_json [] = no_items
wrappers_json (w ∷ ws) = item (wrapper_json w) (wrappers_json ws)

abbrev pub aad_json : VaultAad → Json
aad_json a = object (
    field "app" (text a.app) (
      field "origin" (text a.origin) (
        field "vault_id" (text a.vault_id) (
          field "privy_user_id" (text a.privy_user_id)
            (field "vault_version" (number a.vault_version) no_fields)))))

abbrev pub cipher_json : String → Json
cipher_json iv = object (
    field "name" (text "AES-256-GCM")
      (field "iv" (text iv) (field "tagLength" (number 128) no_fields)))

unfoldable pub envelope_json : EncryptedVaultEnvelope → Json
unfolding wrappers_json
envelope_json e = object (
    field "version" (text "shade-encrypted-vault-v1") (
      field "vault_id" (text e.vault_id) (
        field "privy_user_id" (text e.privy_user_id) (
          field "cipher" (cipher_json e.iv) (
            field "aad" (aad_json e.aad) (
              field "ciphertext" (text e.ciphertext)
                (field "wrappers" (array (wrappers_json e.wrappers)) no_fields)))))))

-- Metadata without a forbidden key.
abbrev pub Clean : VaultWrapper → Type 0
Clean w = forbidden_field w.metadata ≡ none

or_else-none_right : (a : Option String) → or_else a none ≡ a
or_else-none_right none = refl
or_else-none_right (some k) = refl

wrapper_json-forbidden :
    (w : VaultWrapper) → forbidden_key (wrapper_json w) ≡ forbidden_field w.metadata
unfolding forbidden_key is_forbidden member
wrapper_json-forbidden w = elim (Bool-cases w.diagnostic_only) [
  | inl flagged ↦ rw flagged (or_else-none_right (forbidden_field w.metadata))
  | inr plain ↦ rw plain (or_else-none_right (forbidden_field w.metadata))
]

forbidden_item-wrappers :
    (ws : List VaultWrapper) → (forbidden_item (wrappers_json ws) ≡ none) ↔ All Clean ws
unfolding wrappers_json forbidden_key
forbidden_item-wrappers [] = (λ h. tt, λ h. refl)
forbidden_item-wrappers (w ∷ ws) =
    let same = wrapper_json-forbidden w in
    let rest = forbidden_item-wrappers ws in
    elim (Option-cases (forbidden_field w.metadata)) [
      | inl clean ↦
          (λ h. (clean, rest.0 (rw (same, clean) at h)), λ h. rw (same, clean) (rest.1 h.1))
      | inr (k, bad) ↦
          (λ h. let no : some k ≡ none = rw (same, bad) at h in absurd (cc no), λ h. absurd (cc))
    ]

-- What is asked of an envelope of the source's own making.
pub record IsStorable (e : EncryptedVaultEnvelope) : Type 0 where
  pub vault : e.vault_id ≢ ""
  pub user : e.privy_user_id ≢ ""
  pub sealed : e.ciphertext ≢ ""
  pub clean : All Clean e.wrappers

-- The answer on the tests that decide it; the last is the one on the cipher's name.
abbrev decided : Bool → Bool → Bool → Option String → Result (Unit {0})
decided vault user sealed found =
    guard (not vault && not user && not sealed && true) "malformed envelope" >> no_plaintext found

validate_vault_envelope-decided :
    (e : EncryptedVaultEnvelope)
    → validate_vault_envelope (envelope_json e)
      ≡ decided
          (e.vault_id == "")
          (e.privy_user_id == "")
          (e.ciphertext == "")
          (forbidden_item (wrappers_json e.wrappers))
unfolding validate_vault_envelope envelope_json forbidden_key is_forbidden member
validate_vault_envelope-decided e =
    rw (or_else-none_right (forbidden_item (wrappers_json e.wrappers))) refl

decided_iff :
    (vault user sealed : Bool) (found : Option String)
    → (decided vault user sealed found ≡ ok tt)
      ↔ ((vault ≡ false) × (user ≡ false) × (sealed ≡ false) × (found ≡ none))
decided_iff true user sealed found = (λ h. absurd (cc), λ h. absurd (cc))
decided_iff false true sealed found = (λ h. absurd (cc), λ h. absurd (cc))
decided_iff false false true found = (λ h. absurd (cc), λ h. absurd (cc))
decided_iff false false false (some k) = (λ h. absurd (cc), λ h. absurd (cc))
decided_iff false false false none = (λ h. (refl, refl, refl, refl), λ h. refl)

test_iff : (s t : String) → ((s == t) ≡ false) ↔ (s ≢ t)
test_iff s t = (
  ne_of_test s t,
  λ no. elim (Bool-cases (s == t)) [
    | inl same ↦ absurd (no ((eq_iff s t).0 same))
    | inr differ ↦ differ
  ],
)

-- An envelope as createVaultEnvelope builds it passes validateVaultEnvelope exactly if its vault id, its
-- user id and its ciphertext are not empty and no wrapper's metadata has a key of a note's secrets at any
-- depth; with no wrapper at all it passes too.
pub validate_vault_envelope_iff :
    (e : EncryptedVaultEnvelope)
    → (validate_vault_envelope (envelope_json e) ≡ ok tt) ↔ IsStorable e
validate_vault_envelope_iff e =
    let tests =
      decided_iff (e.vault_id == "") (e.privy_user_id == "") (e.ciphertext == "")
        (forbidden_item (wrappers_json e.wrappers)) in
    let wrappers = forbidden_item-wrappers e.wrappers in
    rw (validate_vault_envelope-decided e) (
      λ h.
          let t = tests.0 h in
          record {
            vault = (test_iff e.vault_id "").0 t.0;
            user = (test_iff e.privy_user_id "").0 t.1;
            sealed = (test_iff e.ciphertext "").0 t.2;
            clean = wrappers.0 t.3;
          },
      λ h. tests.1 (
        (test_iff e.vault_id "").1 h.vault,
        (test_iff e.privy_user_id "").1 h.user,
        (test_iff e.ciphertext "").1 h.sealed,
        wrappers.1 h.clean,
      ),
    )
