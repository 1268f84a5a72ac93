-- ===== src/Vault/Json.antt =====
-- JSON values, and the two walks over them.
use shade.Shared.{
  ℕ, String, Bool, ◌||◌, List, [], ◌∷◌, Option, none, some, ◌==◌, if◌then◌else◌, member,
}

-- `Items` and `Fields` are the lists inside an array and an object.
mutual
  pub data Json : Type 0 where
    null : Json
    bool : Bool → Json
    number : ℕ → Json
    text : String → Json
    array : Items → Json
    object : Fields → Json

  pub data Items : Type 0 where
    no_items : Items
    item : Json → Items → Items

  pub data Fields : Type 0 where
    no_fields : Fields
    field : String → Json → Fields → Fields

-- `PLAINTEXT_FORBIDDEN`
abbrev pub plaintext_forbidden : List String
plaintext_forbidden =
    "owner_secret" ∷ "spend_secret" ∷ "blinding" ∷ "nonce" ∷ "note_preimage" ∷ "vault_master_key"
    ∷ "raw_signature" ∷ "private_key" ∷ "secret" ∷ []

unfoldable pub is_forbidden : String → Bool
unfolding member
is_forbidden k = member k plaintext_forbidden

-- The first error of two steps in a row.
abbrev pub or_else : Option String → Option String → Option String
or_else (some k) later = some k
or_else none later = later

-- The walk of `assertNoPlaintextNoteFields`: the key that its error names, or none where it passes.
unfoldable mutual
  unfolding is_forbidden

  pub forbidden_key : Json → Option String
  forbidden_key null = none
  forbidden_key (bool b) = none
  forbidden_key (number n) = none
  forbidden_key (text s) = none
  forbidden_key (array xs) = forbidden_item xs
  forbidden_key (object fs) = forbidden_field fs

  pub forbidden_item : Items → Option String
  forbidden_item no_items = none
  forbidden_item (item v xs) = or_else (forbidden_key v) (forbidden_item xs)

  pub forbidden_field : Fields → Option String
  forbidden_field no_fields = none
  forbidden_field (field k v fs) =
      let inside = forbidden_key v in
      let rest = forbidden_field fs in if is_forbidden k then some k else or_else inside rest

unfoldable pub hides : String → Bool
unfolding is_forbidden
hides k = is_forbidden k || k == "wrapped_key" || k == "ciphertext"

abbrev pub redacted : Json
redacted = text "[REDACTED]"

-- The walk of `redactVaultForLogs`.
unfoldable mutual
  unfolding hides

  pub redact : Json → Json
  redact null = null
  redact (bool b) = bool b
  redact (number n) = number n
  redact (text s) = text s
  redact (array xs) = array (redact_items xs)
  redact (object fs) = object (redact_fields fs)

  pub redact_items : Items → Items
  redact_items no_items = no_items
  redact_items (item v xs) = item (redact v) (redact_items xs)

  pub redact_fields : Fields → Fields
  redact_fields no_fields = no_fields
  redact_fields (field k v fs) =
      let inside = redact v in field k (if hides k then redacted else inside) (redact_fields fs)
