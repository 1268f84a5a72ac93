-- ===== src/Vault/Notes.antt =====
-- packages/note-vault/src/index.ts: the notes of a vault. `version` is a constant, which is left out.
use shade.Shared.{String, List, [], ◌∷◌, ◌++◌, Option, ◌==◌, if◌then◌else◌}

pub record NotePreimage : Type 0 where
  pub owner_secret : String
  pub spend_secret : String
  pub blinding : String
  pub nonce : String
  pub memo_commitment : String
  pub compliance_tag : String
  pub source_context : String

pub record VaultNote : Type 0 where
  pub commitment : String
  pub asset_id : String
  pub amount7dp : String
  pub note_preimage : NotePreimage
  pub deposit_id : Option String
  pub status : String
  pub created_at : String

pub record NoteVault : Type 0 where
  pub vault_id : String
  pub created_at : String
  pub updated_at : String
  pub notes : List VaultNote

abbrev pub create_empty_note_vault : String → String → NoteVault
create_empty_note_vault vault_id now = record {
  vault_id = vault_id;
  created_at = now;
  updated_at = now;
  notes = [];
}

-- `notes.filter((n) => n.commitment !== note.commitment)`
unfoldable pub others : String → List VaultNote → List VaultNote
others commitment [] = []
others commitment (n ∷ notes) =
    let rest = others commitment notes in if n.commitment == commitment then rest else n ∷ rest

unfoldable pub add_note_to_vault : NoteVault → VaultNote → String → NoteVault
unfolding others
add_note_to_vault vault note now = record vault {
  updated_at = now;
  notes = others note.commitment vault.notes ++ (note ∷ []);
}
