-- ===== src/Vault/Recovered/Tests.antt =====
-- A vault of one note opened with a passphrase, on a toy platform: its cipher puts a tag in front, and its
-- base64 writes each byte in strokes.
use Prim.Native.Char.{code}
use shade.Shared.{
  ℕ, zero, suc, ◌+◌, ◌≡◌, refl, ap, ◌∙◌, arith, String, List, [], ◌∷◌, none, nat_eq, length,
  if◌then◌else◌, ◌&&◌,
}
use shade.Shared.Results.{Result, ok, err, ◌>>=◌}
use shade.Vault.Json.{no_fields}
use shade.Vault.Notes.{VaultNote, NoteVault, create_empty_note_vault, add_note_to_vault}
use shade.Vault.Envelope.{
  VaultWrapper, EncryptedVaultEnvelope, Platform, Draws, recovery_kit_password,
  create_vault_envelope, decrypt_envelope, wrap_vault_key, unwrap_vault_key,
}
use shade.Vault.Recovered.{IsPlatform, unwrap_vault_key-decrypt_envelope}

strokes : ℕ → String → String
strokes zero rest = String.◌∷◌ ";" rest
strokes (suc n) rest = String.◌∷◌ "|" (strokes n rest)

in_strokes : List ℕ → String
in_strokes [] = ""
in_strokes (n ∷ ns) = strokes n (in_strokes ns)

counted : ℕ → String → List ℕ
counted n String.[] = []
counted n (String.◌∷◌ c s) = if nat_eq (code c) 124 then counted (suc n) s else n ∷ counted 0 s

counted-strokes : (k n : ℕ) (rest : String) → counted k (strokes n rest) ≡ (k + n) ∷ counted 0 rest
unfolding counted strokes
counted-strokes k zero rest = ap (λ m. m ∷ counted 0 rest) (omega arith)
counted-strokes k (suc n) rest =
    counted-strokes (suc k) n rest ∙ ap (λ m. m ∷ counted 0 rest) (omega arith)

counted-in_strokes : (ns : List ℕ) → counted 0 (in_strokes ns) ≡ ns
unfolding in_strokes counted
counted-in_strokes [] = refl
counted-in_strokes (n ∷ ns) =
    let same : 0 + n ≡ n = omega arith in
    counted-strokes 0 n (in_strokes ns)
    ∙ (ap (λ m. m ∷ counted 0 (in_strokes ns)) same ∙ ap (λ ms. n ∷ ms) (counted-in_strokes ns))

abbrev bytes : ℕ → List ℕ
bytes zero = []
bytes (suc n) = n ∷ bytes n

abbrev untagged : List ℕ → Result (List ℕ)
untagged [] = err "OperationError"
untagged (t ∷ pt) = if nat_eq t 7 then ok pt else err "OperationError"

abbrev secret_note : VaultNote
secret_note = record {
  commitment = "0xc1";
  asset_id = "USDC";
  amount7dp = "10000000";
  note_preimage = record {
    owner_secret = "o";
    spend_secret = "s";
    blinding = "b";
    nonce = "n";
    memo_commitment = "m";
    compliance_tag = "c";
    source_context = "x";
  };
  deposit_id = none;
  status = "prepared";
  created_at = "today";
}

abbrev one_note : NoteVault
one_note = add_note_to_vault (create_empty_note_vault "vault" "today") secret_note "today"

abbrev toy : Platform
toy = record {
  encrypt = λ key iv aad pt.
      if nat_eq (length key) 32 && nat_eq (length iv) 12 then ok (7 ∷ pt) else err "DataError";
  decrypt = λ key iv aad ct. untagged ct;
  hkdf = λ secret salt info. bytes 32;
  pbkdf2 = λ password salt n. bytes 32;
  to_b64 = in_strokes;
  from_b64 = λ s. ok (counted 0 s);
  to_hex = in_strokes;
  vault_bytes = λ v. 1 ∷ [];
  parse_vault = λ b. ok one_note;
  aad_bytes = λ a. 2 ∷ [];
}

abbrev draws : Draws
draws = record { salt = bytes 16; iv = bytes 12; id = bytes 8 }

toy-IsPlatform : IsPlatform toy
toy-IsPlatform = record {
  encrypts = λ key iv aad pt sized drawn. (7 ∷ pt, rw (sized, drawn) refl, refl);
  hkdf_bits = λ secret salt info. refl;
  pbkdf2_bits = λ password salt n. refl;
  decodes = λ b. ap ok (counted-in_strokes b);
}

unwrap_vault_key-decrypt_envelope_example :
    (w : VaultWrapper) × (env : EncryptedVaultEnvelope) × (wrap_vault_key toy
        (recovery_kit_password "words")
        draws
        no_fields
        (bytes 32)
      ≡ ok w)
    × (create_vault_envelope toy (bytes 12) one_note (bytes 32) "user" "shade" (w ∷ []) ≡ ok env)
    × ((unwrap_vault_key toy w (recovery_kit_password "words") >>= decrypt_envelope toy env)
        ≡ ok one_note)
unwrap_vault_key-decrypt_envelope_example =
    unwrap_vault_key-decrypt_envelope toy toy-IsPlatform (recovery_kit_password "words") draws
      no_fields (bytes 12) one_note (bytes 32) "user" "shade" [] refl refl refl refl
