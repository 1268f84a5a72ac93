-- ===== src/Proving.antt =====
-- packages/proving/src/prove.ts: the builders of proofs over the files that they write in the scratch
-- directory. The programs coinutils, snarkjs and circom2soroban are functions that may throw.
pub mod Fields
use shade.Shared.{
  ℕ, zero, suc, String, Bool, true, false, List, [], ◌∷◌, Option, none, some, if◌then◌else◌, ◌==◌,
}
use shade.Shared.Maps.{Assoc, put}
use shade.Shared.Texts.{joined, strip_hex, clip, parse_hex, hex_digits}
use shade.Shared.Results.{Result, ok, err, running, or_throw}
use shade.Shared.State.{Action, ◌>>=◌, ◌>>◌, lift, pure, modify}
use shade.Cctp.Chain.{DepositBinding}

pub record GeneratedCoin : Type 0 where
  pub path : String
  pub commitment_hex : String
  pub commitment_decimal : String

-- The secrets of a note.
pub record Opening : Type 0 where
  pub value : String
  pub label : String
  pub nullifier : String
  pub secret : String

pub record WithdrawBinding : Type 0 where
  pub operation_type : String
  pub recipient_hash : String
  pub relayer_fee : String
  pub deadline_ledger : String
  pub quote_hash : Option String
  pub intent_hash : Option String
  pub fill_receipt_hash : Option String
  pub destination_domain : Option String
  pub destination_recipient : Option String
  pub max_fee : Option String
  pub min_finality_threshold : Option String

-- The public inputs of a deposit's circuit, beside the opening of its note.
pub record DepositInput : Type 0 where
  pub binding : DepositBinding
  pub cctp_nonce_hash : ℕ
  pub burn_tx_hash_hash : ℕ
  pub asset_id_hash : ℕ
  pub recipient_pool : ℕ
  pub encrypted_note_payload_hash : ℕ
  pub policy_id_hash : ℕ
  pub opening : Opening

-- What a circuit's witness is made of.
pub data Input : Type 0 where
  withdraw : String → List String → String → String → List String → Input
  transfer : String → List String → String → String → Option String → Input
  deposit : DepositInput → Input

-- What a file of the scratch directory holds: the note's opening, or what may be seen.
pub data Content : Type 0 where
  secret_input : Input → Content
  witness : Input → Content
  public_data : Content

abbrev pub Files : Type 0
Files = Assoc Content

pub record Roots : Type 0 where
  pub state_root : ℕ
  pub association_root : ℕ
  pub output_commitment : ℕ

-- What snarkjs and circom2soroban make of a witness.
pub record Groth : Type 0 where
  pub proof_hex : String
  pub public_hex : String
  pub verified : Bool

pub record Tools : Type 0 where
  pub read_coin : String → Result GeneratedCoin
  pub opening_of : String → Result Opening
  pub coinutils : Input → Result Roots
  pub calculate : Input → Result (Unit {0})
  pub groth16 : Input → Result Groth
  pub sha256_hex : String → String

-- `${scratch}/${tag}${suffix}`
unfoldable pub file : String → String → String → String
file scratch tag suffix = joined (scratch ∷ "/" ∷ tag ∷ suffix ∷ [])

-- `hexRoot`
unfoldable pub hex_root : ℕ → String
hex_root n = joined ("0x" ∷ hex_digits 64 n ∷ [])

-- `hashToField`: the first 31 bytes.
unfoldable pub hash_to_field : String → Result ℕ
hash_to_field hex32 = or_throw (parse_hex (clip 62 (strip_hex hex32))) "Cannot convert to a BigInt"

abbrev pub or_zero : Option String → String
or_zero none = "0"
or_zero (some s) = s

abbrev pub no_binding : WithdrawBinding
no_binding = record {
  operation_type = "1";
  recipient_hash = "0";
  relayer_fee = "0";
  deadline_ledger = "0";
  quote_hash = none;
  intent_hash = none;
  fill_receipt_hash = none;
  destination_domain = none;
  destination_recipient = none;
  max_fee = none;
  min_finality_threshold = none;
}

-- `binding ?? {…}`
abbrev pub bound : Option WithdrawBinding → WithdrawBinding
bound none = no_binding
bound (some b) = b

-- The arguments of coinutils, in their order.
abbrev pub binding_args : WithdrawBinding → List String
binding_args b =
    b.operation_type
    ∷ b.recipient_hash
    ∷ b.relayer_fee
    ∷ b.deadline_ledger
    ∷ or_zero b.quote_hash
    ∷ or_zero b.intent_hash
    ∷ or_zero b.fill_receipt_hash
    ∷ or_zero b.destination_domain
    ∷ or_zero b.destination_recipient
    ∷ or_zero b.max_fee
    ∷ or_zero b.min_finality_threshold
    ∷ []

abbrev pub write : String → Content → Action Files (Unit {0})
write path content = modify (put path content)

module _ (tools : Tools) (scratch tag : String) where
  -- The witness of an input, and its proof, which is verified.
  unfoldable pub prove : Input → String → String → Action Files Groth
  unfolding file
  prove input wtns prefix = do
    lift (tools.calculate input)
    write (file scratch tag wtns) (witness input)
    g ← lift (tools.groth16 input)
    write (file scratch tag (joined (prefix ∷ "proof.json" ∷ []))) public_data
    write (file scratch tag (joined (prefix ∷ "public.json" ∷ []))) public_data
    pure g

  unfoldable pub build_note_proof :
      GeneratedCoin
      → List String
      → String
      → String
      → Option WithdrawBinding
      → Action Files (Groth × Roots)
  unfolding prove file
  build_note_proof coin commitments scope assoc_path binding = do
    let input = withdraw coin.path commitments scope assoc_path (binding_args (bound binding))
    write (file scratch tag "_state.json") public_data
    roots ← lift (tools.coinutils input)
    write (file scratch tag "_input.json") (secret_input input)
    g ← prove input "_witness.wtns" "_"
    pure (g, roots)

  unfoldable pub build_transfer_proof :
      GeneratedCoin → List String → String → String → Option String → Action Files (Groth × Roots)
  unfolding prove file
  build_transfer_proof coin commitments scope fee7dp assoc_path = do
    let input = transfer coin.path commitments scope fee7dp assoc_path
    write (file scratch tag "_xstate.json") public_data
    roots ← lift (tools.coinutils input)
    write (file scratch tag "_xfer.json") (secret_input input)
    write (file scratch tag "_xout.json") (secret_input input)
    g ← prove input "_x.wtns" "_x_"
    pure (g, roots)

  -- `hashToField` of a text's own hash, and `recipientHashField`.
  abbrev pub field_of : String → Result ℕ
  field_of s = hash_to_field (tools.sha256_hex s)

  unfoldable pub deposit_input : GeneratedCoin → DepositBinding → Action Files Input
  unfolding hash_to_field
  deposit_input coin b = do
    opening ← lift (tools.opening_of coin.path)
    nonce ← lift (hash_to_field b.cctp_nonce)
    burn ← lift (field_of b.burn_tx_hash)
    asset ← lift (field_of b.asset)
    pool ← lift (field_of b.pool)
    payload ← lift (hash_to_field b.payload_hash)
    policy ← lift (hash_to_field b.policy_id)
    pure (
        deposit (record {
          binding = b;
          cctp_nonce_hash = nonce;
          burn_tx_hash_hash = burn;
          asset_id_hash = asset;
          recipient_pool = pool;
          encrypted_note_payload_hash = payload;
          policy_id_hash = policy;
          opening = opening;
        }))

  unfoldable pub build_deposit_proof : GeneratedCoin → DepositBinding → Action Files Groth
  unfolding deposit_input prove file
  build_deposit_proof coin b = do
    input ← deposit_input coin b
    write (file scratch tag "_dep_input.json") (secret_input input)
    prove input "_dep.wtns" "_dep_"
