-- ===== src/Cctp/Chain.antt =====
-- What the inbound transfer asks of others: the wallet on Arbitrum, Circle, the contracts on Stellar and
-- the prover. Each request is logged, and what is answered to it may depend on all requests before it,
-- so that others may act in between; a request may also throw.
use shade.Shared.{ℕ, String, Bool, List, ◌∷◌, Option}
use shade.Shared.Results.{Result}
unfoldable pub use shade.Shared.State.{◌>>=◌, ◌>>◌, lift, pure}
use shade.Shared.State.{Action}
use shade.Cctp.{CctpAttestation, Poll, poll_attestation}

-- What the proof of a deposit binds.
pub record DepositBinding : Type 0 where
  pub source_domain : ℕ
  pub destination_domain : ℕ
  pub cctp_nonce : String
  pub burn_tx_hash : String
  pub amount6 : ℕ
  pub amount7 : ℕ
  pub asset : String
  pub pool : String
  pub payload_hash : String
  pub policy_id : String
  pub pool_id : String
  pub chain_id : String

-- The note's opening stays in its file.
pub record DepositProof : Type 0 where
  pub proof_hex : String
  pub public_hex : String
  pub locally_verified : Bool

-- The arguments of `receive_cctp_deposit`, and who signs.
pub record Deposit : Type 0 where
  pub contract : String
  pub signer : String
  pub source_domain : ℕ
  pub cctp_nonce : String
  pub asset : String
  pub amount7 : ℕ
  pub commitment : String
  pub new_root : Option String
  pub payload_hash : String
  pub policy_id : String
  pub proof : Option (String × String)

pub record Burn : Type 0 where
  pub amount6 : ℕ
  pub destination_domain : ℕ
  pub mint_recipient : String
  pub burn_token : String
  pub destination_caller : String
  pub max_fee : ℕ
  pub min_finality_threshold : ℕ
  pub hook_data : String

pub data Request : Type 0 where
  usdc_balance allowance : Request
  approve : ℕ → Request
  burn : Burn → Request
  attestation_of : String → Request
  sac_balance : String → Request
  mint_and_forward : String → String → Request
  prove : String → DepositBinding → Request
  receive_deposit : Deposit → Request
  read_root : String → String → Request

abbrev pub Log : Type 0
Log = List Request

-- A transaction's hash and what it returns, with the quotes and the outer blanks taken off.
pub record Invoked : Type 0 where
  pub tx_hash : String
  pub return_value : String

-- A balance that is read as an empty text is `none`. `timeout` is the patience of the wait for Circle.
pub record Services : Type 0 where
  pub amount : Request → Log → Result (Option ℕ)
  pub invoke : Request → Log → Result Invoked
  pub polls : String → Log → List Poll
  pub build_proof : DepositBinding → Log → Result DepositProof
  pub keccak : String → String
  pub timeout : ℕ

-- What was asked stays asked, also when the code throws.
abbrev pub M : Type 0 → Type 0
M A = Action Log A

module _ (sv : Services) where
  abbrev pub ask_amount : Request → M (Option ℕ)
  ask_amount r l = (sv.amount r l, r ∷ l)

  abbrev pub invoke : Request → M Invoked
  invoke r l = (sv.invoke r l, r ∷ l)

  abbrev pub ask_proof : String → DepositBinding → M DepositProof
  ask_proof coin b l = (sv.build_proof b l, prove coin b ∷ l)

  abbrev pub wait_attestation : String → M CctpAttestation
  wait_attestation tx l = (poll_attestation sv.timeout (sv.polls tx l), attestation_of tx ∷ l)
