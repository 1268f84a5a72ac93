-- ===== src/Relayer/World.antt =====
-- What a job holds, what the worker reads and what it does outside: the database, the pool's contract,
-- Circle's service and the prover are functions of the request, and every request that is no mere
-- reading is logged.
use shade.Shared.{ℕ, String, Bool, false, not, List, [], ◌∷◌, Option, none, some, ◌==◌}
use shade.Mpc.Matching.{MatchResult}
use shade.Mpc.Batch.{NodeSignature, Crypto}
use shade.Settler.{SettlePayload}
use shade.Queue.{Tables, set_status}

-- The fields of `job.payload` that the worker reads, on a job of any type; a missing field is `none`.
pub record Payload : Type 0 where
  pub pool : Option String
  pub signed_xdr : Option String
  pub burn_tx_hash : Option String
  pub message : Option String
  pub attestation : Option String
  pub source_wallet_address : Option String
  pub commitment : Option String
  pub coin_path : Option String
  pub call_args : List String
  pub batch_id : String
  pub batch_hash : String
  pub session_id : String
  pub signatures : List NodeSignature
  pub match_index : ℕ
  pub intent_a_id : Option String
  pub intent_b_id : Option String
  pub matched_amount7dp : ℕ
  pub input_asset : String
  pub output_asset : String
  pub nullifier_a : Option String
  pub nullifier_b : Option String
  pub output_commitment_a : Option String
  pub output_commitment_b : Option String
  pub coin_a_path : Option String
  pub coin_b_path : Option String
  pub assoc_path : Option String

-- A payload of the settler, which has no other field.
unfoldable pub settle_fields : SettlePayload → Payload
settle_fields p = record {
  pool = none;
  signed_xdr = none;
  burn_tx_hash = none;
  message = none;
  attestation = none;
  source_wallet_address = none;
  commitment = none;
  coin_path = none;
  call_args = [];
  batch_id = p.batch_id;
  batch_hash = p.batch_hash;
  session_id = p.session_id;
  signatures = p.signatures;
  match_index = p.match_index;
  intent_a_id = some p.intent_a_id;
  intent_b_id = some p.intent_b_id;
  matched_amount7dp = p.matched_amount7dp;
  input_asset = p.input_asset;
  output_asset = p.output_asset;
  nullifier_a = p.nullifier_a;
  nullifier_b = p.nullifier_b;
  output_commitment_a = p.output_commitment_a;
  output_commitment_b = p.output_commitment_b;
  coin_a_path = none;
  coin_b_path = none;
  assoc_path = none;
}

-- The variables of the environment that steer the worker; a flag is whether it is "true".
pub record EnvMap : Type 0 where
  pub shielded_pool_contract : Option String
  pub stellar_relayer_secret : Option String
  pub enable_operator_testnet_deposit : Bool
  pub enable_unsafe_proofless_mpc_settle : Bool

pub record SettlementProof : Type 0 where
  pub proof_hex : String
  pub public_hex : String
  pub locally_verified : Bool

-- A request that changes something outside.
pub data Call : Type 0 where
  cctp_inbound : String → Payload → Call
  broadcast : String → Call
  invoke : String → String → List String → Call
  post_user_burn : String → Payload → Call

pub record Answer : Type 0 where
  pub tx_hash : String
  pub status : String

-- `none` where the source throws. `get_committee` is `pool.get_committee()`, `stored_matches` the column
-- `matches_json`, `leaves` the column `commitment` by `leaf_index`, and `compute_root` what coinutils
-- prints for a list of commitments.
pub record Services : Type 0 where
  pub crypto : Crypto
  pub get_committee : Option (List String)
  pub stored_matches : String → List MatchResult
  pub leaves : List String
  pub compute_root : List ℕ → Option ℕ
  pub build_proof : Payload → Option SettlementProof
  pub validate_burn : Payload → Option Answer
  pub fetch_attestation : String → Option (Option Answer)
  pub answer : Call → Option Answer

-- The results of jobs, by the branch that gives them.
pub data JobResult : Type 0 where
  submitted : Answer → JobResult
  pending : String → JobResult
  attested : Answer → JobResult
  submit_via_arbitrum : JobResult
  burn_validated : Answer → JobResult
  note_active : Answer → JobResult
  settled : String → Option SettlementProof → JobResult

pub data Outcome (A : Type 0) : Type 0 where
  returned : A → Outcome A
  threw : String → Outcome A

pub record World : Type 0 where
  pub tables : Tables Payload JobResult
  pub calls : List Call

-- A JavaScript value counts as true: it is there, and not the empty text.
unfoldable pub truthy : Option String → Bool
truthy none = false
truthy (some s) = not (s == "")

-- `String(p.x)`
abbrev pub text : Option String → String
text none = "undefined"
text (some s) = s

abbrev pub status : World → String → String → String → World
status w job_id name detail = record w { tables = set_status w.tables job_id name (some detail) }

abbrev pub answered : Option Answer → (Answer → JobResult) → String → Outcome JobResult
answered none result error = threw error
answered (some a) result error = returned (result a)

-- Makes a request, with the result made of its answer.
unfoldable pub perform : Services → Call → (Answer → JobResult) → World → Outcome JobResult × World
perform sv call result w =
    (answered (sv.answer call) result "request failed", record w { calls = call ∷ w.calls })
