-- ===== src/Prover/Tests.antt =====
-- A queued job of the withdrawal circuit, and tools that prove it.
use shade.Shared.{ℕ, ◌≡◌, refl, String, true, [], ◌∷◌, none, some, member}
use shade.Shared.Results.{ok}
use shade.Shared.State.{◌>>=◌}
use shade.Queue.{ServiceJob, claim_next}
use shade.Queue.Reported.{OnRow}
use shade.Proving.{Tools, build_note_proof, hex_root}
use shade.Prover.{
  ProofPayload, ProofResult, note_proof, World, required, on_files, process_proof_job,
  run_prover_once,
}
use shade.Prover.Outcome.{IsSettled, run_prover_once-Settled}

abbrev tools : Tools
tools = record {
  read_coin = λ path. ok (record { path = path; commitment_hex = "0x5"; commitment_decimal = "5" });
  opening_of = λ path. ok (record { value = "1"; label = "2"; nullifier = "3"; secret = "4" });
  coinutils = λ i. ok (record { state_root = 7; association_root = 8; output_commitment = 9 });
  calculate = λ i. ok tt;
  groth16 = λ i. ok (record { proof_hex = "aa"; public_hex = "bb"; verified = true });
  sha256_hex = λ s. s;
}

abbrev payload : ProofPayload
payload = record {
  coin_path = "coin.json";
  scope = none;
  commitments_decimal = none;
  assoc_path = some "assoc.json";
  binding = none;
  fee7dp = none;
  deposit_binding = none;
  tag = some "t";
}

abbrev job : String → ℕ → ServiceJob ProofPayload ProofResult
job status attempts = record {
  job_id = "j1";
  job_type = "withdraw_public";
  queue = "prover";
  idempotency_key = none;
  payload = payload;
  status = status;
  attempts = attempts;
  max_attempts = 3;
  result = none;
  error = none;
  available_at = 0;
  created_at = 0;
}

abbrev world : World
world = record { tables = record { jobs = job "queued" 0 ∷ []; events = [] }; files = [] }

abbrev claimed_job : ServiceJob ProofPayload ProofResult
claimed_job = job "claimed" 1

process_test :
    (process_proof_job tools "scratch" claimed_job world).0 ≡ ok (note_proof "aa" "bb" (hex_root 7))
unfolding process_proof_job ◌>>=◌ on_files build_note_proof required
process_test = refl

run_prover_once-Settled_example :
    ((run_prover_once tools "scratch" world 5).0 ≡ true)
    × OnRow (IsSettled tools "scratch") "j1" (run_prover_once tools "scratch" world 5).1.tables.jobs
unfolding claim_next process_proof_job ◌>>=◌ on_files build_note_proof required member
run_prover_once-Settled_example =
    run_prover_once-Settled tools "scratch" world 5 claimed_job refl (λ e. cc)
