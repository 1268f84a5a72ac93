-- ===== src/Relayer/Tests.antt =====
-- A worker that settles one signed batch, and one that is asked to settle without a proof.
use shade.Shared.{◌≡◌, refl, true, false, [], ◌∷◌, map, none, some, All, member}
use shade.Mpc.Batch.{
  sign_batch, verify_signed_batch, check_signatures, verify_node_signature, compute_batch_hash,
}
use shade.Shared.Texts.{lower}
use shade.Mpc.Batch.Tests.{toy, committee}
use shade.Settler.{SettlePayload}
use shade.Settler.Tests.{crossing}
use shade.Queue.{ServiceJob, new_job, claimed, claim_next}
use shade.Relayer.World.{
  Payload, EnvMap, Services, JobResult, settled, Outcome, World, settle_fields, truthy,
}
use shade.Relayer.Settle.{settle_submit}
use shade.Relayer.Job.{relayer_job_types, run_relayer_once}
use shade.Relayer.Guards.{Refuses, settle_submit-proofless}
use shade.Relayer.Outcome.{IsReported, run_relayer_once-Reported}

abbrev env : EnvMap
env = record {
  shielded_pool_contract = some "CPOOL";
  stellar_relayer_secret = some "S";
  enable_operator_testnet_deposit = false;
  enable_unsafe_proofless_mpc_settle = false;
}

abbrev services : Services
services = record {
  crypto = toy;
  get_committee = some ("n1" ∷ "n2" ∷ "n3" ∷ []);
  stored_matches = λ id. crossing "i1" "i2" ∷ [];
  leaves = "0x0a" ∷ [];
  compute_root = λ leaves. some 7;
  build_proof = λ p. some (record { proof_hex = "aa"; public_hex = "bb"; locally_verified = true });
  validate_burn = λ p. none;
  fetch_attestation = λ hash. some none;
  answer = λ call. some (record { tx_hash = "tx"; status = "SUCCESS" });
}

abbrev from_settler : SettlePayload
from_settler = record {
  batch_id = "b";
  batch_hash = "h";
  signatures = map (sign_batch toy "b" (crossing "i1" "i2" ∷ [])) committee;
  match_index = 0;
  session_id = "s";
  intent_a_id = "i1";
  intent_b_id = "i2";
  matched_amount7dp = 50;
  input_asset = "USDC";
  output_asset = "XLM";
  nullifier_a = some "0x01";
  nullifier_b = some "0x02";
  output_commitment_a = some "0x03";
  output_commitment_b = some "0x04";
}

abbrev with_witness : Payload
with_witness = record (settle_fields from_settler) {
  coin_a_path = some "a.json";
  coin_b_path = some "b.json";
  assoc_path = some "assoc.json";
}

abbrev job : ServiceJob Payload JobResult
job = new_job "j1" 5 "relayer" "MPC_SETTLE_SUBMIT" with_witness none

abbrev world : World
world = record { tables = record { jobs = job ∷ []; events = [] }; calls = [] }

settles :
    (settle_submit env services "CPOOL" with_witness "j1" world).0
    ≡ Outcome.returned (settled "tx" (services.build_proof with_witness))
unfolding settle_submit verify_signed_batch check_signatures settle_fields member lower sign_batch
    verify_node_signature compute_batch_hash truthy
settles = refl

claims : (claim_next world.tables "relayer" relayer_job_types 9).0 ≡ some (claimed job)
unfolding claim_next member
claims = refl

settle_submit-proofless_example :
    Refuses world (settle_submit env services "CPOOL" (settle_fields from_settler) "j1" world)
settle_submit-proofless_example =
    settle_submit-proofless env services "CPOOL" from_settler "j1" world refl

run_relayer_once-Reported_example :
    ((run_relayer_once env services world 9).0 ≡ true)
    × All
        (λ k. k.job_id ≡ "j1" → IsReported k.status)
        (run_relayer_once env services world 9).1.tables.jobs
run_relayer_once-Reported_example =
    run_relayer_once-Reported env services world 9 (claimed job) claims
