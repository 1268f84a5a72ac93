-- ===== src/Relayer/Settle.antt =====
-- The branch MPC_SETTLE_SUBMIT of `processRelayerJob`, and `computeMpcRoot`.
use shade.Shared.Texts.{printed, lower, strip_hex, parse_hex, hex_digits, joined}
use shade.Shared.{
  ℕ, suc, String, Bool, false, not, ◌&&◌, ◌||◌, List, [], ◌∷◌, ◌++◌, map, Option, none, some,
  length, if◌then◌else◌,
}
use shade.Mpc.Matching.{MatchResult}
use shade.Mpc.Batch.{SignedMatchBatch, CommitteeNodeInfo, verify_signed_batch}
use shade.Relayer.World.{
  Payload, EnvMap, SettlementProof, invoke, Answer, Services, JobResult, settled, Outcome, returned,
  threw, World, truthy, text, status,
}

abbrev all_some : List (Option ℕ) → Option (List ℕ)
all_some [] = some []
all_some (none ∷ xs) = none
all_some (some x ∷ xs) = elim (all_some xs) [ none ↦ none | some ys ↦ some (x ∷ ys) ]

abbrev to_decimal : String → Option ℕ
to_decimal h = parse_hex (strip_hex h)

abbrev root_of : Services → Option (List ℕ) → Option String
root_of sv none = none
root_of sv (some leaves) = elim (sv.compute_root leaves) [
  | none ↦ none
  | some root ↦ some (hex_digits 64 root)
]

-- Leaves that do not parse are given up as if the database were away; new commitments that do not, throw.
abbrev known_leaves : Option (List ℕ) → List ℕ
known_leaves none = []
known_leaves (some leaves) = leaves

unfoldable pub compute_mpc_root : Services → String → String → Option String
unfolding parse_hex strip_hex hex_digits
compute_mpc_root sv a b = elim (all_some (to_decimal a ∷ to_decimal b ∷ [])) [
  | none ↦ none
  | some new ↦ root_of sv (some (known_leaves (all_some (map to_decimal sv.leaves)) ++ new))
]

-- The matches that the signatures are checked against: those of the database, or the one of the job.
unfoldable pub batch_matches : Services → Payload → List MatchResult
batch_matches sv p = elim (sv.stored_matches p.batch_id) [
  | m ∷ ms ↦ m ∷ ms
  | [] ↦
      if truthy p.intent_a_id && truthy p.intent_b_id
      then record {
        intent_a_id = text p.intent_a_id;
        intent_b_id = text p.intent_b_id;
        matched_amount7dp = p.matched_amount7dp;
        input_asset = p.input_asset;
        output_asset = p.output_asset;
      }
        ∷ []
      else []
]

unfoldable pub settle_batch : Services → Payload → SignedMatchBatch
unfolding batch_matches
settle_batch sv p = record {
  batch_id = p.batch_id;
  session_id = p.session_id;
  matches = batch_matches sv p;
  batch_hash = p.batch_hash;
  signatures = p.signatures;
}

abbrev pub chain_nodes : ℕ → List String → List CommitteeNodeInfo
chain_nodes i [] = []
chain_nodes i (pk ∷ keys) =
    record {
      node_id = joined ("chain-" ∷ printed i ∷ []);
      encryption_pubkey = "";
      signing_pubkey = lower pk;
    }
    ∷ chain_nodes (suc i) keys

-- The committee of the pool's contract; `none` where reading it throws, or where it is empty.
unfoldable pub pin_committee : Option (List String) → Option (List CommitteeNodeInfo)
pin_committee none = none
pin_committee (some []) = none
pin_committee (some (pk ∷ keys)) = some (chain_nodes 0 (pk ∷ keys))

abbrev pub with_proof : Option SettlementProof → String → World → Option SettlementProof × World
with_proof none job_id w = (none, w)
with_proof (some proof) job_id w = (some proof, status w job_id "proof_ready" "ZK proof generated")

-- A proof is tried where the job names the files of its witness; a failure of it is only logged.
unfoldable pub settle_proof : Services → Payload → String → World → Option SettlementProof × World
settle_proof sv p job_id w =
    if truthy p.coin_a_path && (truthy p.coin_b_path && truthy p.assoc_path)
    then with_proof (sv.build_proof p) job_id (
        status w job_id "proving"
          (joined ("generating mpc_settlement ZK proof for batch " ∷ p.batch_id ∷ [])))
    else (none, w)

unfoldable pub missing_note : Payload → Bool
missing_note p =
    not (truthy p.nullifier_a)
    || (not (truthy p.nullifier_b)
        || (not (truthy p.output_commitment_a) || not (truthy p.output_commitment_b)))

-- Both halves of the proof are there and not empty.
unfoldable pub has_proof : Option SettlementProof → Bool
has_proof none = false
has_proof (some proof) = truthy (some proof.proof_hex) && truthy (some proof.public_hex)

abbrev hex_arg : Option String → List String
hex_arg none = "null" ∷ []
hex_arg (some s) = (if truthy (some s) then joined ("\"" ∷ s ∷ "\"" ∷ []) else "null") ∷ []

abbrev proof_args : Option SettlementProof → List String
proof_args none = "--proof_bytes" ∷ "null" ∷ "--pub_signals_bytes" ∷ "null" ∷ []
proof_args (some proof) =
    "--proof_bytes"
    ∷ (hex_arg (some proof.proof_hex) ++ "--pub_signals_bytes" ∷ hex_arg (some proof.public_hex))

-- The JSON lists of keys and signatures are passed as their elements.
unfoldable pub settle_args : Payload → String → Option SettlementProof → List String
unfolding strip_hex
settle_args p root proof =
    "--nullifier_a"
    ∷ strip_hex (text p.nullifier_a)
    ∷ "--nullifier_b"
    ∷ strip_hex (text p.nullifier_b)
    ∷ "--output_commitment_a"
    ∷ strip_hex (text p.output_commitment_a)
    ∷ "--output_commitment_b"
    ∷ strip_hex (text p.output_commitment_b)
    ∷ "--new_root"
    ∷ root
    ∷ "--batch_hash"
    ∷ strip_hex p.batch_hash
    ∷ "--signer_pubkeys"
    ∷ (map (λ s. strip_hex s.signing_pubkey) p.signatures
        ++ "--signatures" ∷ (map (λ s. strip_hex s.signature) p.signatures ++ proof_args proof))

abbrev pub settle_result : Option Answer → Option SettlementProof → Outcome JobResult
settle_result none proof = threw "mpc_settle failed"
settle_result (some a) proof = returned (settled a.tx_hash proof)

module _ (env : EnvMap) (sv : Services) (pool : String) (p : Payload) (job_id : String) where
  -- From the note data on: the guards, the root, and the call of the contract.
  unfoldable pub submit_settle : Option SettlementProof → World → Outcome JobResult × World
  unfolding missing_note has_proof settle_args compute_mpc_root
  submit_settle proof w =
      if missing_note p
      then (threw "note data missing from DB", w)
      else if not (has_proof proof) && not env.enable_unsafe_proofless_mpc_settle
      then (threw "refusing to submit proofless mpc_settle", w)
      else let w' =
          status w job_id "submitting"
            (joined ("pool.mpc_settle match[" ∷ printed p.match_index ∷ "]" ∷ [])) in
        elim (compute_mpc_root sv (text p.output_commitment_a) (text p.output_commitment_b)) [
          | none ↦ (threw "compute-root failed", w')
          | some root ↦
              let call = invoke pool "mpc_settle" (settle_args p root proof) in
              (settle_result (sv.answer call) proof, record w' { calls = call ∷ w'.calls })
        ]

  unfoldable pub settle_submit : World → Outcome JobResult × World
  unfolding settle_batch pin_committee settle_proof submit_settle
  settle_submit w = elim (pin_committee sv.get_committee) [
    | none ↦ (threw "failed to pin committee from pool.get_committee()", w)
    | some committee ↦
        if not (verify_signed_batch sv.crypto (settle_batch sv p) committee)
        then (threw "signature verification failed", w)
        else let verified = status w job_id "verified_signatures" (
            joined (
              "batch "
              ∷ p.batch_id
              ∷ " — "
              ∷ printed (length p.signatures)
              ∷ " committee sigs valid"
              ∷ [])) in
          let (proof, proved) = settle_proof sv p job_id verified in submit_settle proof proved
  ]
