-- ===== src/Prover.antt =====
-- apps/prover/src/worker.ts: one job of the prover, over the queue and the files of the scratch directory.
pub mod Leftover
pub mod Outcome
pub mod Verified
mod Tests
use Prim.Native.String.{◌++◌}
use shade.Shared.{
  ℕ, String, Bool, true, false, not, List, [], ◌∷◌, Option, none, some, ◌==◌, if◌then◌else◌,
}
use shade.Shared.Maps.{get, put}
use shade.Shared.Texts.{clip, joined}
use shade.Shared.Results.{Result, ok, err, running, guard}
use shade.Shared.State.{Action, ◌>>=◌, ◌>>◌, lift, pure, modify}
use shade.Queue
use shade.Queue.{ServiceJob, claim_next, set_status, complete}
use shade.Cctp.Chain.{DepositBinding}
use shade.Proving.{
  GeneratedCoin, WithdrawBinding, Content, Files, Roots, Groth, Tools, file, hex_root,
  build_note_proof, build_transfer_proof, build_deposit_proof,
}

abbrev pub proof_job_types : List String
proof_job_types =
    "withdraw_public" ∷ "withdraw_cctp" ∷ "rfq_settlement" ∷ "private_transfer"
    ∷ "deposit_note_mint" ∷ []

pub record ProofPayload : Type 0 where
  pub coin_path : String
  pub scope : Option String
  pub commitments_decimal : Option (List String)
  pub assoc_path : Option String
  pub binding : Option WithdrawBinding
  pub fee7dp : Option String
  pub deposit_binding : Option DepositBinding
  pub tag : Option String

-- What a job's result shows.
pub data ProofResult : Type 0 where
  note_proof : String → String → String → ProofResult
  transfer_proof : String → String → String → String → String → ProofResult
  deposit_proof : String → String → String → ProofResult

pub record World : Type 0 where
  pub tables : Queue.Tables ProofPayload ProofResult
  pub files : Files

-- `a ?? b`
abbrev pub or_else : {A : Type 0} → Option A → A → A
or_else none b = b
or_else (some a) b = a

-- `if (!p.assocPath) throw`
unfoldable pub required : Option String → String → Result String
required none message = err message
required (some v) message = if v == "" then err message else ok v

-- Code on the files alone.
unfoldable pub on_files : {A : Type 0} → Action Files A → Action World A
on_files m w = let (r, files) = m w.files in (r, record w { files = files })

abbrev pub status : String → String → String → Action World (Unit {0})
status job_id name detail =
    modify (λ w. record w { tables = set_status w.tables job_id name (some detail) })

-- `rmSync` with `force`: a file that is not there is no error.
unfoldable pub remove_file : String → Files → Files
remove_file path [] = []
remove_file path ((name, content) ∷ files) =
    let rest = remove_file path files in if name == path then rest else (name, content) ∷ rest

module _ (tools : Tools) (scratch : String) where
  abbrev pub assert_verified : String → Bool → Action World (Unit {0})
  assert_verified job_id verified = do
    status job_id "verifying_locally"
        (if verified then "snarkjs verify OK" else "snarkjs verify FAILED")
    lift (guard verified "local proof verification failed")

  module _ (p : ProofPayload) (tag : String) (coin : GeneratedCoin) (job_id job_type : String) where
    abbrev pub all_commitments : List String
    all_commitments = or_else p.commitments_decimal (coin.commitment_decimal ∷ [])

    unfoldable pub prove_transfer : Action World ProofResult
    prove_transfer = do
      assoc ← lift (required p.assoc_path (joined (job_type ∷ " requires assocPath" ∷ [])))
      (g, roots) ← on_files (
          build_transfer_proof tools scratch tag coin all_commitments (or_else p.scope "shade")
            (or_else p.fee7dp "0") (some assoc))
      assert_verified job_id g.verified
      pure (
          transfer_proof g.proof_hex g.public_hex (hex_root roots.state_root)
            (hex_root roots.association_root) (hex_root roots.output_commitment))

    unfoldable pub prove_deposit : Option DepositBinding → Action World ProofResult
    prove_deposit none = lift (err "deposit_note_mint requires depositBinding")
    prove_deposit (some b) = do
      g ← on_files (build_deposit_proof tools scratch tag coin b)
      assert_verified job_id g.verified
      pure (deposit_proof g.proof_hex g.public_hex coin.commitment_hex)

    unfoldable pub prove_note : Action World ProofResult
    prove_note = do
      assoc ← lift (required p.assoc_path (joined (job_type ∷ " requires assocPath" ∷ [])))
      (g, roots) ← on_files (
          build_note_proof tools scratch tag coin all_commitments (or_else p.scope "shade") assoc
            p.binding)
      assert_verified job_id g.verified
      pure (note_proof g.proof_hex g.public_hex (hex_root roots.state_root))

    unfoldable pub prove_job : Action World ProofResult
    unfolding prove_transfer prove_deposit prove_note
    prove_job =
        if job_type == "private_transfer"
        then prove_transfer
        else if job_type == "deposit_note_mint"
        then prove_deposit p.deposit_binding
        else prove_note

  -- The raw witnesses, of whatever circuit.
  unfoldable pub remove_witnesses : String → Files → Files
  unfolding remove_file file
  remove_witnesses tag files = remove_file (file scratch tag "_dep.wtns") (
      remove_file (file scratch tag "_x.wtns")
        (remove_file (file scratch tag "_witness.wtns") files))

  abbrev pub tag_of : ServiceJob ProofPayload ProofResult → String
  tag_of j = or_else j.payload.tag ("job_" ++ clip 8 j.job_id)

  unfoldable pub process_proof_job : ServiceJob ProofPayload ProofResult → Action World ProofResult
  unfolding prove_job remove_witnesses
  process_proof_job j = do
    coin ← lift (tools.read_coin j.payload.coin_path)
    status j.job_id "building_witness" (joined (j.job_type ∷ " witness" ∷ []))
    status j.job_id "proving" "groth16 prove"
    result ← prove_job j.payload (tag_of j) coin j.job_id j.job_type
    status j.job_id "converting_for_soroban" "circom2soroban bytes ready"
    modify (λ w. record w { files = remove_witnesses (tag_of j) w.files })
    modify (λ w. record w { tables = complete w.tables j.job_id result "ready" })
    pure result

  -- A job that throws is failed, with the message.
  abbrev pub settle_job : String → ℕ → Result ProofResult × World → World
  settle_job job_id now (ok r, w) = w
  settle_job job_id now (err e, w) = record w { tables = Queue.fail w.tables job_id e now 10 }
  settle_job job_id now (running, w) = w

  unfoldable pub run_prover_once : World → ℕ → Bool × World
  unfolding process_proof_job
  run_prover_once w now =
      let (claim, tables) = claim_next w.tables "prover" proof_job_types now in
      elim claim [
        | none ↦ (false, w)
        | some j ↦
            (true, settle_job j.job_id now (process_proof_job j (record w { tables = tables })))
      ]
