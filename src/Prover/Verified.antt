-- ===== src/Prover/Verified.antt =====
-- A job of the prover is completed only with a proof that has verified.
use shade.Shared.{String, true, ◌≡◌, refl, Option, none, some, ◌==◌, List, inl, inr, Bool-cases}
use shade.Shared.Results.{Result, ok, err, running}
use shade.Shared.State.{Action, Holds, Returns, >>=-Returns, >>=-skip, lift-Returns, guard-Returns}
use shade.Queue.{ServiceJob}
use shade.Cctp.Chain.{DepositBinding}
use shade.Proving.{
  GeneratedCoin, WithdrawBinding, Input, Files, Roots, Groth, Tools, prove, build_note_proof,
  build_transfer_proof, build_deposit_proof,
}
use shade.Prover.{
  ProofPayload, ProofResult, note_proof, transfer_proof, deposit_proof, on_files, prove_transfer,
  prove_deposit, prove_note, prove_job, process_proof_job,
}

-- What the result shows of a proof.
abbrev pub Shows : ProofResult → Groth → Type 0
Shows (note_proof proof public root) g = (proof ≡ g.proof_hex) × (public ≡ g.public_hex)
Shows (transfer_proof proof public state association output) g =
    (proof ≡ g.proof_hex) × (public ≡ g.public_hex)
Shows (deposit_proof proof public commitment) g = (proof ≡ g.proof_hex) × (public ≡ g.public_hex)

module _ (tools : Tools) (scratch : String) where
  -- The result shows a proof that was made of some input and has verified.
  abbrev pub IsVerified : ProofResult → Type 0
  IsVerified r =
      (input : Input) × (g : Groth) × (tools.groth16 input ≡ ok g) × (g.verified ≡ true) × Shows r g

  abbrev Made : Groth → Type 0
  Made g = (input : Input) × (tools.groth16 input ≡ ok g)

  abbrev first-Made : Groth × Roots → Type 0
  first-Made r = Made r.0

  module _ (tag : String) where
    prove-Made :
        (input : Input) (wtns prefix : String)
        → Returns Made (prove tools scratch tag input wtns prefix)
    unfolding prove
    prove-Made input wtns prefix = >>=-skip Made _ _ λ _. >>=-skip Made _ _ λ _.
        >>=-Returns _ Made _ _ (lift-Returns (tools.groth16 input))
          λ g made. >>=-skip Made _ _ λ _. >>=-skip Made _ _ λ _. λ s. (input, made)

    build_note_proof-Made :
        (coin : GeneratedCoin) (commitments : List String) (scope assoc : String)
        (binding : Option WithdrawBinding)
        → Returns
            (λ r. Made r.0)
            (build_note_proof tools scratch tag coin commitments scope assoc binding)
    unfolding build_note_proof
    build_note_proof-Made coin commitments scope assoc binding = >>=-skip first-Made _ _ λ _.
        >>=-skip first-Made _ _ λ roots.
          >>=-skip first-Made _ _
            λ _. >>=-Returns Made first-Made _ _ (prove-Made _ "_witness.wtns" "_") λ g made s. made

    build_transfer_proof-Made :
        (coin : GeneratedCoin) (commitments : List String) (scope fee : String)
        (assoc : Option String)
        → Returns
            (λ r. Made r.0)
            (build_transfer_proof tools scratch tag coin commitments scope fee assoc)
    unfolding build_transfer_proof
    build_transfer_proof-Made coin commitments scope fee assoc = >>=-skip first-Made _ _ λ _.
        >>=-skip first-Made _ _ λ roots. >>=-skip first-Made _ _ λ _.
          >>=-skip first-Made _ _
            λ _. >>=-Returns Made first-Made _ _ (prove-Made _ "_x.wtns" "_x_") λ g made s. made

    build_deposit_proof-Made :
        (coin : GeneratedCoin) (b : DepositBinding)
        → Returns Made (build_deposit_proof tools scratch tag coin b)
    unfolding build_deposit_proof
    build_deposit_proof-Made coin b =
        >>=-skip Made _ _ λ input. >>=-skip Made _ _ λ _. prove-Made input "_dep.wtns" "_dep_"

  -- Code on the files returns what it returns.
  on_files-Returns :
      {A : Type 0} (Q : A → Type 0) (m : Action Files A) → Returns Q m → Returns Q (on_files m)
  unfolding on_files
  on_files-Returns {A} Q m h w = kept (m w.files).0 (m w.files).1 (h w.files)
    where
      kept :
          (r : Result A) (files : Files)
          → Holds (λ a _. Q a) (r, files)
          → Holds (λ a _. Q a) (r, record w { files = files })
      kept (ok a) files k = k
      kept (err e) files k = tt
      kept running files k = tt

  module _ (p : ProofPayload) (tag : String) (coin : GeneratedCoin) (job_id job_type : String) where
    prove_transfer-IsVerified :
        Returns IsVerified (prove_transfer tools scratch p tag coin job_id job_type)
    unfolding prove_transfer
    prove_transfer-IsVerified = >>=-skip IsVerified _ _ λ assoc.
        >>=-Returns first-Made IsVerified _ _
          (on_files-Returns first-Made _ (build_transfer_proof-Made tag coin _ _ _ (some assoc)))
          λ r made.
            >>=-Returns (λ _. r.0.verified ≡ true) IsVerified _ _
              (>>=-skip (λ _. r.0.verified ≡ true) _ _ λ _. guard-Returns r.0.verified _)
              λ _ verified w. (made.0, r.0, made.1, verified, (refl, refl))

    prove_note-IsVerified : Returns IsVerified (prove_note tools scratch p tag coin job_id job_type)
    unfolding prove_note
    prove_note-IsVerified = >>=-skip IsVerified _ _ λ assoc.
        >>=-Returns first-Made IsVerified _ _
          (on_files-Returns first-Made _ (build_note_proof-Made tag coin _ _ assoc p.binding))
          λ r made.
            >>=-Returns (λ _. r.0.verified ≡ true) IsVerified _ _
              (>>=-skip (λ _. r.0.verified ≡ true) _ _ λ _. guard-Returns r.0.verified _)
              λ _ verified w. (made.0, r.0, made.1, verified, (refl, refl))

    prove_deposit-IsVerified :
        (b : Option DepositBinding)
        → Returns IsVerified (prove_deposit tools scratch p tag coin job_id job_type b)
    unfolding prove_deposit
    prove_deposit-IsVerified none = λ w. tt
    prove_deposit-IsVerified (some b) =
        >>=-Returns Made IsVerified _ _
          (on_files-Returns Made _ (build_deposit_proof-Made tag coin b))
          λ g made.
            >>=-Returns (λ _. g.verified ≡ true) IsVerified _ _
              (>>=-skip (λ _. g.verified ≡ true) _ _ λ _. guard-Returns g.verified _)
              λ _ verified w. (made.0, g, made.1, verified, (refl, refl))

    pub prove_job-IsVerified :
        Returns IsVerified (prove_job tools scratch p tag coin job_id job_type)
    unfolding prove_job
    prove_job-IsVerified = elim (Bool-cases (job_type == "private_transfer")) [
      | inl transfer ↦ rw transfer prove_transfer-IsVerified
      | inr other ↦ rw other (elim (Bool-cases (job_type == "deposit_note_mint")) [
        | inl mint ↦ rw mint (prove_deposit-IsVerified p.deposit_binding)
        | inr note ↦ rw note prove_note-IsVerified
      ])
    ]

  -- A job of the prover, of whatever type, returns only a result that shows a proof of some input which
  -- has verified.
  pub process_proof_job-IsVerified :
      (j : ServiceJob ProofPayload ProofResult)
      → Returns IsVerified (process_proof_job tools scratch j)
  unfolding process_proof_job
  process_proof_job-IsVerified j = >>=-skip IsVerified _ _ λ coin. >>=-skip IsVerified _ _ λ _.
      >>=-skip IsVerified _ _ λ _.
        >>=-Returns IsVerified IsVerified _ _
          (prove_job-IsVerified j.payload _ coin j.job_id j.job_type)
          λ result verified.
            >>=-skip IsVerified _ _
              λ _. >>=-skip IsVerified _ _ λ _. >>=-skip IsVerified _ _ λ _ w. verified
