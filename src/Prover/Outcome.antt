-- ===== src/Prover/Outcome.antt =====
-- What becomes of a job that the prover has claimed.
use shade.Shared.{ℕ, String, true, ◌≡◌, ◌≢◌, refl, ◌⊎◌, inl, inr, some, All-map}
use shade.Shared.Results.{Result, ok, err, running}
use shade.Shared.State.{◌>>=◌, pure, modify, Holds, Ensures, >>=-Ensures, >>=-after}
use shade.Queue.{ServiceJob, claim_next, complete, fail}
use shade.Queue.Reported.{OnRow, update_job-OnRow, IsFailed, fail-IsFailed}
use shade.Proving.{Tools}
use shade.Prover.{
  ProofPayload, ProofResult, World, proof_job_types, tag_of, process_proof_job, settle_job,
  run_prover_once,
}
use shade.Prover.Verified.{IsVerified, prove_job-IsVerified}

module _ (tools : Tools) (scratch : String) where
  -- The row shows a proof that has verified.
  abbrev pub IsReady : ServiceJob ProofPayload ProofResult → Type 0
  IsReady j =
      (j.status ≡ "ready") × (r : ProofResult) × (j.result ≡ some r) × IsVerified tools scratch r

  abbrev Completed : String → ProofResult → World → Type 0
  Completed id r w = OnRow IsReady id w.tables.jobs

  complete-Completed :
      (id : String) (r : ProofResult)
      → IsVerified tools scratch r
      → Ensures
          (λ (x : ProofResult) w. Completed id r w)
          (modify (λ (w : World). record w { tables = complete w.tables id r "ready" }) >>= λ _.
            pure r)
  unfolding ◌>>=◌ complete
  complete-Completed id r v w _ =
      update_job-OnRow IsReady id _ w.tables.jobs (λ j. (refl, r, refl, v))

  process_proof_job-Completed :
      (j : ServiceJob ProofPayload ProofResult)
      → Ensures
          (λ (x : ProofResult) w. OnRow IsReady j.job_id w.tables.jobs)
          (process_proof_job tools scratch j)
  unfolding process_proof_job
  process_proof_job-Completed j = >>=-after R _ _ λ coin. >>=-after R _ _ λ _. >>=-after R _ _ λ _.
      >>=-Ensures (IsVerified tools scratch) R _ _
        (prove_job-IsVerified tools scratch j.payload (tag_of tools scratch j) coin j.job_id
          j.job_type)
        λ result verified.
          >>=-after R _ _ λ _. >>=-after R _ _ λ _. complete-Completed j.job_id result verified
    where
      R : ProofResult → World → Type 0
      R x w = OnRow IsReady j.job_id w.tables.jobs

  abbrev pub IsSettled : ServiceJob ProofPayload ProofResult → Type 0
  IsSettled j = IsReady j ⊎ IsFailed j

  settle_job-Settled :
      (id : String) (now : ℕ) (r : Result ProofResult) (w : World)
      → r ≢ running
      → Holds (λ (x : ProofResult) s. OnRow IsReady id s.tables.jobs) (r, w)
      → OnRow IsSettled id (settle_job tools scratch id now (r, w)).tables.jobs
  settle_job-Settled id now (ok r) w n h =
      All-map (λ j. j.job_id ≡ id → IsReady j) (λ j. j.job_id ≡ id → IsSettled j)
        (λ j ready e. inl (ready e)) w.tables.jobs h
  settle_job-Settled id now (err e) w n h =
      All-map (λ j. j.job_id ≡ id → IsFailed j) (λ j. j.job_id ≡ id → IsSettled j)
        (λ j failed e. inr (failed e)) (fail w.tables id e now 10).jobs
        (fail-IsFailed w.tables id e now 10)
  settle_job-Settled id now running w n h = absurd (n refl)

  -- A job that a turn of the prover claims, and whose tools come to an end, is left `ready` with a result
  -- that shows a proof which has verified, or `failed` or `failed_retry`.
  pub run_prover_once-Settled :
      (w : World) (now : ℕ) (j : ServiceJob ProofPayload ProofResult)
      → let (claim, tables) = claim_next w.tables "prover" proof_job_types now in
        claim ≡ some j
        → (process_proof_job tools scratch j (record w { tables = tables })).0 ≢ running
        → ((run_prover_once tools scratch w now).0 ≡ true)
          × OnRow IsSettled j.job_id (run_prover_once tools scratch w now).1.tables.jobs
  unfolding run_prover_once
  run_prover_once-Settled w now j e n =
      let before : World = record w {
        tables = (claim_next w.tables "prover" proof_job_types now).1;
      } in
      let after = process_proof_job tools scratch j before in
      rw (e, run_prover_once)
        (
          refl,
          settle_job-Settled j.job_id now after.0 after.1 n
              (process_proof_job-Completed j before tt),
        )
