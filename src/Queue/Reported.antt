-- ===== src/Queue/Reported.antt =====
-- The status that the report on a job leaves in its row.
use shade.Shared.{
  ℕ, String, ◌≡◌, refl, ◌⊎◌, inl, inr, List, [], ◌∷◌, arith, ◌==◌, eq_iff, leb, Bool-cases,
  Option-cases, All,
}
use shade.Queue.{ServiceJob, Tables, update_job, get_job, fail}

module _ {P R : Type 0} where
  -- Every row of this id.
  abbrev pub OnRow : (ServiceJob P R → Type 0) → String → List (ServiceJob P R) → Type 0
  OnRow Q id jobs = All (λ j. j.job_id ≡ id → Q j) jobs

  pub update_job-OnRow :
      (Q : ServiceJob P R → Type 0) (id : String) (change : ServiceJob P R → ServiceJob P R)
      (jobs : List (ServiceJob P R))
      → ((j : ServiceJob P R) → Q (change j))
      → OnRow Q id (update_job id change jobs)
  unfolding update_job
  update_job-OnRow Q id change [] h = tt
  update_job-OnRow Q id change (j ∷ jobs) h = (
    elim (Bool-cases (j.job_id == id)) [
      | inl hit ↦ rw hit (λ e. h j)
      | inr miss ↦ rw miss (λ e. absurd (ground (arith, eq_iff j.job_id id)))
    ],
    update_job-OnRow Q id change jobs h,
  )

  abbrev pub IsFailed : ServiceJob P R → Type 0
  IsFailed j = (j.status ≡ "failed") ⊎ (j.status ≡ "failed_retry")

  -- After a failure, for good or for another attempt.
  pub fail-IsFailed :
      (t : Tables P R) (id error : String) (now backoff : ℕ)
      → OnRow IsFailed id (fail t id error now backoff).jobs
  unfolding fail
  fail-IsFailed t id error now backoff = elim (Option-cases (get_job id t.jobs)) [
    | inl e ↦ rw (e, fail) (update_job-OnRow IsFailed id _ t.jobs (λ j. inl refl))
    | inr (k, e) ↦ elim (Bool-cases (leb k.max_attempts k.attempts)) [
      | inl spent ↦ rw (e, spent, fail) (update_job-OnRow IsFailed id _ t.jobs (λ j. inl refl))
      | inr left ↦ rw (e, left, fail) (update_job-OnRow IsFailed id _ t.jobs (λ j. inr refl))
    ]
  ]
