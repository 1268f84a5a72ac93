-- ===== src/Queue/Bounds.antt =====
-- A job is handed out `max_attempts` times at most.
use shade.Shared.{
  ℕ, ◌≤◌, ◌<◌, String, ◌≡◌, ap, subst, inl, inr, true, false, List, [], ◌∷◌, Option, none, some,
  arith, leb, ◌==◌, eq_iff, Bool-cases, Option-cases, All, All-map, All-×,
}
use shade.Queue.Claiming.{oldest_available-All}
use shade.Queue.{
  ServiceJob, Tables, is_waiting, get_job, find_by_key, update_job, enqueue, event, is_available,
  oldest_available, claimed, claim_next, set_status, complete, fail,
}

-- Claimed at most `max_attempts` times, and fewer while it may be claimed again.
abbrev pub IsWithin : {P R : Type 0} → ServiceJob P R → Type 0
IsWithin j =
    (j.attempts ≤ j.max_attempts) × (is_waiting j.status ≡ true → j.attempts < j.max_attempts)

abbrev pub Bounded : {P R : Type 0} → Tables P R → Type 0
Bounded t = All IsWithin t.jobs

-- The primary key: the row that is found under a job's id is the job.
abbrev pub IsKeyed : {P R : Type 0} → Tables P R → Type 0
IsKeyed t = All (λ j. get_job j.job_id t.jobs ≡ some j) t.jobs

module _ {P R : Type 0} where
  update_job-Within :
      (id : String) (change : ServiceJob P R → ServiceJob P R) (jobs : List (ServiceJob P R))
      → All (λ j. IsWithin j × (j.job_id ≡ id → IsWithin (change j))) jobs
      → All IsWithin (update_job id change jobs)
  unfolding update_job
  update_job-Within id change [] h = tt
  update_job-Within id change (j ∷ jobs) h = (
    elim (Bool-cases (j.job_id == id)) [
      | inl hit ↦ rw hit (h.0.1 ((eq_iff j.job_id id).0 hit))
      | inr miss ↦ rw miss h.0.0
    ],
    update_job-Within id change jobs h.1,
  )

  -- A change to a status in which nobody may claim the job.
  settle-Within :
      (id : String) (change : ServiceJob P R → ServiceJob P R) (jobs : List (ServiceJob P R))
      → ((j : ServiceJob P R) → IsWithin j → IsWithin (change j))
      → All IsWithin jobs
      → All IsWithin (update_job id change jobs)
  settle-Within id change jobs keep h = update_job-Within id change jobs (
      All-map IsWithin (λ j. IsWithin j × (j.job_id ≡ id → IsWithin (change j)))
        (λ j w. (w, λ e. keep j w)) jobs h)

  pub enqueue-Bounded :
      (t : Tables P R) (id queue job_type : String) (now : ℕ) (payload : P) (key : Option String)
      → Bounded t
      → Bounded (enqueue t id now queue job_type payload key).1
  unfolding enqueue event
  enqueue-Bounded t id queue job_type now payload none h = (omega arith, h)
  enqueue-Bounded t id queue job_type now payload (some key) h = elim (Bool-cases (key == "")) [
    | inl empty ↦ rw (empty, enqueue) ((omega arith, λ w. omega arith), h)
    | inr given ↦ elim (Option-cases (find_by_key key t.jobs)) [
      | inl e ↦ rw (given, e, enqueue) ((omega arith, λ w. omega arith), h)
      | inr (old, e) ↦ rw (given, e, enqueue) h
    ]
  ]

  same_row :
      (jobs : List (ServiceJob P R)) (j k : ServiceJob P R)
      → get_job j.job_id jobs ≡ some j
      → get_job k.job_id jobs ≡ some k
      → j.job_id ≡ k.job_id
      → k ≡ j
  same_row jobs j k ej ek same = ground (arith, ap (λ i. get_job i jobs) same)

  -- What is known of a row that a claim has picked.
  abbrev Picked : List (ServiceJob P R) → ServiceJob P R → Type 0
  Picked jobs k = (get_job k.job_id jobs ≡ some k) × (k.attempts < k.max_attempts)

  ready_waits :
      (queue : String) (kinds : List String) (now : ℕ) (k : ServiceJob P R)
      → is_available queue kinds now k ≡ true
      → is_waiting k.status ≡ true
  ready_waits queue kinds now k h = ground arith

  pub claim_next-Bounded :
      (t : Tables P R) (queue : String) (kinds : List String) (now : ℕ)
      → IsKeyed t
      → Bounded t
      → Bounded (claim_next t queue kinds now).1
  unfolding claim_next
  claim_next-Bounded t queue kinds now keyed h =
      elim (Option-cases (oldest_available queue kinds now t.jobs)) [
        | inl e ↦ rw (e, claim_next) h
        | inr (k, e) ↦
            let picked =
              oldest_available-All queue kinds now (Picked t.jobs) t.jobs k
                (All-map (λ j. (get_job j.job_id t.jobs ≡ some j) × IsWithin j)
                  (λ j. is_available queue kinds now j ≡ true → Picked t.jobs j)
                  (λ j w r. (w.0, w.1.1 (ready_waits queue kinds now j r))) t.jobs
                  (All-× (λ j. get_job j.job_id t.jobs ≡ some j) IsWithin t.jobs keyed h))
                e in
            rw (e, claim_next)
              (update_job-Within k.job_id claimed t.jobs (
                All-map (λ j. (get_job j.job_id t.jobs ≡ some j) × IsWithin j)
                  (λ j. IsWithin j × (j.job_id ≡ k.job_id → IsWithin (claimed j)))
                  (λ j w. (
                    w.1,
                    λ same.
                        subst (λ i. IsWithin (claimed i)) (same_row t.jobs j k w.0 picked.0 same)
                          (let room = picked.1 in (omega arith, λ waits. cc)),
                  ))
                  t.jobs (All-× (λ j. get_job j.job_id t.jobs ≡ some j) IsWithin t.jobs keyed h)))
      ]

  pub set_status-Bounded :
      (t : Tables P R) (id status : String) (detail : Option String)
      → is_waiting status ≡ false
      → Bounded t
      → Bounded (set_status t id status detail)
  unfolding set_status
  set_status-Bounded t id status detail settled h =
      settle-Within id (λ j. record j { status = status }) t.jobs (λ j w. (w.0, λ waits. cc)) h

  pub complete-Bounded :
      (t : Tables P R) (id : String) (result : R) (status : String)
      → is_waiting status ≡ false
      → Bounded t
      → Bounded (complete t id result status)
  unfolding complete
  complete-Bounded t id result status settled h =
      settle-Within id (λ j. record j { status = status; result = some result; error = none })
        t.jobs (λ j w. (w.0, λ waits. cc)) h

  pub fail-Bounded :
      (t : Tables P R) (id error : String) (now backoff : ℕ)
      → IsKeyed t
      → Bounded t
      → Bounded (fail t id error now backoff)
  unfolding fail
  fail-Bounded t id error now backoff keyed h = elim (Option-cases (get_job id t.jobs)) [
    | inl e ↦
        rw (e, fail) (settle-Within id _ t.jobs (λ j w. (w.0, λ waits. absurd (ground arith))) h)
    | inr (k, e) ↦ elim (Bool-cases (leb k.max_attempts k.attempts)) [
      | inl spent ↦
          rw (e, spent, fail)
            (settle-Within id _ t.jobs (λ j w. (w.0, λ waits. absurd (ground arith))) h)
      | inr left ↦
          rw (e, left, fail)
            (update_job-Within id _ t.jobs (
              All-map (λ j. (get_job j.job_id t.jobs ≡ some j) × IsWithin j) _
                (λ j w. (
                  w.1,
                  λ same. (
                    w.1.0,
                    λ waits.
                        let row : k ≡ j = ground (arith, ap (λ i. get_job i t.jobs) same) in
                        subst (λ (i : ServiceJob P R). i.attempts < i.max_attempts) row
                          (ground arith),
                  ),
                ))
                t.jobs (All-× (λ j. get_job j.job_id t.jobs ≡ some j) IsWithin t.jobs keyed h)))
    ]
  ]

-- What the API and the workers do to the tables.
pub data Step {P R : Type 0} (t : Tables P R) : Tables P R → Type 0 where
  enqueues :
      (id queue job_type : String) (now : ℕ) (payload : P) (key : Option String)
      → Step t (enqueue t id now queue job_type payload key).1
  claims :
      (queue : String) (kinds : List String) (now : ℕ) → Step t (claim_next t queue kinds now).1
  reports :
      (id status : String) (detail : Option String)
      → is_waiting status ≡ false
      → Step t (set_status t id status detail)
  completes :
      (id : String) (result : R) (status : String)
      → is_waiting status ≡ false
      → Step t (complete t id result status)
  fails : (id error : String) (now backoff : ℕ) → Step t (fail t id error now backoff)

-- No operation of the queue lets a job be claimed more often than its `max_attempts`, or leaves it
-- claimable once they are used up: enqueueing, claiming, reporting a status that is not a waiting
-- one, completing and failing all keep that, where job ids are a primary key.
pub Step-Bounded :
    {P R : Type 0} {t after : Tables P R} → Step t after → IsKeyed t → Bounded t → Bounded after
Step-Bounded {t = t} (enqueues id queue job_type now payload key) k h =
    enqueue-Bounded t id queue job_type now payload key h
Step-Bounded {t = t} (claims queue kinds now) k h = claim_next-Bounded t queue kinds now k h
Step-Bounded {t = t} (reports id status detail settled) k h =
    set_status-Bounded t id status detail settled h
Step-Bounded {t = t} (completes id result status settled) k h =
    complete-Bounded t id result status settled h
Step-Bounded {t = t} (fails id error now backoff) k h = fail-Bounded t id error now backoff k h
