-- ===== src/Queue/Claiming.antt =====
-- No work twice: keys, and jobs that are claimed.
use shade.Shared.{
  ℕ, ◌≤◌, String, ◌≡◌, ◌≢◌, sym, ap, subst, ◌∙◌, inl, inr, Bool, true, false, List, [], ◌∷◌, none,
  some, Mem, arith, leb, leb→le, ◌==◌, eq_iff, Bool-cases, Option-cases, if◌then◌else◌, All,
  All-map,
}
use mathlib.Core.List.{mem-cons_self, mem-cons_of_mem}
use shade.Queue.{
  ServiceJob, Tables, find_by_key, update_job, enqueue, is_available, oldest_available, claimed,
  claim_next,
}

claimed_id :
    {P R : Type 0} {id : String} (hit : Bool) (k : ServiceJob P R)
    → (if hit then claimed k else k).job_id ≡ id
    → k.job_id ≡ id
claimed_id true k e = e
claimed_id false k e = e

module _ {P R : Type 0} where
  -- A second request with a key that is not empty gets the job of the first and changes nothing,
  -- whatever else it asks for.
  pub enqueue_again :
      (t : Tables P R) (key : String)
      → (key == "") ≡ false
      → (id id' queue queue' job_type job_type' : String) (now now' : ℕ) (payload payload' : P)
      → let (j, after) = enqueue t id now queue job_type payload (some key) in
        enqueue after id' now' queue' job_type' payload' (some key) ≡ (j, after)
  unfolding enqueue
  enqueue_again t key h id id' queue queue' job_type job_type' now now' payload payload' =
      elim (Option-cases (find_by_key key t.jobs)) [
        | inl e ↦ rw (h, e, enqueue) (ground (arith, eq_iff key key))
        | inr (j, e) ↦ rw (h, e, enqueue) (ground arith)
      ]

  module _ (queue : String) (kinds : List String) (now : ℕ) where
    abbrev Busy : ServiceJob P R → Type 0
    Busy k = is_available queue kinds now k ≡ false

    abbrev pub NotBefore : ServiceJob P R → ServiceJob P R → Type 0
    NotBefore j k = is_available queue kinds now k ≡ true → j.created_at ≤ k.created_at

    -- `j` is a row of the table that may be claimed, and none of those is older.
    abbrev pub Oldest : List (ServiceJob P R) → ServiceJob P R → Type 0
    Oldest jobs j = Mem j jobs × (is_available queue kinds now j ≡ true) × All (NotBefore j) jobs

    oldest_available-none :
        (jobs : List (ServiceJob P R))
        → oldest_available queue kinds now jobs ≡ none
        → All Busy jobs
    unfolding oldest_available
    oldest_available-none [] e = tt
    oldest_available-none (j ∷ jobs) e = elim (Bool-cases (is_available queue kinds now j)) [
      | inl ready ↦ absurd (ground arith)
      | inr busy ↦ (busy, oldest_available-none jobs (rw (busy, oldest_available) at e))
    ]

    oldest_available-Oldest :
        (jobs : List (ServiceJob P R)) (j : ServiceJob P R)
        → oldest_available queue kinds now jobs ≡ some j
        → Oldest jobs j
    unfolding oldest_available
    oldest_available-Oldest [] j e = cc
    oldest_available-Oldest (k ∷ jobs) j e = elim (Bool-cases (is_available queue kinds now k)) [
      | inr busy ↦
          let (m, ready, first) =
            oldest_available-Oldest jobs j (rw (busy, oldest_available) at e) in
          (mem-cons_of_mem k m, ready, (λ r. cc, first))
      | inl ready ↦ elim (Option-cases (oldest_available queue kinds now jobs)) [
        | inl alone ↦
            let same : k ≡ j = ground arith in
            let others = oldest_available-none jobs alone in
            subst (Oldest (k ∷ jobs)) same (
              mem-cons_self,
              ready,
              (λ r. omega arith, All-map Busy (NotBefore k) (λ i b r. cc) jobs others),
            )
        | inr (i, e') ↦
            let (m, ready', first) = oldest_available-Oldest jobs i e' in
            elim (Bool-cases (leb k.created_at i.created_at)) [
              | inl before ↦
                  let same : k ≡ j = ground arith in
                  let le : k.created_at ≤ i.created_at = leb→le _ _ before in
                  subst (Oldest (k ∷ jobs)) same (
                    mem-cons_self,
                    ready,
                    (
                      λ r. omega arith,
                      All-map (NotBefore i) (NotBefore k) (λ n h r. let hn = h r in omega arith)
                          jobs first,
                    ),
                  )
              | inr after ↦
                  let same : i ≡ j = ground arith in
                  subst (Oldest (k ∷ jobs)) same
                    (mem-cons_of_mem k m, ready', (λ r. ground arith, first))
            ]
      ]
    ]

    waits_no_more :
        (j k : ServiceJob P R)
        → is_available queue kinds now (if k.job_id == j.job_id then claimed k else k) ≡ true
        → k.job_id ≢ j.job_id
    waits_no_more j k h = elim (Bool-cases (k.job_id == j.job_id)) [
      | inl hit ↦ let held : Busy (claimed k) = ground arith in absurd (cc (rw hit at h))
      | inr miss ↦ λ same. cc (miss, (eq_iff k.job_id j.job_id).1 same)
    ]

    pub oldest_available-All :
        (Q : ServiceJob P R → Type 0) (jobs : List (ServiceJob P R)) (j : ServiceJob P R)
        → All (λ k. is_available queue kinds now k ≡ true → Q k) jobs
        → oldest_available queue kinds now jobs ≡ some j
        → Q j
    unfolding oldest_available
    oldest_available-All Q [] j h e = cc
    oldest_available-All Q (k ∷ jobs) j h e = elim (Bool-cases (is_available queue kinds now k)) [
      | inr busy ↦ oldest_available-All Q jobs j h.1 (rw (busy, oldest_available) at e)
      | inl ready ↦ elim (Option-cases (oldest_available queue kinds now jobs)) [
        | inl alone ↦ let same : k ≡ j = ground arith in subst Q same (h.0 ready)
        | inr (i, e') ↦ elim (Bool-cases (leb k.created_at i.created_at)) [
          | inl before ↦ let same : k ≡ j = ground arith in subst Q same (h.0 ready)
          | inr after ↦
              let same : i ≡ j = ground arith in subst Q same (oldest_available-All Q jobs i h.1 e')
        ]
      ]
    ]

    update_job-held :
        (j : ServiceJob P R) (jobs : List (ServiceJob P R))
        → All
            (λ k. is_available queue kinds now k ≡ true → k.job_id ≢ j.job_id)
            (update_job j.job_id claimed jobs)
    unfolding update_job
    update_job-held j [] = tt
    update_job-held j (k ∷ jobs) = (
      λ h same. waits_no_more j k h (claimed_id (k.job_id == j.job_id) k same),
      update_job-held j jobs,
    )

-- The job that `claimNext` hands out is a row that was waiting in the queue, of a wanted type and
-- due, and none of those rows was created before it; it comes back marked `claimed` and with one
-- attempt more.
pub claim_next-Oldest :
    {P R : Type 0} (t after : Tables P R) (queue : String) (kinds : List String) (now : ℕ)
    (j : ServiceJob P R)
    → claim_next t queue kinds now ≡ (some j, after)
    → (k : ServiceJob P R) × Oldest queue kinds now t.jobs k × (j ≡ claimed k)
unfolding claim_next
claim_next-Oldest t after queue kinds now j e =
    elim (Option-cases (oldest_available queue kinds now t.jobs)) [
      | inl none_left ↦ absurd (ground arith)
      | inr (k, e') ↦ (k, oldest_available-Oldest queue kinds now t.jobs k e', ground arith)
    ]

-- No worker is handed a job that another worker has claimed: after one claim, and with nothing else
-- done in between, a claim from any queue, for any types and at any time has another job id.
pub claim_next-exclusive :
    {P R : Type 0} (t after last : Tables P R) (queue queue' : String) (kinds kinds' : List String)
    (now now' : ℕ) (j j' : ServiceJob P R)
    → claim_next t queue kinds now ≡ (some j, after)
    → claim_next after queue' kinds' now' ≡ (some j', last)
    → j'.job_id ≢ j.job_id
unfolding claim_next
claim_next-exclusive t after last queue queue' kinds kinds' now now' j j' e e' =
    elim (Option-cases (oldest_available queue kinds now t.jobs)) [
      | inl none_left ↦ absurd (ground arith)
      | inr (k, found) ↦ elim (Option-cases (oldest_available queue' kinds' now' after.jobs)) [
        | inl none_left ↦ absurd (ground arith)
        | inr (k', found') ↦
            let rows : after.jobs ≡ update_job k.job_id claimed t.jobs = ground arith in
            let apart =
              oldest_available-All queue' kinds' now' (λ i. i.job_id ≢ k.job_id)
                (update_job k.job_id claimed t.jobs) k'
                (update_job-held queue' kinds' now' k t.jobs)
                (ap (oldest_available queue' kinds' now') (sym rows) ∙ found') in
            λ same. apart (ground arith)
      ]
    ]
