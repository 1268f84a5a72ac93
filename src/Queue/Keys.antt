-- ===== src/Queue/Keys.antt =====
-- How idempotency keys are found again after `enqueue`.
use shade.Shared.{
  ℕ, String, ◌≡◌, refl, inl, inr, false, some, arith, ◌==◌, eq_iff, Bool-cases, Option-cases, All,
}
use shade.Queue.{ServiceJob, Tables, find_by_key, enqueue, new_job}

module _ {P R : Type 0} (t : Tables P R) (key : String) (given : (key == "") ≡ false) (id : String)
    (now : ℕ) (queue job_type : String) (payload : P) where
  -- The table already has the key: nothing is inserted.
  pub enqueue-known :
      (j : ServiceJob P R)
      → find_by_key key t.jobs ≡ some j
      → enqueue t id now queue job_type payload (some key) ≡ (j, t)
  unfolding enqueue
  enqueue-known j e = rw (given, e, enqueue) refl

  pub find-enqueue :
      (j : ServiceJob P R) × (find_by_key key
          (enqueue t id now queue job_type payload (some key)).1.jobs
        ≡ some j)
  unfolding enqueue
  find-enqueue = elim (Option-cases (find_by_key key t.jobs)) [
    | inr (j, e) ↦ (j, rw (given, e, enqueue) e)
    | inl e ↦ (
      new_job id now queue job_type payload (some key),
      rw (given, e, enqueue) (ground (arith, eq_iff key key)),
    )
  ]

  pub find-enqueue_keeps :
      (other : String) (j : ServiceJob P R)
      → find_by_key other t.jobs ≡ some j
      → find_by_key other (enqueue t id now queue job_type payload (some key)).1.jobs ≡ some j
  unfolding enqueue
  find-enqueue_keeps other j h = elim (Option-cases (find_by_key key t.jobs)) [
    | inr (k, e) ↦ rw (given, e, enqueue) h
    | inl e ↦ elim (Bool-cases (key == other)) [
      | inl same ↦ absurd (ground (arith, eq_iff key other))
      | inr differs ↦ rw (given, e, enqueue) (ground (arith, differs))
    ]
  ]

  pub enqueue-All :
      (Q : ServiceJob P R → Type 0)
      → All Q t.jobs
      → Q (new_job id now queue job_type payload (some key))
      → All Q (enqueue t id now queue job_type payload (some key)).1.jobs
  unfolding enqueue
  enqueue-All Q h q = elim (Option-cases (find_by_key key t.jobs)) [
    | inr (k, e) ↦ rw (given, e, enqueue) h
    | inl e ↦ rw (given, e, enqueue) (q, h)
  ]
