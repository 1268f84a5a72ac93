-- ===== src/Queue.antt =====
-- packages/queue/src/index.ts: the table `service_jobs` as a queue of jobs, and the table
-- `service_events` as its log. Each query is one step on the tables. The payloads and the results of
-- jobs are types `P` and `R`; the clock and the id of a new row are arguments.
pub mod Bounds
pub mod Claiming
pub mod Keys
pub mod Reported
mod Tests
use Prim.Native.String.{◌++◌}
use shade.Shared.Texts.{clip}
use shade.Shared.{
  ℕ, ◌+◌, String, Bool, true, false, ◌&&◌, ◌||◌, List, [], ◌∷◌, Option, none, some, leb, member,
  ◌==◌, if◌then◌else◌,
}

pub record ServiceJob (P R : Type 0) : Type 0 where
  pub job_id : String
  pub job_type : String
  pub queue : String
  pub idempotency_key : Option String
  pub payload : P
  pub status : String
  pub attempts : ℕ
  pub max_attempts : ℕ
  pub result : Option R
  pub error : Option String
  pub available_at : ℕ
  pub created_at : ℕ

pub record ServiceEvent : Type 0 where
  pub job_id : String
  pub status : String
  pub detail : Option String

pub record Tables (P R : Type 0) : Type 0 where
  pub jobs : List (ServiceJob P R)
  pub events : List ServiceEvent

abbrev pub same_key : Option String → String → Bool
same_key none key = false
same_key (some k) key = k == key

-- `status in ('queued','failed_retry')`
abbrev pub is_waiting : String → Bool
is_waiting status = status == "queued" || status == "failed_retry"

-- `job_type = any($2)`, which is left out for an empty list of types.
abbrev pub has_type : List String → String → Bool
has_type [] job_type = true
has_type (k ∷ kinds) job_type = member job_type (k ∷ kinds)

module _ {P R : Type 0} where
  -- `select … where job_id = $1`
  unfoldable pub get_job : String → List (ServiceJob P R) → Option (ServiceJob P R)
  get_job id [] = none
  get_job id (j ∷ jobs) = if j.job_id == id then some j else get_job id jobs

  unfoldable pub find_by_key : String → List (ServiceJob P R) → Option (ServiceJob P R)
  find_by_key key [] = none
  find_by_key key (j ∷ jobs) =
      if same_key j.idempotency_key key then some j else find_by_key key jobs

  -- `update service_jobs set … where job_id = $1`
  unfoldable pub update_job :
      String → (ServiceJob P R → ServiceJob P R) → List (ServiceJob P R) → List (ServiceJob P R)
  update_job id change [] = []
  update_job id change (j ∷ jobs) =
      (if j.job_id == id then change j else j) ∷ update_job id change jobs

  unfoldable pub event : Tables P R → String → String → Option String → Tables P R
  event t id status detail = record t {
    events = record { job_id = id; status = status; detail = detail } ∷ t.events;
  }

  abbrev pub new_job : String → ℕ → String → String → P → Option String → ServiceJob P R
  new_job id now queue job_type payload key = record {
    job_id = id;
    job_type = job_type;
    queue = queue;
    idempotency_key = key;
    payload = payload;
    status = "queued";
    attempts = 0;
    max_attempts = 3;
    result = none;
    error = none;
    available_at = now;
    created_at = now;
  }

  insert_job : Tables P R → ServiceJob P R → ServiceJob P R × Tables P R
  unfolding event
  insert_job t j = (
    j,
    event (record t { jobs = j ∷ t.jobs }) j.job_id "queued" (some ("enqueued " ++ j.job_type)),
  )

  abbrev reuse : Option (ServiceJob P R) → Tables P R → ServiceJob P R → ServiceJob P R × Tables P R
  reuse (some old) t j = (old, t)
  reuse none t j = insert_job t j

  abbrev lookup_key : Option String → List (ServiceJob P R) → Option (ServiceJob P R)
  lookup_key none jobs = none
  lookup_key (some key) jobs = if key == "" then none else find_by_key key jobs

  -- `id` and `now` are what the table gives a new row; an empty key counts as no key.
  unfoldable pub enqueue :
      Tables P R → String → ℕ → String → String → P → Option String → ServiceJob P R × Tables P R
  unfolding insert_job find_by_key
  enqueue t id now queue job_type payload key =
      reuse (lookup_key key t.jobs) t (new_job id now queue job_type payload key)

  abbrev pub is_available : String → List String → ℕ → ServiceJob P R → Bool
  is_available queue kinds now j =
      j.queue == queue
      && (is_waiting j.status && (leb j.available_at now && has_type kinds j.job_type))

  -- The older of two candidates, by `order by created_at asc`.
  abbrev older : Option (ServiceJob P R) → ServiceJob P R → ServiceJob P R
  older none j = j
  older (some k) j = if leb j.created_at k.created_at then j else k

  unfoldable pub oldest_available :
      String → List String → ℕ → List (ServiceJob P R) → Option (ServiceJob P R)
  oldest_available queue kinds now [] = none
  oldest_available queue kinds now (j ∷ jobs) =
      let rest = oldest_available queue kinds now jobs in
      if is_available queue kinds now j then some (older rest j) else rest

  abbrev pub claimed : ServiceJob P R → ServiceJob P R
  claimed j = record j { status = "claimed"; attempts = j.attempts + 1 }

  -- `claimNext`: the oldest available job, marked as claimed, or null.
  unfoldable pub claim_next :
      Tables P R → String → List String → ℕ → Option (ServiceJob P R) × Tables P R
  unfolding oldest_available update_job
  claim_next t queue kinds now = elim (oldest_available queue kinds now t.jobs) [
    | none ↦ (none, t)
    | some j ↦ (some (claimed j), record t { jobs = update_job j.job_id claimed t.jobs })
  ]

  unfoldable pub set_status : Tables P R → String → String → Option String → Tables P R
  unfolding update_job event
  set_status t id status detail =
      event (record t { jobs = update_job id (λ j. record j { status = status }) t.jobs }) id status
        detail

  unfoldable pub complete : Tables P R → String → R → String → Tables P R
  unfolding update_job event
  complete t id result status =
      event
        (record t {
          jobs =
              update_job id (λ j. record j { status = status; result = some result; error = none })
                t.jobs;
        })
        id status (some "completed")

  abbrev is_terminal : Option (ServiceJob P R) → Bool
  is_terminal none = true
  is_terminal (some j) = leb j.max_attempts j.attempts

  unfoldable pub fail : Tables P R → String → String → ℕ → ℕ → Tables P R
  unfolding get_job update_job event
  fail t id error now backoff =
      if is_terminal (get_job id t.jobs)
      then event
          (record t {
            jobs =
                update_job id (λ j. record j { status = "failed"; error = some (clip 2000 error) })
                  t.jobs;
          })
          id "failed" (some (clip 500 error))
      else event
          (record t {
            jobs =
                update_job id
                  (λ j. record j {
                    status = "failed_retry";
                    error = some (clip 2000 error);
                    available_at = now + backoff;
                  })
                  t.jobs;
          })
          id "failed_retry" (some (clip 500 error))
