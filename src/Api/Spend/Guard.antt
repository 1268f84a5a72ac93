-- ===== src/Api/Spend/Guard.antt =====
-- What the routes that spend notes refuse, and what they pass on.
use Prim.Native.String.{◌++◌}
use Prim.Native.String.append
use Prim.Native.String.compare
use shade.Shared.{
  ℕ, ◌<◌, String, ◌≡◌, refl, ap, ◌∙◌, inl, inr, true, false, [], ◌∷◌, Option, none, some, arith,
  ◌==◌, eq_iff, eq_refl, ltb, Bool-cases, Option-cases,
}
use shade.Shared.Maps.{Assoc, get, put, get-put}
use shade.Queue.{ServiceJob, enqueue, find_by_key, new_job}
use shade.Api.Vaults.{Reply, ok, error}
use shade.Api.Rfq.Tables.{may_act}
use shade.Api.Spend.{
  WithdrawalBody, ExitRow, ExitBody, Spends, require_owned_exit, spread, prepare_withdrawal,
  submit_withdrawal, prepare_exit, submit_exit, step_exit, queue_job, find_exit,
}

-- The requests that begin to spend a note.
pub data SpendRequest : Type 0 where
  withdraw : Option WithdrawalBody → Option String → SpendRequest
  submit : Assoc String → SpendRequest
  exit : Option ExitBody → Option String → SpendRequest
  burn : Assoc String → SpendRequest

-- Each key of an object stands once.
abbrev pub IsObject : Assoc String → Type 0
IsObject [] = Unit
IsObject ((k, v) ∷ fields) = (get k fields ≡ none) × IsObject fields

get-spread_absent :
    (k : String) (fields more : Assoc String)
    → get k more ≡ none
    → get k (spread fields more) ≡ get k fields
unfolding spread get
get-spread_absent k fields [] e = refl
get-spread_absent k fields ((j, v) ∷ more) e = elim (Bool-cases (j == k)) [
  | inl hit ↦ absurd (cc (rw hit at e))
  | inr miss ↦
      get-spread_absent k (put j v fields) more (rw miss at e)
      ∙ rw (get-put j k v fields, miss) refl
]

-- The fields of the second object win.
get-spread :
    (k v : String) (fields more : Assoc String)
    → IsObject more
    → get k more ≡ some v
    → get k (spread fields more) ≡ some v
unfolding spread get
get-spread k v fields [] object e = absurd (cc e)
get-spread k v fields ((j, w) ∷ more) (once, object) e = elim (Bool-cases (j == k)) [
  | inr miss ↦ get-spread k v (put j w fields) more object (rw miss at e)
  | inl hit ↦
      let same : w ≡ v = cc (rw hit at e) in
      get-spread_absent k (put j w fields) more (ground (arith, once, eq_iff j k))
      ∙ rw (get-put j k w fields, hit) (ap (λ (x : String). some x) same)
]

sick : {R : Type 0} (s : Spends R) → 0 < s.critical_findings → ltb 0 s.critical_findings ≡ true
sick s h = ground arith

abbrev pub step_key : String → String
step_key exit_id = "CCTP_OUTBOUND_MINT" ++ (":" ++ exit_id)

step_key-given : (exit_id : String) → (step_key exit_id == "") ≡ false
step_key-given exit_id = rw (append.cons, compare.cons-nil) refl

module _ {R : Type 0} (id_of : String → String → String → String) (fresh : String) (now : ℕ) where
  abbrev pub handle : SpendRequest → Option String → Spends R → Reply String × Spends R
  handle (withdraw body key) user s = prepare_withdrawal id_of fresh now user body key s
  handle (submit body) user s = submit_withdrawal id_of fresh now user body s
  handle (exit body key) user s = prepare_exit id_of fresh now user body key s
  handle (burn body) user s = submit_exit id_of fresh now user body s

  -- While a critical finding on the root is open, no request that begins to spend a note, by withdrawal or
  -- by exit, changes anything or queues a job, whoever makes it.
  pub handle-blocked :
      (r : SpendRequest) (user_id : String) (s : Spends R)
      → 0 < s.critical_findings
      → handle r (some user_id) s ≡ (error 409, s)
  unfolding prepare_withdrawal submit_withdrawal prepare_exit submit_exit
  handle-blocked (withdraw body key) user_id s h = rw (sick s h, prepare_withdrawal) refl
  handle-blocked (submit body) user_id s h = rw (sick s h, submit_withdrawal) refl
  handle-blocked (exit body key) user_id s h = rw (sick s h, prepare_exit) refl
  handle-blocked (burn body) user_id s h = rw (sick s h, submit_exit) refl

  -- A burn that names an exit is queued only if the exit's row is there and is nobody else's.
  pub submit_exit-owned :
      (user_id exit_id id : String) (body : Assoc String) (s : Spends R)
      → get "exit_id" body ≡ some exit_id
      → (exit_id == "") ≡ false
      → (submit_exit id_of fresh now (some user_id) body s).0 ≡ ok id
      → (r : ExitRow) × (find_exit id_of fresh now exit_id s ≡ some r)
        × (may_act user_id r.user_id ≡ true)
  unfolding submit_exit require_owned_exit
  submit_exit-owned user_id exit_id id body s named given e =
      elim (Bool-cases (ltb 0 s.critical_findings)) [
        | inl bad ↦ absurd (cc (rw (bad, submit_exit) at e))
        | inr fine ↦ elim (Option-cases (find_exit id_of fresh now exit_id s)) [
          | inl missing ↦ absurd (cc (rw (fine, named, given, missing, submit_exit) at e))
          | inr (r, found) ↦ elim (Bool-cases (may_act user_id r.user_id)) [
            | inr other ↦ absurd (cc (rw (fine, named, given, found, other, submit_exit) at e))
            | inl mine ↦ (r, found, mine)
          ]
        ]
      ]

  -- A step on an exit of the user's own whose body names another exit queues a job on that other exit,
  -- whoever owns it: the body's fields come after the id that was checked.
  pub step_exit-overrides :
      (user_id exit_id other : String) (body : Assoc String) (s : Spends R)
      → require_owned_exit user_id (find_exit id_of fresh now exit_id s) ≡ none
      → IsObject body
      → get "exit_id" body ≡ some other
      → find_by_key (step_key exit_id) s.tables.jobs ≡ none
      → let (reply, after) =
          step_exit id_of fresh now "CCTP_OUTBOUND_MINT" (some user_id) exit_id body s in
        (reply ≡ ok fresh)
        × (job : ServiceJob (Assoc String) R) × (find_by_key (step_key exit_id) after.tables.jobs
            ≡ some job)
        × (job.job_type ≡ "CCTP_OUTBOUND_MINT")
        × (get "exit_id" job.payload ≡ some other)
  unfolding step_exit queue_job enqueue
  step_exit-overrides user_id exit_id other body s mine object named new =
      let payload = spread (("exit_id", exit_id) ∷ []) body in
      let job =
        new_job fresh now "relayer" "CCTP_OUTBOUND_MINT" payload (some (step_key exit_id)) in
      rw (mine, step_key-given exit_id, new, queue_job, enqueue, step_exit)
        (
          refl,
          job,
          rw (eq_refl (step_key exit_id)) refl,
          refl,
          get-spread "exit_id" other (("exit_id", exit_id) ∷ []) body object named,
        )
