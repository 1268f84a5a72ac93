-- ===== src/Relayer/Outcome.antt =====
-- What one job may request outside, and what becomes of a job that the worker has claimed.
use shade.Shared.{
  ℕ, String, ◌≡◌, refl, sym, subst, inl, inr, ◌⊎◌, true, not, ◌||◌, ◌∷◌, Option, none, some,
  Bool-cases, Option-cases, All, All-map,
}
use shade.Queue.{ServiceJob, claim_next, complete, fail}
use shade.Queue.Reported.{update_job-OnRow, IsFailed, fail-IsFailed}
use shade.Relayer.World.{
  Payload, EnvMap, Call, cctp_inbound, broadcast, invoke, post_user_burn, Answer, Services,
  JobResult, Outcome, returned, threw, World, truthy, text, perform,
}
use shade.Relayer.Job.{
  Branch, inbound, withdraw, rfq_settle, atomic_swap, outbound_attestation, outbound_mint,
  after_user_burn, mpc_settle, unknown, branch, run_inbound, run_withdraw, run_invoke,
  run_outbound_mint, run_after_user_burn, run_branch, pool_of, after_registered,
  process_relayer_job, relayer_job_types, report, run_relayer_once,
}
use shade.Relayer.Guards.{settle_submit-Guarded}

-- An operator's burn needs the flag, a broadcast what the client has signed, and the Stellar side of a
-- user's burn that this burn was found valid; the contract called is the pool of the job.
abbrev pub Allowed : EnvMap → Services → String → Payload → Call → Type 0
Allowed env sv pool p (cctp_inbound q r) = env.enable_operator_testnet_deposit ≡ true
Allowed env sv pool p (broadcast xdr) = p.signed_xdr ≡ some xdr
Allowed env sv pool p (invoke q method args) = q ≡ pool
Allowed env sv pool p (post_user_burn q r) = (v : Answer) × (sv.validate_burn p ≡ some v)

-- No request, or a single one that is allowed.
abbrev pub CallsOnce :
    EnvMap → Services → String → Payload → World → Outcome JobResult × World → Type 0
CallsOnce env sv pool p w r =
    (r.1.calls ≡ w.calls)
    ⊎ ((call : Call) × (r.1.calls ≡ call ∷ w.calls) × Allowed env sv pool p call)

truthy-some : (o : Option String) → truthy o ≡ true → o ≡ some (text o)
unfolding truthy
truthy-some none h = cc
truthy-some (some s) h = refl

after_registered-calls :
    (env : EnvMap) (sv : Services) (pool : String) (p : Payload) (job_id job_type : String)
    (r : Outcome JobResult × World)
    → (after_registered env sv pool p job_id job_type r).1.calls ≡ r.1.calls
after_registered-calls env sv pool p job_id job_type (threw e, w) = refl
after_registered-calls env sv pool p job_id job_type (returned r, w) = refl

module _ (env : EnvMap) (sv : Services) (pool : String) (p : Payload)
    (job_id job_type : String) where
  abbrev Once : World → Outcome JobResult × World → Type 0
  Once = CallsOnce env sv pool p

  run_inbound-Once : (w : World) → Once w (run_inbound env sv pool p job_id job_type w)
  unfolding run_inbound perform
  run_inbound-Once w = elim (Bool-cases env.enable_operator_testnet_deposit) [
    | inl on ↦ rw (on, run_inbound) (inr (cctp_inbound pool p, refl, refl))
    | inr off ↦ rw (off, run_inbound) (inl refl)
  ]

  run_withdraw-Once : (w : World) → Once w (run_withdraw env sv pool p job_id job_type w)
  unfolding run_withdraw perform
  run_withdraw-Once w = elim (Bool-cases (truthy p.signed_xdr)) [
    | inl signed ↦
        rw (signed, run_withdraw)
          (inr (broadcast (text p.signed_xdr), refl, truthy-some p.signed_xdr signed))
    | inr bare ↦ rw (bare, run_withdraw) (inl refl)
  ]

  run_outbound_mint-Once : (w : World) → Once w (run_outbound_mint env sv pool p job_id job_type w)
  unfolding run_outbound_mint
  run_outbound_mint-Once w =
      elim (Bool-cases (not (truthy p.message) || not (truthy p.attestation))) [
        | inl bare ↦ rw (bare, run_outbound_mint) (inl refl)
        | inr there ↦ rw (there, run_outbound_mint) (inl refl)
      ]

  run_after_user_burn-Once :
      (w : World) → Once w (run_after_user_burn env sv pool p job_id job_type w)
  unfolding run_after_user_burn perform
  run_after_user_burn-Once w = elim (Option-cases (sv.validate_burn p)) [
    | inl e ↦ rw (e, run_after_user_burn) (inl refl)
    | inr (v, e) ↦ elim (Bool-cases (truthy p.coin_path)) [
      | inr bare ↦ rw (e, bare, run_after_user_burn) (inl refl)
      | inl there ↦
          rw (e, there, run_after_user_burn)
            (inr (
              post_user_burn pool p,
              after_registered-calls env sv pool p job_id job_type _,
              (v, e),
            ))
    ]
  ]

  run_branch-Once : (b : Branch) (w : World) → Once w (run_branch env sv pool p job_id job_type b w)
  unfolding run_branch run_invoke perform
  run_branch-Once inbound w = run_inbound-Once w
  run_branch-Once withdraw w = run_withdraw-Once w
  run_branch-Once rfq_settle w = inr (invoke pool "rfq_settle" p.call_args, refl, refl)
  run_branch-Once atomic_swap w = inr (invoke pool "rfq_settle_atomic_swap" p.call_args, refl, refl)
  run_branch-Once outbound_attestation w = inl refl
  run_branch-Once outbound_mint w = run_outbound_mint-Once w
  run_branch-Once after_user_burn w = run_after_user_burn-Once w
  run_branch-Once mpc_settle w = elim (settle_submit-Guarded env sv pool p job_id w) [
    | inl refused ↦ inl refused.0
    | inr (proof, root, guarded, e, same, outcome) ↦ inr (_, same, refl)
  ]
  run_branch-Once unknown w = inl refl

-- Whatever its type, a job makes one request outside at most, and only an allowed one.
pub process_relayer_job-Once :
    (env : EnvMap) (sv : Services) (j : ServiceJob Payload JobResult) (w : World)
    → CallsOnce env sv
        (text (pool_of j.payload.pool env.shielded_pool_contract))
        j.payload
        w
        (process_relayer_job env sv j w)
unfolding process_relayer_job
process_relayer_job-Once env sv j w =
    let pool = pool_of j.payload.pool env.shielded_pool_contract in
    elim (Bool-cases (not (truthy pool) || not (truthy env.stellar_relayer_secret))) [
      | inl bare ↦ rw (bare, process_relayer_job) (inl refl)
      | inr there ↦
          let comes : process_relayer_job env sv j w
              ≡ run_branch env sv (text pool) j.payload j.job_id j.job_type (branch j.job_type) w =
            rw (there, process_relayer_job) refl in
          subst (CallsOnce env sv (text pool) j.payload w) (sym comes)
            (run_branch-Once env sv (text pool) j.payload j.job_id j.job_type (branch j.job_type) w)
    ]

-- The statuses that a turn of the worker leaves a job in.
abbrev pub IsReported : String → Type 0
IsReported s = (s ≡ "ready") ⊎ (s ≡ "failed") ⊎ (s ≡ "failed_retry")

report-Reported :
    (env : EnvMap) (sv : Services) (id : String) (now : ℕ) (r : Outcome JobResult × World)
    → All (λ j. j.job_id ≡ id → IsReported j.status) (report env sv id now r).tables.jobs
unfolding complete
report-Reported env sv id now (returned r, w) =
    update_job-OnRow (λ j. IsReported j.status) id _ w.tables.jobs (λ j. inl refl)
report-Reported env sv id now (threw e, w) =
    All-map (λ j. j.job_id ≡ id → IsFailed j) (λ j. j.job_id ≡ id → IsReported j.status)
      (λ j failed e. inr (failed e)) (fail w.tables id e now 10).jobs
      (fail-IsFailed w.tables id e now 10)

-- A job that a turn of the worker claims is not left claimed: whether it returned or threw, its row is
-- `ready`, `failed` or `failed_retry` afterwards.
pub run_relayer_once-Reported :
    (env : EnvMap) (sv : Services) (w : World) (now : ℕ) (j : ServiceJob Payload JobResult)
    → (claim_next w.tables "relayer" relayer_job_types now).0 ≡ some j
    → ((run_relayer_once env sv w now).0 ≡ true)
      × All
          (λ k. k.job_id ≡ j.job_id → IsReported k.status)
          (run_relayer_once env sv w now).1.tables.jobs
unfolding run_relayer_once
run_relayer_once-Reported env sv w now j e =
    rw (e, run_relayer_once) (refl, report-Reported env sv j.job_id now _)
