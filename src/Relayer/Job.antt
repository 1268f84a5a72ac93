-- ===== src/Relayer/Job.antt =====
-- `processRelayerJob` on every type of job, and one turn of the worker.
use shade.Shared.Texts.{joined}
use shade.Shared.{
  ℕ, String, Bool, true, false, not, ◌||◌, List, [], ◌∷◌, Option, none, some, member, ◌==◌,
  if◌then◌else◌,
}
use shade.Queue.{ServiceJob, claim_next, complete, fail}
use shade.Relayer.World.{
  Payload, EnvMap, cctp_inbound, broadcast, invoke, post_user_burn, Answer, Services, JobResult,
  submitted, pending, attested, submit_via_arbitrum, burn_validated, note_active, Outcome, returned,
  threw, World, truthy, text, status, perform,
}
use shade.Relayer.Settle.{settle_submit}

abbrev pub relayer_job_types : List String
relayer_job_types =
    "CCTP_INBOUND" ∷ "CCTP_INBOUND_AFTER_USER_BURN" ∷ "CCTP_INBOUND_BURN" ∷ "CCTP_FETCH_ATTESTATION"
    ∷ "STELLAR_MINT_FORWARD" ∷ "REGISTER_NOTE" ∷ "WITHDRAW_PUBLIC_SUBMIT" ∷ "WITHDRAW_CCTP_BURN"
    ∷ "RFQ_SETTLE_SUBMIT" ∷ "RFQ_ATOMIC_SWAP_SUBMIT" ∷ "CCTP_OUTBOUND_ATTESTATION"
    ∷ "CCTP_OUTBOUND_MINT" ∷ "MPC_SETTLE_SUBMIT" ∷ []

abbrev pub inbound_aliases : List String
inbound_aliases =
    "CCTP_INBOUND_BURN" ∷ "CCTP_FETCH_ATTESTATION" ∷ "STELLAR_MINT_FORWARD" ∷ "REGISTER_NOTE" ∷ []

-- The branches of the source, in their order: the first test that holds decides.
pub data Branch : Type 0 where
  inbound withdraw rfq_settle atomic_swap outbound_attestation outbound_mint after_user_burn
        mpc_settle unknown :
      Branch

unfoldable pub branch : String → Branch
branch t =
    if t == "CCTP_INBOUND" || member t inbound_aliases
    then inbound
    else if t == "WITHDRAW_PUBLIC_SUBMIT" || t == "WITHDRAW_CCTP_BURN"
    then withdraw
    else if t == "RFQ_SETTLE_SUBMIT"
    then rfq_settle
    else if t == "RFQ_ATOMIC_SWAP_SUBMIT"
    then atomic_swap
    else if t == "CCTP_OUTBOUND_ATTESTATION"
    then outbound_attestation
    else if t == "CCTP_OUTBOUND_MINT"
    then outbound_mint
    else if t == "CCTP_INBOUND_AFTER_USER_BURN"
    then after_user_burn
    else if t == "MPC_SETTLE_SUBMIT"
    then mpc_settle
    else unknown

abbrev pub polled : Option (Option Answer) → Outcome JobResult
polled none = threw "Iris lookup failed"
polled (some none) = returned (pending "attestation not yet available; retry")
polled (some (some a)) = returned (attested a)

module _ (env : EnvMap) (sv : Services) (pool : String) (p : Payload)
    (job_id job_type : String) where
  -- An operator's own burn, for development only.
  unfoldable pub run_inbound : World → Outcome JobResult × World
  unfolding perform
  run_inbound w =
      if not env.enable_operator_testnet_deposit
      then (threw "operator-driven CCTP_INBOUND is disabled", w)
      else perform sv (cctp_inbound pool p) submitted
          (status w job_id "burning" "CCTP burn + attestation + mint_and_forward + register")

  -- The client signs, and the worker only broadcasts.
  unfoldable pub run_withdraw : World → Outcome JobResult × World
  unfolding perform
  run_withdraw w =
      if not (truthy p.signed_xdr)
      then (threw "requires a client-signed XDR", w)
      else perform sv (broadcast (text p.signed_xdr)) submitted
          (status w job_id "broadcasting" (joined ("broadcast signed " ∷ job_type ∷ [])))

  unfoldable pub run_invoke : String → String → World → Outcome JobResult × World
  unfolding perform
  run_invoke method detail w =
      perform sv (invoke pool method p.call_args) submitted (status w job_id "submitting" detail)

  unfoldable pub run_outbound_mint : World → Outcome JobResult × World
  run_outbound_mint w =
      if not (truthy p.message) || not (truthy p.attestation)
      then (returned (pending "message/attestation required from CCTP_OUTBOUND_ATTESTATION"), w)
      else (returned submit_via_arbitrum, status w job_id "minting" "Arbitrum receiveMessage")

  abbrev pub after_registered : Outcome JobResult × World → Outcome JobResult × World
  after_registered (threw e, w) = (threw e, w)
  after_registered (returned r, w) = (returned r, status w job_id "note_registered" "leaf")

  -- The user's burn is checked before anything is done on Stellar; with no witness it stops there.
  unfoldable pub run_after_user_burn : World → Outcome JobResult × World
  unfolding perform
  run_after_user_burn w =
      let w1 = status w job_id "validating_burn" "verify user burn tx" in
      elim (sv.validate_burn p) [
        | none ↦ (threw "burn validation failed", w1)
        | some v ↦
            let w2 = status w1 job_id "burn_validated" "sender" in
            if not (truthy p.coin_path)
            then (
              returned (burn_validated v),
              status w2 job_id "awaiting_proof_witness"
                  "burn validated; note witness not provided to relayer (prover path)",
            )
            else after_registered (
                perform sv (post_user_burn pool p) note_active (
                  status w2 job_id "completing_stellar_side"
                    "attestation + mint_forward + proof + register"))
      ]

  unfoldable pub run_branch : Branch → World → Outcome JobResult × World
  unfolding run_inbound run_withdraw run_invoke run_outbound_mint run_after_user_burn
  run_branch inbound w = run_inbound w
  run_branch withdraw w = run_withdraw w
  run_branch rfq_settle w = run_invoke "rfq_settle" "pool.rfq_settle" w
  run_branch atomic_swap w = run_invoke "rfq_settle_atomic_swap" "pool.rfq_settle_atomic_swap" w
  run_branch outbound_attestation w = (
    polled (sv.fetch_attestation (text p.burn_tx_hash)),
    status w job_id "polling" "Circle attestation",
  )
  run_branch outbound_mint w = run_outbound_mint w
  run_branch after_user_burn w = run_after_user_burn w
  run_branch mpc_settle w = settle_submit env sv pool p job_id w
  run_branch unknown w = (threw (joined ("unknown relayer job type " ∷ job_type ∷ [])), w)

-- `p.pool ?? env.SHIELDED_POOL_CONTRACT`
abbrev pub pool_of : Option String → Option String → Option String
pool_of none contract = contract
pool_of (some pool) contract = some pool

module _ (env : EnvMap) (sv : Services) where
  unfoldable pub process_relayer_job :
      ServiceJob Payload JobResult → World → Outcome JobResult × World
  unfolding run_branch branch
  process_relayer_job j w =
      let pool = pool_of j.payload.pool env.shielded_pool_contract in
      if not (truthy pool) || not (truthy env.stellar_relayer_secret)
      then (threw "relayer missing SHIELDED_POOL_CONTRACT / STELLAR_RELAYER_SECRET", w)
      else run_branch env sv (text pool) j.payload j.job_id j.job_type (branch j.job_type) w

  abbrev pub report : String → ℕ → Outcome JobResult × World → World
  report job_id now (returned r, w) = record w { tables = complete w.tables job_id r "ready" }
  report job_id now (threw e, w) = record w { tables = fail w.tables job_id e now 10 }

  -- One claimed job is processed, and completed or failed; false if there was none.
  unfoldable pub run_relayer_once : World → ℕ → Bool × World
  unfolding process_relayer_job
  run_relayer_once w now =
      let (claim, tables) = claim_next w.tables "relayer" relayer_job_types now in
      elim claim [
        | none ↦ (false, w)
        | some j ↦
            (true, report j.job_id now (process_relayer_job j (record w { tables = tables })))
      ]
