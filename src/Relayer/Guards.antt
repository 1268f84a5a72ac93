-- ===== src/Relayer/Guards.antt =====
-- What must hold before the worker calls `mpc_settle`, and when it reports a settlement.
use shade.Shared.Texts.{joined, printed}
use shade.Shared.{
  subst, sym, length, String, ◌≡◌, refl, ap, inl, inr, ◌⊎◌, true, false, not, ◌&&◌, List, [], ◌∷◌,
  Option, some, Bool-cases, Option-cases,
}
use shade.Mpc.Batch.{CommitteeNodeInfo, verify_signed_batch}
use shade.Settler.{SettlePayload}
use shade.Relayer.World.{
  Payload, EnvMap, SettlementProof, Call, invoke, Services, JobResult, Outcome, threw, World,
  truthy, text, status, settle_fields,
}
use shade.Relayer.Settle.{
  settle_batch, pin_committee, settle_proof, missing_note, has_proof, settle_args, compute_mpc_root,
  settle_result, submit_settle, settle_submit,
}

-- The committee that the contract names has signed the batch, the notes are there, and there is a
-- proof or the flag that does without.
abbrev pub Guarded : EnvMap → Services → Payload → Option SettlementProof → Type 0
Guarded env sv p proof =
    ((committee : List CommitteeNodeInfo) × (pin_committee sv.get_committee ≡ some committee)
      × (verify_signed_batch sv.crypto (settle_batch sv p) committee ≡ true))
    × (missing_note p ≡ false)
    × (not (has_proof proof) && not env.enable_unsafe_proofless_mpc_settle ≡ false)

-- One call of `mpc_settle` with the data of the job; it was guarded, and a settlement is reported
-- exactly if the contract gave a transaction for that call.
abbrev pub Submits :
    EnvMap → Services → String → Payload → World → Outcome JobResult × World → Type 0
Submits env sv pool p before (outcome, after) =
    (proof : Option SettlementProof) × (root : String) × Guarded env sv p proof
    × (compute_mpc_root sv (text p.output_commitment_a) (text p.output_commitment_b) ≡ some root)
    × (after.calls ≡ invoke pool "mpc_settle" (settle_args p root proof) ∷ before.calls)
    × (outcome
        ≡ settle_result (sv.answer (invoke pool "mpc_settle" (settle_args p root proof))) proof)

-- Nothing was called, and the job throws.
abbrev pub Refuses : World → Outcome JobResult × World → Type 0
Refuses before (outcome, after) =
    (after.calls ≡ before.calls) × ((e : String) × (outcome ≡ threw e))

module _ (env : EnvMap) (sv : Services) (pool : String) (p : Payload) (job_id : String) where
  settle_proof-calls : (w : World) → (settle_proof sv p job_id w).1.calls ≡ w.calls
  unfolding settle_proof
  settle_proof-calls w =
      elim (Bool-cases (truthy p.coin_a_path && (truthy p.coin_b_path && truthy p.assoc_path))) [
        | inr bare ↦ rw bare refl
        | inl paths ↦ elim (Option-cases (sv.build_proof p)) [
          | inl e ↦ rw (paths, e) refl
          | inr (proof, e) ↦ rw (paths, e) refl
        ]
      ]

  abbrev Either : World → Outcome JobResult × World → Type 0
  Either before r = Refuses before r ⊎ Submits env sv pool p before r

  -- By the value that a run comes to.
  refuses :
      (before w : World) (r : Outcome JobResult × World) (e : String)
      → r ≡ (threw e, w)
      → w.calls ≡ before.calls
      → Either before r
  refuses before w r e comes same = subst (Either before) (sym comes) (inl (same, (e, refl)))

  abbrev submitting : World → World
  submitting w =
      status w job_id "submitting"
        (joined ("pool.mpc_settle match[" ∷ printed p.match_index ∷ "]" ∷ []))

  abbrev settle_call : String → Option SettlementProof → Call
  settle_call root proof = invoke pool "mpc_settle" (settle_args p root proof)

  abbrev called : String → Option SettlementProof → World → Outcome JobResult × World
  called root proof w = (
    settle_result (sv.answer (settle_call root proof)) proof,
    record (submitting w) { calls = settle_call root proof ∷ w.calls },
  )

  submit_settle-Guarded :
      (proof : Option SettlementProof) (w before : World)
      → w.calls ≡ before.calls
      → ((committee : List CommitteeNodeInfo) × (pin_committee sv.get_committee ≡ some committee)
          × (verify_signed_batch sv.crypto (settle_batch sv p) committee ≡ true))
      → Either before (submit_settle env sv pool p job_id proof w)
  unfolding submit_settle
  submit_settle-Guarded proof w before same checked =
      let run = submit_settle env sv pool p job_id proof w in
      elim (Bool-cases (missing_note p)) [
        | inl missing ↦
            refuses before w run "note data missing from DB" (rw (missing, submit_settle) refl) same
        | inr there ↦
            elim (Bool-cases
              (not (has_proof proof) && not env.enable_unsafe_proofless_mpc_settle)) [
                | inl bare ↦
                    refuses before w run "refusing to submit proofless mpc_settle"
                      (rw (there, bare, submit_settle) refl) same
                | inr proved ↦
                    elim (Option-cases (
                      compute_mpc_root sv (text p.output_commitment_a)
                        (text p.output_commitment_b))) [
                          | inl e ↦
                              refuses before (submitting w) run "compute-root failed"
                                (rw (there, proved, e, submit_settle) refl) same
                          | inr (root, e) ↦
                              let comes : run ≡ called root proof w =
                                rw (there, proved, e, submit_settle) refl in
                              subst (Either before) (sym comes) (
                                inr (
                                  proof,
                                  root,
                                  (checked, there, proved),
                                  e,
                                  ap (◌∷◌ (settle_call root proof)) same,
                                  refl,
                                ))
                        ]
              ]
      ]

pub settle_submit-Guarded :
    (env : EnvMap) (sv : Services) (pool : String) (p : Payload) (job_id : String) (w : World)
    → Refuses w (settle_submit env sv pool p job_id w)
      ⊎ Submits env sv pool p w (settle_submit env sv pool p job_id w)
unfolding settle_submit
settle_submit-Guarded env sv pool p job_id w =
    let run = settle_submit env sv pool p job_id w in
    elim (Option-cases (pin_committee sv.get_committee)) [
      | inl e ↦
          refuses env sv pool p job_id w w run "failed to pin committee from pool.get_committee()"
            (rw (e, settle_submit) refl) refl
      | inr (committee, e) ↦
          elim (Bool-cases (verify_signed_batch sv.crypto (settle_batch sv p) committee)) [
            | inr bad ↦
                refuses env sv pool p job_id w w run "signature verification failed"
                  (rw (e, bad, settle_submit) refl) refl
            | inl good ↦
                let verified = status w job_id "verified_signatures" (
                  joined (
                    "batch "
                    ∷ p.batch_id
                    ∷ " — "
                    ∷ printed (length p.signatures)
                    ∷ " committee sigs valid"
                    ∷ [])) in
                let (proof, proved) = settle_proof sv p job_id verified in
                let comes : run ≡ submit_settle env sv pool p job_id proof proved =
                  rw (e, good, settle_submit) refl in
                subst (Either env sv pool p job_id w) (sym comes) (
                  submit_settle-Guarded env sv pool p job_id proof proved w
                    (settle_proof-calls env sv pool p job_id verified) (committee, e, good))
          ]
    ]

-- A job as the settler queues it names no witness files, so without the development flag it always
-- throws and calls nothing.
pub settle_submit-proofless :
    (env : EnvMap) (sv : Services) (pool : String) (p : SettlePayload) (job_id : String) (w : World)
    → env.enable_unsafe_proofless_mpc_settle ≡ false
    → Refuses w (settle_submit env sv pool (settle_fields p) job_id w)
unfolding settle_submit settle_proof submit_settle settle_fields truthy has_proof
settle_submit-proofless env sv pool p job_id w off =
    elim (Option-cases (pin_committee sv.get_committee)) [
      | inl e ↦ rw (e, settle_submit) (refl, (_, refl))
      | inr (committee, e) ↦
          elim (Bool-cases
            (verify_signed_batch sv.crypto (settle_batch sv (settle_fields p)) committee)) [
              | inr bad ↦ rw (e, bad, settle_submit) (refl, (_, refl))
              | inl good ↦ elim (Bool-cases (missing_note (settle_fields p))) [
                | inl missing ↦ rw (e, good, missing, settle_submit) (refl, (_, refl))
                | inr there ↦ rw (e, good, there, off, settle_submit) (refl, (_, refl))
              ]
            ]
    ]
