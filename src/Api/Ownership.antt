-- ===== src/Api/Ownership.antt =====
-- Whose vaults a request may change.
use shade.Shared.{
  ℕ, String, ◌≡◌, refl, ap, inl, inr, not, ◌||◌, List, [], ◌∷◌, Option, none, some, arith, ◌==◌,
  eq_iff, Bool-cases, Option-cases, if◌then◌else◌,
}
use shade.Api.Recovery.{VaultWrapper, PolicyOptions, evaluate_recovery_policy, is_enough}
use shade.Api.Store.{
  Envelope, Verification, VaultRow, Store, get_note_vault, update_vaults, with_envelope,
  create_note_vault, user_owns_vault,
}
use shade.Api.Vaults.{
  Auth, create_vault, put_vault, add_wrapper, verify_backup, verified, mark_restored, restored,
}

-- The rows of all users but one.
abbrev pub others : String → List VaultRow → List VaultRow
others user_id [] = []
others user_id (r ∷ rows) =
    let rest = others user_id rows in if r.user_id == user_id then rest else r ∷ rest

-- The requests on a vault that exists.
pub data VaultRequest : Type 0 where
  put : String → Option Envelope → VaultRequest
  wrap : String → Option (VaultWrapper × Envelope) → VaultRequest
  verify : String → Option Verification → VaultRequest
  restore : String → VaultRequest

abbrev pub handle : PolicyOptions → (ℕ → String) → VaultRequest → Auth → Store → Store
handle opts fresh (put v body) auth s = (put_vault opts fresh (some auth) v body s).1
handle opts fresh (wrap v body) auth s = (add_wrapper opts fresh (some auth) v body s).1
handle opts fresh (verify v body) auth s = (verify_backup (some auth) v body s).1
handle opts fresh (restore v) auth s = (mark_restored (some auth) v s).1

others-update :
    (user_id vault_id : String) (change : VaultRow → VaultRow) (rows : List VaultRow)
    → ((r : VaultRow) → (change r).user_id ≡ r.user_id)
    → others user_id (update_vaults user_id vault_id change rows) ≡ others user_id rows
unfolding update_vaults
others-update user_id vault_id change [] same = refl
others-update user_id vault_id change (r ∷ rows) same =
    let ih = others-update user_id vault_id change rows same in
    elim (Bool-cases (r.user_id == user_id)) [
      | inr other ↦ rw (other, other, ih) refl
      | inl mine ↦ elim (Bool-cases (r.vault_id == vault_id)) [
        | inl hit ↦ rw (mine, hit, same r, mine) ih
        | inr miss ↦ rw (mine, miss, mine) ih
      ]
    ]

put-others :
    (opts : PolicyOptions) (fresh : ℕ → String) (auth : Auth) (v : String) (body : Option Envelope)
    (s : Store)
    → others auth.user_id (put_vault opts fresh (some auth) v body s).1.vaults
      ≡ others auth.user_id s.vaults
unfolding put_vault
put-others opts fresh auth v none s = refl
put-others opts fresh auth v (some env) s =
    let policy = evaluate_recovery_policy env.wrappers opts in
    elim (Bool-cases (not (env.vault_id == v) || not (env.privy_user_id == auth.privy_user_id))) [
      | inl wrong ↦ rw (wrong, put_vault) refl
      | inr right ↦ elim (Bool-cases (user_owns_vault auth.user_id v s.vaults)) [
        | inl here ↦
            rw (right, here, put_vault)
              (others-update auth.user_id v (with_envelope env policy) s.vaults (λ r. refl))
        | inr missing ↦
            rw (right, missing, put_vault)
              (others-update auth.user_id v (with_envelope env policy) s.vaults (λ r. refl))
      ]
    ]

wrap-others :
    (opts : PolicyOptions) (fresh : ℕ → String) (auth : Auth) (v : String)
    (body : Option (VaultWrapper × Envelope)) (s : Store)
    → others auth.user_id (add_wrapper opts fresh (some auth) v body s).1.vaults
      ≡ others auth.user_id s.vaults
unfolding add_wrapper
wrap-others opts fresh auth v none s = refl
wrap-others opts fresh auth v (some (w, env)) s = elim (Bool-cases (env.vault_id == v)) [
  | inr wrong ↦ rw (wrong, add_wrapper) refl
  | inl right ↦
      rw (right, add_wrapper)
        (others-update auth.user_id v
          (with_envelope env (evaluate_recovery_policy env.wrappers opts)) s.vaults (λ r. refl))
]

verify-others :
    (auth : Auth) (v : String) (body : Option Verification) (s : Store)
    → others auth.user_id (verify_backup (some auth) v body s).1.vaults
      ≡ others auth.user_id s.vaults
unfolding verify_backup
verify-others auth v none s = refl
verify-others auth v (some given) s = elim (Bool-cases (given.vault_id == v)) [
  | inr wrong ↦ rw (wrong, verify_backup) refl
  | inl right ↦ elim (Option-cases (get_note_vault auth.user_id v s.vaults)) [
    | inl e ↦ rw (right, e, verify_backup) refl
    | inr (r, e) ↦ elim (Bool-cases (is_enough r.recovery_policy_status)) [
      | inr weak ↦ rw (right, e, weak, verify_backup) refl
      | inl fine ↦
          rw (right, e, fine, verify_backup)
            (others-update auth.user_id v (verified given) s.vaults (λ r'. refl))
    ]
  ]
]

restore-others :
    (auth : Auth) (v : String) (s : Store)
    → others auth.user_id (mark_restored (some auth) v s).1.vaults ≡ others auth.user_id s.vaults
unfolding mark_restored
restore-others auth v s = elim (Bool-cases (user_owns_vault auth.user_id v s.vaults)) [
  | inr missing ↦ rw (missing, mark_restored) refl
  | inl here ↦ rw (here, mark_restored) (others-update auth.user_id v restored s.vaults (λ r. refl))
]

-- Replacing a vault, adding a wrapper, verifying a backup and marking it restored leave the vaults of
-- all other users as they were, whatever vault id and body the request has.
pub handle-others :
    (opts : PolicyOptions) (fresh : ℕ → String) (request : VaultRequest) (auth : Auth) (s : Store)
    → others auth.user_id (handle opts fresh request auth s).vaults ≡ others auth.user_id s.vaults
handle-others opts fresh (put v body) auth s = put-others opts fresh auth v body s
handle-others opts fresh (wrap v body) auth s = wrap-others opts fresh auth v body s
handle-others opts fresh (verify v body) auth s = verify-others auth v body s
handle-others opts fresh (restore v) auth s = restore-others auth v s

-- The row of a vault, whoever owns it.
abbrev pub find_vault : String → List VaultRow → Option VaultRow
find_vault vault_id [] = none
find_vault vault_id (r ∷ rows) =
    let rest = find_vault vault_id rows in if r.vault_id == vault_id then some r else rest

create-find :
    (user_id privy_user_id : String) (env : Envelope) (policy : String) (rows : List VaultRow)
    (r : VaultRow)
    → find_vault env.vault_id rows ≡ some r
    → find_vault env.vault_id (create_note_vault user_id privy_user_id env policy rows)
      ≡ some (with_envelope env policy r)
unfolding create_note_vault
create-find user_id privy_user_id env policy [] r e = cc
create-find user_id privy_user_id env policy (k ∷ rows) r e =
    elim (Bool-cases (k.vault_id == env.vault_id)) [
      | inl hit ↦
          let same : k ≡ r = ground arith in
          rw (hit, hit) (ap (λ (o : VaultRow). some (with_envelope env policy o)) same)
      | inr miss ↦
          rw (miss, miss) (create-find user_id privy_user_id env policy rows r (rw miss at e))
    ]

-- A user who posts a vault under an id that the table already has replaces the envelope and the policy
-- of that row, whoever owns it; the row keeps its owner and its backup status.
pub create_vault-overwrites :
    (opts : PolicyOptions) (fresh : ℕ → String) (auth : Auth) (env : Envelope) (s : Store)
    (r : VaultRow)
    → env.privy_user_id ≡ auth.privy_user_id
    → find_vault env.vault_id s.vaults ≡ some r
    → find_vault env.vault_id (create_vault opts fresh (some auth) (some env) s).1.vaults
      ≡ some (with_envelope env (evaluate_recovery_policy env.wrappers opts) r)
unfolding create_vault
create_vault-overwrites opts fresh auth env s r mine e =
    rw ((eq_iff env.privy_user_id auth.privy_user_id).1 mine, create_vault)
      (create-find auth.user_id auth.privy_user_id env (evaluate_recovery_policy env.wrappers opts)
        s.vaults r e)
