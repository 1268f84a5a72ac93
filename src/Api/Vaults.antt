-- ===== src/Api/Vaults.antt =====
-- apps/api/src/routes.ts: the routes under /v1/note-vaults. `auth` is what `requirePrivyUser` gives, or
-- none where it throws; `body` is what the schema makes of a request that has passed the gate against
-- plaintext fields, or none where the schema refuses it; `opts` and `fresh` are the options of the
-- recovery policy and the ids that the tables give.
use shade.Shared.{
  ℕ, suc, String, Bool, true, not, ◌||◌, List, [], ◌∷◌, Option, none, some, ◌==◌, if◌then◌else◌,
}
use shade.Api.Recovery.{VaultWrapper, PolicyOptions, evaluate_recovery_policy, is_enough}
use shade.Api.Store.{
  Envelope, Verification, VaultRow, WrapperRow, Store, get_note_vault, update_vaults, with_envelope,
  create_note_vault, vault_deposit_ready, delete_vault_wrapper, log_activity, user_owns_vault,
}

pub record Auth : Type 0 where
  pub user_id : String
  pub privy_user_id : String

-- A reply of code 200, or an error with its status code.
pub data Reply (A : Type 0) : Type 0 where
  ok : A → Reply A
  error : ℕ → Reply A

-- The wrappers of a new vault, with the ids that the table gives them.
unfoldable pub add_wrappers :
    (ℕ → String) → ℕ → String → String → List VaultWrapper → List WrapperRow → List WrapperRow
add_wrappers fresh n user_id vault_id [] rows = rows
add_wrappers fresh n user_id vault_id (w ∷ ws) rows =
    add_wrappers fresh (suc n) user_id vault_id ws (
      record { id = fresh n; vault_id = vault_id; user_id = user_id; wrapper_type = w.wrapper_type }
      ∷ rows)

-- The vault's fields that a reply shows.
pub record VaultReply : Type 0 where
  pub vault_id : String
  pub recovery_policy_status : String

module _ (opts : PolicyOptions) (fresh : ℕ → String) where
  -- POST /v1/note-vaults
  unfoldable pub create_vault : Option Auth → Option Envelope → Store → Reply VaultReply × Store
  unfolding create_note_vault add_wrappers
  create_vault none body s = (error 401, s)
  create_vault (some auth) none s = (error 400, s)
  create_vault (some auth) (some env) s =
      if not (env.privy_user_id == auth.privy_user_id)
      then (error 403, s)
      else let policy = evaluate_recovery_policy env.wrappers opts in
        (
          ok (record { vault_id = env.vault_id; recovery_policy_status = policy }),
          log_activity auth.user_id "vault.create" env.vault_id (record s {
            vaults = create_note_vault auth.user_id auth.privy_user_id env policy s.vaults;
            wrappers = add_wrappers fresh 0 auth.user_id env.vault_id env.wrappers s.wrappers;
          }),
        )

  -- GET /v1/note-vaults/:vault_id
  unfoldable pub get_vault : Option Auth → String → Store → Reply VaultRow × Store
  unfolding get_note_vault
  get_vault none vault_id s = (error 401, s)
  get_vault (some auth) vault_id s = elim (get_note_vault auth.user_id vault_id s.vaults) [
    | none ↦ (error 404, s)
    | some r ↦ (ok r, s)
  ]

  -- PUT /v1/note-vaults/:vault_id
  unfoldable pub put_vault :
      Option Auth → String → Option Envelope → Store → Reply VaultReply × Store
  unfolding update_vaults user_owns_vault
  put_vault none vault_id body s = (error 401, s)
  put_vault (some auth) vault_id none s = (error 400, s)
  put_vault (some auth) vault_id (some env) s =
      if not (env.vault_id == vault_id) || not (env.privy_user_id == auth.privy_user_id)
      then (error 403, s)
      else let policy = evaluate_recovery_policy env.wrappers opts in
        let s' = record s {
          vaults = update_vaults auth.user_id vault_id (with_envelope env policy) s.vaults;
        } in
        if user_owns_vault auth.user_id vault_id s.vaults
        then (ok (record { vault_id = vault_id; recovery_policy_status = policy }), s')
        else (error 404, s')

  -- POST /v1/note-vaults/:vault_id/wrappers
  unfoldable pub add_wrapper :
      Option Auth → String → Option (VaultWrapper × Envelope) → Store → Reply String × Store
  unfolding update_vaults
  add_wrapper none vault_id body s = (error 401, s)
  add_wrapper (some auth) vault_id none s = (error 400, s)
  add_wrapper (some auth) vault_id (some (w, env)) s =
      if not (env.vault_id == vault_id)
      then (error 403, s)
      else let policy = evaluate_recovery_policy env.wrappers opts in
        (
          ok (fresh 0),
          record s {
            vaults = update_vaults auth.user_id vault_id (with_envelope env policy) s.vaults;
            wrappers =
                record {
                  id = fresh 0;
                  vault_id = vault_id;
                  user_id = auth.user_id;
                  wrapper_type = w.wrapper_type;
                }
                ∷ s.wrappers;
          },
        )

abbrev pub verified : Verification → VaultRow → VaultRow
verified v r = record r { backup_status = "verified"; last_backup_verification = some v }

-- POST /v1/note-vaults/:vault_id/verify-backup; the reply is `ready`.
unfoldable pub verify_backup :
    Option Auth → String → Option Verification → Store → Reply Bool × Store
unfolding get_note_vault update_vaults vault_deposit_ready
verify_backup none vault_id body s = (error 401, s)
verify_backup (some auth) vault_id none s = (error 400, s)
verify_backup (some auth) vault_id (some v) s =
    if not (v.vault_id == vault_id)
    then (error 400, s)
    else elim (get_note_vault auth.user_id vault_id s.vaults) [
      | none ↦ (error 404, s)
      | some r ↦
          if not (is_enough r.recovery_policy_status)
          then (error 409, s)
          else let vaults = update_vaults auth.user_id vault_id (verified v) s.vaults in
            (
              ok (vault_deposit_ready auth.user_id vault_id vaults),
              log_activity auth.user_id "vault.backup_verified" vault_id
                  (record s { vaults = vaults }),
            )
    ]

abbrev pub restored : VaultRow → VaultRow
restored r = record r { backup_status = "restored" }

-- POST /v1/note-vaults/:vault_id/mark-restored
unfoldable pub mark_restored : Option Auth → String → Store → Reply String × Store
unfolding user_owns_vault update_vaults
mark_restored none vault_id s = (error 401, s)
mark_restored (some auth) vault_id s =
    if not (user_owns_vault auth.user_id vault_id s.vaults) then (error 404, s) else (
      ok vault_id,
      log_activity auth.user_id "vault.restored" vault_id
          (record s { vaults = update_vaults auth.user_id vault_id restored s.vaults }),
    )

-- DELETE /v1/note-vaults/:vault_id/wrappers/:wrapper_id
unfoldable pub delete_wrapper : Option Auth → String → String → Store → Reply Bool × Store
unfolding delete_vault_wrapper
delete_wrapper none vault_id wrapper_id s = (error 401, s)
delete_wrapper (some auth) vault_id wrapper_id s =
    let (hit, rows) = delete_vault_wrapper auth.user_id vault_id wrapper_id s.wrappers in
    if hit then (ok true, record s { wrappers = rows }) else (error 404, s)
