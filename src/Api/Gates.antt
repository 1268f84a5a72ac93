-- ===== src/Api/Gates.antt =====
-- What a deposit needs, and what a verified backup gives.
use shade.Shared.{
  ℕ, ◌/◌, ◌≤◌, ◌<◌, String, ◌≡◌, refl, sym, ap, subst, inl, inr, Bool, true, List, [], ◌∷◌, some,
  arith, ◌==◌, eq_iff, ltb, ltb→lt, Bool-cases, Option-cases,
}
use shade.Api.Recovery.{is_enough}
use shade.Api.Store.{
  Verification, VaultRow, Store, owns, get_note_vault, update_vaults, user_owns_vault,
  user_owns_wallet, vault_deposit_ready, create_user_deposit,
}
use shade.Api.Vaults.{Auth, Reply, ok, error, verify_backup, verified}
use shade.Api.Deposits.{
  PrepareBody, PrepareReply, max_fee, root_healthy, prepared, insert_prepared, prepare_deposit,
}

-- Everything that a deposit is gated on.
abbrev pub IsGated : Auth → PrepareBody → Store → Type 0
IsGated auth body s =
    (0 < body.amount_usdc_6dp)
    × (user_owns_wallet auth.user_id body.source_wallet_address s.wallets ≡ true)
    × (user_owns_vault auth.user_id body.vault_id s.vaults ≡ true)
    × (vault_deposit_ready auth.user_id body.vault_id s.vaults ≡ true)
    × (root_healthy s ≡ true)

-- Refused with an error code and nothing stored, or gated and stored under the user.
abbrev pub Prepares :
    (String → String → String)
    → Auth
    → PrepareBody
    → String
    → Store
    → Reply PrepareReply × Store
    → Type 0
Prepares id_of auth body key s (error code, after) = after ≡ s
Prepares id_of auth body key s (ok r, after) =
    IsGated auth body s
    × (after.deposits
        ≡ create_user_deposit (prepared (id_of key body.commitment) key auth.user_id body)
            s.deposits)
    × (after.vaults ≡ s.vaults)
    × (r.burn_amount ≡ body.amount_usdc_6dp)
    × (1 ≤ r.max_fee)
    × (r.max_fee ≤ r.burn_amount)

max_fee-bounds : (n : ℕ) → 0 < n → (1 ≤ max_fee n) × (max_fee n ≤ n)
unfolding max_fee
max_fee-bounds n h = elim (Bool-cases (ltb 0 (n / 1000))) [
  | inl big ↦ rw big (ltb→lt 0 (n / 1000) big, omega arith)
  | inr small ↦ rw small (omega arith, omega arith)
]

-- A request for a deposit is refused and changes nothing, or its amount is positive, its wallet and vault
-- belong to the user, the vault is ready, no critical finding on the root is open, the row for this user
-- is inserted unless its id is there already, and the burn is for the amount with a fee between 1 and
-- the amount.
pub prepare_deposit-Prepares :
    (id_of : String → String → String) (contracts : Bool) (auth : Auth) (body : PrepareBody)
    (key : String) (s : Store)
    → Prepares id_of auth body key s
        (prepare_deposit id_of contracts (some auth) (some body) (some key) s)
unfolding prepare_deposit insert_prepared
prepare_deposit-Prepares id_of contracts auth body key s =
    elim (Bool-cases (body.source_chain == "arbitrum-sepolia")) [
      | inr chain ↦ rw (chain, prepare_deposit) refl
      | inl chain ↦ elim (Bool-cases (ltb 0 body.amount_usdc_6dp)) [
        | inr amount ↦ rw (chain, amount, prepare_deposit) refl
        | inl amount ↦
            elim (Bool-cases (user_owns_wallet auth.user_id body.source_wallet_address s.wallets)) [
              | inr wallet ↦ rw (chain, amount, wallet, prepare_deposit) refl
              | inl wallet ↦
                  elim (Bool-cases (user_owns_vault auth.user_id body.vault_id s.vaults)) [
                    | inr vault ↦ rw (chain, amount, wallet, vault, prepare_deposit) refl
                    | inl vault ↦
                        elim (Bool-cases
                          (vault_deposit_ready auth.user_id body.vault_id s.vaults)) [
                            | inr ready ↦
                                rw (chain, amount, wallet, vault, ready, prepare_deposit) refl
                            | inl ready ↦ checked ready wallet vault chain amount
                          ]
                  ]
            ]
      ]
    ]
  where
    checked :
        vault_deposit_ready auth.user_id body.vault_id s.vaults ≡ true
        → user_owns_wallet auth.user_id body.source_wallet_address s.wallets ≡ true
        → user_owns_vault auth.user_id body.vault_id s.vaults ≡ true
        → (body.source_chain == "arbitrum-sepolia") ≡ true
        → ltb 0 body.amount_usdc_6dp ≡ true
        → Prepares id_of auth body key s
            (prepare_deposit id_of contracts (some auth) (some body) (some key) s)
    checked ready wallet vault chain amount = elim (Bool-cases (root_healthy s)) [
      | inr root ↦ rw (chain, amount, wallet, vault, ready, root, prepare_deposit) refl
      | inl root ↦ elim (Bool-cases contracts) [
        | inr bad ↦ rw (chain, amount, wallet, vault, ready, root, bad, prepare_deposit) refl
        | inl good ↦
            let positive = ltb→lt 0 body.amount_usdc_6dp amount in
            let comes : prepare_deposit id_of contracts (some auth) (some body) (some key) s
                ≡ insert_prepared id_of contracts auth key body s =
              rw (chain, amount, wallet, vault, ready, root, good, prepare_deposit) refl in
            subst (Prepares id_of auth body key s) (sym comes) (
              (positive, wallet, vault, ready, root),
              refl,
              refl,
              refl,
              (max_fee-bounds body.amount_usdc_6dp positive).0,
              (max_fee-bounds body.amount_usdc_6dp positive).1,
            )
      ]
    ]

get-verified :
    (user_id vault_id : String) (v : Verification) (rows : List VaultRow) (r : VaultRow)
    → get_note_vault user_id vault_id rows ≡ some r
    → get_note_vault user_id vault_id (update_vaults user_id vault_id (verified v) rows)
      ≡ some (verified v r)
unfolding get_note_vault update_vaults
get-verified user_id vault_id v [] r e = cc
get-verified user_id vault_id v (k ∷ rows) r e = elim (Bool-cases (owns user_id vault_id k)) [
  | inl hit ↦
      let same : k ≡ r = ground arith in
      rw (hit, hit) (ap (λ (o : VaultRow). some (verified v o)) same)
  | inr miss ↦ rw (miss, miss) (get-verified user_id vault_id v rows r (rw miss at e))
]

-- A backup that the server takes for verified belongs to a vault of the user whose recovery policy
-- suffices, and the vault is ready for deposits from then on.
pub verify_backup-ready :
    (auth : Auth) (vault_id : String) (v : Verification) (s : Store) (ready : Bool)
    → (verify_backup (some auth) vault_id (some v) s).0 ≡ ok ready
    → (ready ≡ true)
      × (vault_deposit_ready auth.user_id vault_id
            (verify_backup (some auth) vault_id (some v) s).1.vaults
          ≡ true)
      × ((r : VaultRow) × (get_note_vault auth.user_id vault_id s.vaults ≡ some r)
          × (is_enough r.recovery_policy_status ≡ true)
          × (v.vault_id ≡ vault_id))
unfolding verify_backup vault_deposit_ready
verify_backup-ready auth vault_id v s ready e = elim (Bool-cases (v.vault_id == vault_id)) [
  | inr wrong ↦ absurd (cc (rw (wrong, verify_backup) at e))
  | inl right ↦ elim (Option-cases (get_note_vault auth.user_id vault_id s.vaults)) [
    | inl missing ↦ absurd (cc (rw (right, missing, verify_backup) at e))
    | inr (r, row) ↦ elim (Bool-cases (is_enough r.recovery_policy_status)) [
      | inr weak ↦ absurd (cc (rw (right, row, weak, verify_backup) at e))
      | inl fine ↦
          let after = get-verified auth.user_id vault_id v s.vaults r row in
          let given : vault_deposit_ready auth.user_id vault_id
                (update_vaults auth.user_id vault_id (verified v) s.vaults)
              ≡ true =
            rw (after, fine) refl in
          (
            ground arith,
            rw (right, row, fine, verify_backup) given,
            (r, row, fine, (eq_iff v.vault_id vault_id).0 right),
          )
    ]
  ]
]
