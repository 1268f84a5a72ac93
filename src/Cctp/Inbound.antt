-- ===== src/Cctp/Inbound.antt =====
-- packages/cctp/src/cctp-inbound.ts: `runCctpInbound`, the operator's own burn, and
-- `runPostUserBurnCctpInbound`, what follows a user's burn.
use shade.Shared.{
  ℕ, zero, suc, ◌/◌, String, Bool, true, false, not, Option, none, some, leb, ltb, ◌==◌,
  if◌then◌else◌,
}
use shade.Shared.Texts.{strip_hex}
use shade.Shared.Results.{Result, ok, err, guard}
use shade.Cctp.{finality_threshold_finalized, finality_threshold_confirmed, CctpAttestation}
use shade.Cctp.Chain.{
  DepositBinding, sac_balance, mint_and_forward, Invoked, Services, M, ◌>>=◌, ◌>>◌, lift, pure,
  ask_amount, invoke, ask_proof,
}

-- The variables of the environment, an unset one `none`.
pub record EnvMap : Type 0 where
  pub private_key : Option String
  pub stellar_cctp_forwarder_contract : Option String
  pub shade_vault_contract : Option String
  pub usdc_sac_contract : Option String
  pub stellar_relayer_secret : Option String
  pub arb_sepolia_usdc_address : Option String
  pub commitment_tree_contract : Option String

pub record InboundParams : Type 0 where
  pub amount6 : ℕ
  pub commitment : String
  pub payload_hash : String
  pub policy_id : String
  pub fast : Option Bool
  pub max_fee6 : Option ℕ
  pub target_contract : Option String
  pub root_method : Option String
  pub new_root : Option String
  pub coin : Option String
  pub pool_id : Option String
  pub chain_id : Option String
  pub admin_secret : Option String

pub record PostUserBurnParams : Type 0 where
  pub burn_tx_hash : String
  pub pool : String
  pub amount6 : ℕ
  pub commitment : String
  pub payload_hash : String
  pub policy_id : String
  pub new_root : String
  pub coin : Option String
  pub pool_id : Option String
  pub chain_id : Option String

pub record InboundResult : Type 0 where
  pub burn_tx_hash : String
  pub cctp_nonce : String
  pub mint_forward_tx_hash : String
  pub vault_usdc_before : ℕ
  pub vault_usdc_after : ℕ
  pub receive_deposit_tx_hash : String
  pub leaf_index : String
  pub root : String
  pub amount7 : ℕ

-- `a ?? b`
abbrev pub or_else : {A : Type 0} → Option A → A → A
or_else none b = b
or_else (some a) b = a

-- `if (!v) throw`: an empty text is missing too.
unfoldable pub need : Option String → String → Result String
need none key = err key
need (some v) key = if v == "" then err key else ok v

-- `if (x)` on an optional text.
abbrev pub given : Option String → Bool
given none = false
given (some v) = not (v == "")

abbrev pub standard_fee : ℕ → ℕ
standard_fee amount6 = if ltb 0 (amount6 / 1000) then amount6 / 1000 else 1

unfoldable pub fee_of : InboundParams → ℕ
fee_of p = if or_else p.fast true then or_else p.max_fee6 (standard_fee p.amount6) else 0

abbrev pub finality_of : Option Bool → ℕ
finality_of fast =
    if or_else fast true then finality_threshold_confirmed else finality_threshold_finalized

module _ (sv : Services) where
  -- `sacBalance`: five readings at most, and 0 where all of them are empty.
  unfoldable pub read_balance : ℕ → String → M ℕ
  read_balance zero contract = pure 0
  read_balance (suc tries) contract =
      let again = read_balance tries contract in
      ask_amount sv (sac_balance contract) >>= λ found. elim found [
        | none ↦ again
        | some b ↦ pure b
      ]

  -- The readings after the mint, ten more at most, until the balance has grown.
  unfoldable pub wait_for_mint : ℕ → String → ℕ → ℕ → M ℕ
  unfolding read_balance
  wait_for_mint zero contract before after = pure after
  wait_for_mint (suc tries) contract before after =
      if leb after before
      then (read_balance 5 contract >>= λ next. wait_for_mint tries contract before next)
      else pure after

  -- The mint, and the pool's balance before and after it.
  unfoldable pub mint : String → String → CctpAttestation → M (ℕ × ℕ × Invoked)
  unfolding wait_for_mint read_balance
  mint forwarder contract att = do
    before ← read_balance 5 contract
    minted ← invoke sv (mint_and_forward (strip_hex att.message) (strip_hex att.attestation))
    first ← read_balance 5 contract
    after ← wait_for_mint 10 contract before first
    pure (before, after, minted)

  -- The proof that binds the note to the message, which must verify.
  unfoldable pub prove_deposit : Option String → String → DepositBinding → M (String × String)
  prove_deposit none missing b = lift (err missing)
  prove_deposit (some coin) missing b = do
    dep ← ask_proof sv coin b
    lift (guard dep.locally_verified "deposit proof failed local verification")
    pure (dep.proof_hex, dep.public_hex)
