-- ===== src/Cctp/Runs.antt =====
-- packages/cctp/src/cctp-inbound.ts: the two runs, each as what comes before the registration of the
-- deposit, and the registration.
use shade.Shared.{
  ℕ, ◌-◌, ◌*◌, String, true, false, ◌&&◌, Option, none, some, leb, ltb, ◌==◌, if◌then◌else◌,
}
use shade.Shared.Texts.{strip_hex}
use shade.Shared.Results.{Result, ok, guard, or_throw, ◌>>=◌ as bind}
use shade.Cctp.{
  stellar_domain, arbitrum_sepolia_domain, arbitrum_sepolia_usdc, stellar_cctp_forwarder,
  usdc6_to_stellar7, StrKey, stellar_contract_to_bytes32, encode_stellar_forward_hook,
}
use shade.Cctp.Chain.{
  DepositBinding, Deposit, usdc_balance, allowance, approve, burn, receive_deposit, read_root,
  Invoked, Services, M, ◌>>=◌, ◌>>◌, lift, pure, ask_amount, invoke, wait_attestation,
}
use shade.Cctp.Inbound.{
  EnvMap, InboundParams, PostUserBurnParams, InboundResult, or_else, need, given, fee_of,
  finality_of, mint, prove_deposit,
}

module _ (sk : StrKey) (sv : Services) (env : EnvMap) where
  abbrev pub binding :
      String
      → String
      → String
      → String
      → ℕ
      → ℕ
      → String
      → String
      → Option String
      → Option String
      → DepositBinding
  binding nonce tx asset pool amount6 amount7 payload_hash policy_id pool_id chain_id = record {
    source_domain = arbitrum_sepolia_domain;
    destination_domain = stellar_domain;
    cctp_nonce = nonce;
    burn_tx_hash = tx;
    amount6 = amount6;
    amount7 = amount7;
    asset = asset;
    pool = pool;
    payload_hash = payload_hash;
    policy_id = policy_id;
    pool_id = or_else pool_id "1";
    chain_id = or_else chain_id "148";
  }

  -- The arguments of the proof and the new root, which only a shielded pool takes; the pool is
  -- `p.targetContract`.
  unfoldable pub pool_args :
      Option String
      → InboundParams
      → String
      → String
      → String
      → ℕ
      → M (Option (String × String) × Option String)
  unfolding prove_deposit
  pool_args none p tx nonce sac amount7 = pure (none, none)
  pool_args (some pool) p tx nonce sac amount7 = if pool == "" then pure (none, none) else do
    proof ← prove_deposit sv p.coin "coin (note opening) required for shielded_pool deposit proof" (
        binding nonce tx sac pool p.amount6 amount7 p.payload_hash p.policy_id p.pool_id p.chain_id)
    root ← lift (or_throw p.new_root "newRootHex required for shielded_pool deposit")
    pure (some proof, some (strip_hex root))

  -- The burn with the operator's key: checked against the balance, approved if need be, and sent.
  unfoldable pub send_burn : InboundParams → String → String → M Invoked
  unfolding fee_of
  send_burn p forwarder vault = do
    balance ← ask_amount sv usdc_balance
    lift (guard (leb p.amount6 (or_else balance 0)) "insufficient USDC")
    allowed ← ask_amount sv allowance
    (if ltb (or_else allowed 0) p.amount6
        then (invoke sv (approve (p.amount6 * 100)) >>= λ _. pure tt)
        else pure tt)
    recipient ← lift (stellar_contract_to_bytes32 sk forwarder)
    hook ← lift (encode_stellar_forward_hook sk vault)
    invoke sv (
        burn (record {
          amount6 = p.amount6;
          destination_domain = stellar_domain;
          mint_recipient = recipient;
          burn_token = or_else env.arb_sepolia_usdc_address arbitrum_sepolia_usdc;
          destination_caller = recipient;
          max_fee = fee_of p;
          min_finality_threshold = finality_of p.fast;
          hook_data = hook;
        }))

  abbrev pub deposit :
      InboundParams
      → String
      → String
      → String
      → String
      → ℕ
      → Option (String × String) × Option String
      → Deposit
  deposit p vault signer nonce sac amount7 args = record {
    contract = vault;
    signer = signer;
    source_domain = arbitrum_sepolia_domain;
    cctp_nonce = strip_hex nonce;
    asset = sac;
    amount7 = amount7;
    commitment = strip_hex p.commitment;
    new_root = args.1;
    payload_hash = strip_hex p.payload_hash;
    policy_id = strip_hex p.policy_id;
    proof = args.0;
  }

  -- The contract and the method that the new root is read from.
  unfoldable pub root_source : InboundParams → Result (String × String)
  unfolding need
  root_source p = elim (given p.target_contract) [
    | true ↦ ok (or_else p.target_contract "", or_else p.root_method "get_root")
    | false ↦
        bind (need env.commitment_tree_contract "COMMITMENT_TREE_CONTRACT")
          (λ tree. ok (tree, or_else p.root_method "get_latest_root"))
  ]

  abbrev pub vault_of : InboundParams → Result String
  vault_of p = elim p.target_contract [
    | none ↦ need env.shade_vault_contract "SHADE_VAULT_CONTRACT"
    | some pool ↦ ok pool
  ]

  -- The result, but for the registration and the root.
  abbrev pub result_of : String → String → ℕ × ℕ × Invoked → ℕ → InboundResult
  result_of tx nonce m amount7 = record {
    burn_tx_hash = tx;
    cctp_nonce = nonce;
    mint_forward_tx_hash = m.2.tx_hash;
    vault_usdc_before = m.0;
    vault_usdc_after = m.1;
    receive_deposit_tx_hash = "";
    leaf_index = "";
    root = "";
    amount7 = amount7;
  }

  -- All that comes before the deposit is registered: its arguments, and what the result says.
  unfoldable pub prepare_inbound : InboundParams → M (Deposit × InboundResult)
  unfolding send_burn mint pool_args need
  prepare_inbound p = do
    _ ← lift (need env.private_key "ARB_SEPOLIA_PRIVATE_KEY/ETH_PRIVATE_KEY required")
    forwarder ← lift (need env.stellar_cctp_forwarder_contract "STELLAR_CCTP_FORWARDER_CONTRACT")
    vault ← lift (vault_of p)
    sac ← lift (need env.usdc_sac_contract "STELLAR_TESTNET_USDC_SAC_CONTRACT")
    relayer ← lift (need env.stellar_relayer_secret "STELLAR_RELAYER_SECRET")
    burned ← send_burn p forwarder vault
    att ← wait_attestation sv burned.tx_hash
    let nonce = sv.keccak att.message
    m ← mint sv forwarder vault att
    let amount7 = m.1 - m.0
    lift (
        guard (ltb m.0 m.1 && leb amount7 (usdc6_to_stellar7 p.amount6))
          "vault USDC delta out of range")
    args ← pool_args p.target_contract p burned.tx_hash nonce sac amount7
    pure (
      deposit p vault (or_else p.admin_secret relayer) nonce sac amount7 args,
      result_of burned.tx_hash nonce m amount7,
    )

  -- Registers the deposit, and reads the root.
  unfoldable pub register : Deposit × InboundResult → Result (String × String) → M InboundResult
  register (d, r) source = do
    received ← invoke sv (receive_deposit d)
    (contract, method) ← lift source
    root ← invoke sv (read_root contract method)
    pure (record r {
      receive_deposit_tx_hash = received.tx_hash;
      leaf_index = received.return_value;
      root = root.return_value;
    })

  unfoldable pub run_cctp_inbound : InboundParams → M InboundResult
  unfolding prepare_inbound register root_source
  run_cctp_inbound p = prepare_inbound p >>= λ ready. register ready (root_source p)

  abbrev pub user_deposit :
      PostUserBurnParams → String → String → String → ℕ → String × String → Deposit
  user_deposit p signer nonce sac amount7 proof = record {
    contract = p.pool;
    signer = signer;
    source_domain = arbitrum_sepolia_domain;
    cctp_nonce = strip_hex nonce;
    asset = sac;
    amount7 = amount7;
    commitment = strip_hex p.commitment;
    new_root = some (strip_hex p.new_root);
    payload_hash = strip_hex p.payload_hash;
    policy_id = strip_hex p.policy_id;
    proof = some proof;
  }

  unfoldable pub prepare_post_user_burn : PostUserBurnParams → M (Deposit × InboundResult)
  unfolding mint prove_deposit need
  prepare_post_user_burn p = do
    let forwarder = or_else env.stellar_cctp_forwarder_contract stellar_cctp_forwarder
    sac ← lift (need env.usdc_sac_contract "STELLAR_TESTNET_USDC_SAC_CONTRACT")
    relayer ← lift (need env.stellar_relayer_secret "STELLAR_RELAYER_SECRET")
    att ← wait_attestation sv p.burn_tx_hash
    let nonce = sv.keccak att.message
    m ← mint sv forwarder p.pool att
    let amount7 = m.1 - m.0
    lift (guard (ltb m.0 m.1) "mint_and_forward produced no pool USDC delta")
    proof ← prove_deposit sv p.coin "coin opening required to build DepositNoteMint proof" (
        binding nonce p.burn_tx_hash sac p.pool p.amount6 amount7 p.payload_hash p.policy_id
          p.pool_id p.chain_id)
    pure (user_deposit p relayer nonce sac amount7 proof, result_of p.burn_tx_hash nonce m amount7)

  unfoldable pub run_post_user_burn_cctp_inbound : PostUserBurnParams → M InboundResult
  unfolding prepare_post_user_burn register
  run_post_user_burn_cctp_inbound p =
      prepare_post_user_burn p >>= λ ready. register ready (ok (p.pool, "get_root"))
