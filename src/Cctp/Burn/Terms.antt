-- ===== src/Cctp/Burn/Terms.antt =====
-- Which burns `validateInboundBurnTx` lets through: the terms of the deposit, said without the code.
use Prim.Native.String.{◌++◌}
use shade.Shared.{ℕ, String, true, Option, none, some, ◌≡◌, refl, ◌↔◌, ◌≤◌, arith, eq_iff}
use shade.Shared.Texts.{codes, lower}
use shade.Shared.Results.{ok, or_throw, >>=-eq-ok}
use shade.Cctp.{
  stellar_domain, arbitrum_sepolia_usdc, arbitrum_sepolia_token_messenger, stellar_cctp_forwarder,
  StrKey, hex, hook_bytes, stellar_contract_to_bytes32, encode_stellar_forward_hook,
}
use shade.Cctp.Burn.{
  BurnCall, Parsed, decoded, malformed, unmatched, BurnTx, Provider, BurnEnv, BurnArgs,
  BurnValidation, or_else, parsed_call, within_fee, finality_or_default, is_number, validation,
  check_call, check_tx, validate_inbound_burn_tx,
}

-- No more than the agreed fee, if one was agreed.
abbrev pub FeeWithin : Option ℕ → ℕ → Type 0
FeeWithin none fee = Unit {0}
FeeWithin (some most) fee = fee ≤ most

within_fee-FeeWithin : (o : Option ℕ) (n : ℕ) → (within_fee o n ≡ true) ↔ FeeWithin o n
within_fee-FeeWithin none n = (λ h. tt, λ h. refl)
within_fee-FeeWithin (some m) n = (λ h. ground arith, λ h. ground arith)

module _ (sk : StrKey) (env : BurnEnv) (a : BurnArgs) where
  abbrev pub forwarder : String
  forwarder = or_else env.forwarder stellar_cctp_forwarder

  -- The call burns the deposit's amount of USDC for Stellar's forwarder, which nobody else may call, with
  -- the pool in the hook, a fee that was agreed and the finality that is asked for.
  pub record Terms (d : BurnCall) : Type 0 where
    pub forwarder_valid : sk.is_valid_contract forwarder ≡ true
    pub pool_valid : sk.is_valid_contract a.pool ≡ true
    pub amount : d.amount ≡ a.expected_amount6
    pub domain : d.destination_domain ≡ stellar_domain
    pub recipient : lower d.mint_recipient ≡ lower ("0x" ++ hex (sk.decode_contract forwarder))
    pub token : lower d.burn_token ≡ lower (or_else env.usdc_address arbitrum_sepolia_usdc)
    pub caller : lower d.destination_caller ≡ lower ("0x" ++ hex (sk.decode_contract forwarder))
    pub fee : FeeWithin a.expected_max_fee6 d.max_fee
    pub finality :
        finality_or_default a.expected_finality env.expected_finality
        ≡ some d.min_finality_threshold
    pub hook : lower d.hook_data ≡ lower ("0x" ++ hex (hook_bytes (codes a.pool)))

  -- The transaction was sent by the user to the token messenger, with this call, and not reverted.
  pub record Sent (tx : BurnTx) (status : Option ℕ) (d : BurnCall) : Type 0 where
    pub success : status ≡ some 1
    pub sender : lower tx.from ≡ lower a.expected_sender
    pub target :
        lower (or_else tx.to "")
        ≡ lower (or_else env.token_messenger arbitrum_sepolia_token_messenger)
    pub call : tx.parsed ≡ decoded d

  is_number-eq : (o : Option ℕ) (n : ℕ) → (is_number o n ≡ true) ↔ (o ≡ some n)
  is_number-eq none n = (λ h. cc, λ h. cc)
  is_number-eq (some m) n = (λ h. ground arith, λ h. ground arith)

  abbrev mint : String
  mint = "0x" ++ hex (sk.decode_contract forwarder)

  abbrev hook_text : String
  hook_text = "0x" ++ hex (hook_bytes (codes a.pool))

  check_call-Terms : (d : BurnCall) {u : Unit {0}} → check_call sk env a d ≡ ok u → Terms d
  unfolding check_call stellar_contract_to_bytes32 encode_stellar_forward_hook
  check_call-Terms d h = ground (
    arith,
    eq_iff (lower d.mint_recipient) (lower mint),
    eq_iff (lower d.burn_token) (lower (or_else env.usdc_address arbitrum_sepolia_usdc)),
    eq_iff (lower d.destination_caller) (lower mint),
    eq_iff (lower d.hook_data) (lower hook_text),
    is_number-eq (finality_or_default a.expected_finality env.expected_finality)
        d.min_finality_threshold,
    within_fee-FeeWithin a.expected_max_fee6 d.max_fee,
  )

  Terms-check_call : (d : BurnCall) → Terms d → check_call sk env a d ≡ ok tt
  unfolding check_call stellar_contract_to_bytes32 encode_stellar_forward_hook
  Terms-check_call d t = ground (
    arith,
    eq_iff (lower d.mint_recipient) (lower mint),
    eq_iff (lower d.burn_token) (lower (or_else env.usdc_address arbitrum_sepolia_usdc)),
    eq_iff (lower d.destination_caller) (lower mint),
    eq_iff (lower d.hook_data) (lower hook_text),
    is_number-eq (finality_or_default a.expected_finality env.expected_finality)
        d.min_finality_threshold,
    within_fee-FeeWithin a.expected_max_fee6 d.max_fee,
  )

  module _ (tx : BurnTx) (status : Option ℕ) (d : BurnCall) where
    abbrev messenger : String
    messenger = or_else env.token_messenger arbitrum_sepolia_token_messenger

    parsed_call-eq : (p : Parsed) → parsed_call p ≡ ok d → p ≡ decoded d
    parsed_call-eq malformed h = cc
    parsed_call-eq unmatched h = cc
    parsed_call-eq (decoded e) h = cc

    check_tx-Sent : check_tx sk env a tx status ≡ ok d → Sent tx status d
    unfolding check_tx
    check_tx-Sent h = ground (
      arith,
      is_number-eq status 1,
      eq_iff (lower tx.from) (lower a.expected_sender),
      eq_iff (lower (or_else tx.to "")) (lower messenger),
      parsed_call-eq tx.parsed,
    )

    Sent-check_tx : Sent tx status d → check_tx sk env a tx status ≡ ok d
    unfolding check_tx
    Sent-check_tx h = ground (
      arith,
      is_number-eq status 1,
      eq_iff (lower tx.from) (lower a.expected_sender),
      eq_iff (lower (or_else tx.to "")) (lower messenger),
    )

  -- What a burn of these terms is to the provider.
  pub record Burned (provider : Provider) (v : BurnValidation) : Type 0 where
    pub tx : BurnTx
    pub status : Option ℕ
    pub call : BurnCall
    pub found : provider.transaction a.burn_tx_hash ≡ some tx
    pub mined : provider.receipt_status a.burn_tx_hash ≡ some status
    pub sent : Sent tx status call
    pub terms : Terms call
    pub reported : v ≡ validation a.burn_tx_hash tx.from call

  or_throw-eq-ok :
      {A : Type 0} (o : Option A) (e : String) {x : A} → or_throw o e ≡ ok x → o ≡ some x
  or_throw-eq-ok none e h = cc
  or_throw-eq-ok (some y) e h = cc

  -- `validateInboundBurnTx` returns exactly for a transaction that is mined and not reverted, that the
  -- expected sender sent to the token messenger, and whose call burns the expected amount of USDC for
  -- Stellar's forwarder, which alone may call, with the pool as the recipient in the hook, a fee within
  -- the agreed one if there is one and the finality that is asked for; and it returns the arguments of
  -- that call.
  pub validate_inbound_burn_tx_iff :
      (provider : Provider) (v : BurnValidation)
      → (validate_inbound_burn_tx sk env a provider ≡ ok v) ↔ Burned provider v
  unfolding validate_inbound_burn_tx
  validate_inbound_burn_tx_iff provider v = (
    λ h.
        let (tx, found, h1) = >>=-eq-ok (or_throw (provider.transaction a.burn_tx_hash) _) _ h in
        let (status, mined, h2) =
          >>=-eq-ok (or_throw (provider.receipt_status a.burn_tx_hash) _) _ h1 in
        let (d, sent, h3) = >>=-eq-ok (check_tx sk env a tx status) _ h2 in
        let (u, terms, h4) = >>=-eq-ok (check_call sk env a d) _ h3 in
        record {
          tx = tx;
          status = status;
          call = d;
          found = or_throw-eq-ok _ _ found;
          mined = or_throw-eq-ok _ _ mined;
          sent = check_tx-Sent tx status d sent;
          terms = check_call-Terms d terms;
          reported = cc;
        },
    λ b.
        rw
          (
            b.found,
            b.mined,
            Sent-check_tx b.tx b.status b.call b.sent,
            Terms-check_call b.call b.terms,
          )
          (cc),
  )
