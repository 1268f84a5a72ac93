-- ===== src/Cctp/Tests.antt =====
-- The theorems on transfers by CCTP at concrete inputs, and runs of the code on them.
use shade.Shared.{ℕ, ◌≡◌, refl, ◌||◌, map, [], ◌∷◌, Option, none, some, ◌==◌}
use shade.Shared.Texts.{lower, codes}
use shade.Shared.Results.{Result, ok}
use shade.Cctp.{
  StrKey, Poll, poll_attestation, hex, encode_stellar_forward_hook, stellar_contract_to_bytes32,
  hook_bytes, usdc6_to_stellar7,
}
use shade.Cctp.Burn.{
  BurnCall, decoded, Provider, BurnEnv, BurnArgs, BurnValidation, validate_inbound_burn_tx,
}
use shade.Cctp.Burn.Terms.{Burned, validate_inbound_burn_tx_iff}
use shade.Cctp.Chain.{Deposit, Services, Log, Request, sac_balance, ◌>>=◌}
use shade.Cctp.Inbound.{EnvMap, InboundParams, PostUserBurnParams}
use shade.Cctp.Runs.{run_cctp_inbound}
use shade.Cctp.Registered.{registered}
use shade.Cctp.Excess.{unread_before, configured, is_minted}

abbrev strkey : StrKey
strkey = record {
  is_valid_contract = λ s. s == "CF" || s == "CP";
  decode_contract = λ s. 171 ∷ 9 ∷ [];
}

abbrev burn_env : BurnEnv
burn_env = record {
  token_messenger = some "0xAA";
  forwarder = some "CF";
  usdc_address = some "0xUU";
  expected_finality = none;
}

abbrev burn_args : BurnArgs
burn_args = record {
  burn_tx_hash = "0x01";
  expected_sender = "0xBB";
  expected_amount6 = 500;
  pool = "CP";
  expected_max_fee6 = some 3;
  expected_finality = none;
}

abbrev call : BurnCall
call = record {
  amount = 500;
  destination_domain = 27;
  mint_recipient = "0xAB09";
  burn_token = "0xuu";
  destination_caller = "0xab09";
  max_fee = 2;
  min_finality_threshold = 1000;
  hook_data = "0x00000000000000000000000000000000000000000000000000000000000000024350";
}

abbrev provider : Provider
provider = record {
  transaction = λ h. some (record { from = "0xbb"; to = some "0xaa"; parsed = decoded call });
  receipt_status = λ h. some (some 1);
}

abbrev accepted : BurnValidation
accepted = record {
  burn_tx_hash = "0x01";
  sender = "0xbb";
  amount6 = 500;
  destination_domain = 27;
  mint_recipient = "0xAB09";
  destination_caller = "0xab09";
  burn_token = "0xuu";
  max_fee = 2;
  min_finality_threshold = 1000;
  hook_data = "0x00000000000000000000000000000000000000000000000000000000000000024350";
}

validate_test : validate_inbound_burn_tx strkey burn_env burn_args provider ≡ ok accepted
unfolding validate_inbound_burn_tx stellar_contract_to_bytes32 encode_stellar_forward_hook lower hex
    hook_bytes codes
validate_test = refl

validate_inbound_burn_tx_iff_example : Burned strkey burn_env burn_args provider accepted
validate_inbound_burn_tx_iff_example =
    (validate_inbound_burn_tx_iff strkey burn_env burn_args provider accepted).0 validate_test

abbrev waiting : ℕ → Poll
waiting t = record { answer = ok none; elapsed = t }

abbrev user_params : PostUserBurnParams
user_params = record {
  burn_tx_hash = "0x01";
  pool = "CP";
  amount6 = 500;
  commitment = "0xc0";
  payload_hash = "0xe0";
  policy_id = "0xd0";
  new_root = "0x77";
  coin = some "coin.json";
  pool_id = none;
  chain_id = none;
}

abbrev operator_env : EnvMap
operator_env = record configured {
  private_key = some "k";
  stellar_cctp_forwarder_contract = some "CF";
  commitment_tree_contract = some "CT";
}

abbrev operator_params : InboundParams
operator_params = record {
  amount6 = 500;
  commitment = "0xc0";
  payload_hash = "0xe0";
  policy_id = "0xd0";
  fast = none;
  max_fee6 = none;
  target_contract = some "CP";
  root_method = none;
  new_root = some "0x77";
  coin = some "coin.json";
  pool_id = none;
  chain_id = none;
  admin_secret = none;
}

-- The pool held 100 before the mint, and the operator has enough.
abbrev reading : Request → Log → Result (Option ℕ)
reading (sac_balance c) l = elim (is_minted l (some 4100)) [
  | none ↦ ok (some 100)
  | some n ↦ ok (some n)
]
reading r l = ok (some 600)

abbrev steady : Services
steady = record (unread_before 0) { amount = reading }

run_cctp_inbound_test :
    map
      (λ (d : Deposit). d.amount7)
      (registered (run_cctp_inbound strkey steady operator_env operator_params []).1)
    ≡ 4000 ∷ []
unfolding run_cctp_inbound ◌>>=◌ poll_attestation stellar_contract_to_bytes32
    encode_stellar_forward_hook usdc6_to_stellar7
run_cctp_inbound_test = refl
