-- ===== src/Cctp/Burn.antt =====
-- packages/cctp/src/cctp-inbound.ts: the check of a burn that a user made on Arbitrum. The provider's
-- answers and the decoding of the call by ethers are arguments.
pub mod Terms
use Prim.Native.String.{◌++◌}
use shade.Shared.{
  ℕ, String, Bool, true, false, Option, none, some, ◌==◌, ◌≡◌, ◌↔◌, ◌≤◌, nat_eq, leb, if◌then◌else◌,
}
use shade.Shared.Texts.{lower}
use shade.Shared.Results.{Result, ok, err, running, ◌>>=◌, ◌>>◌, guard, or_throw}
use shade.Cctp.{
  stellar_domain, arbitrum_sepolia_usdc, arbitrum_sepolia_token_messenger, stellar_cctp_forwarder,
  finality_threshold_confirmed, StrKey, stellar_contract_to_bytes32, encode_stellar_forward_hook,
}

-- The arguments of `depositForBurnWithHook`; an address or bytes as the text that ethers gives.
pub record BurnCall : Type 0 where
  pub amount : ℕ
  pub destination_domain : ℕ
  pub mint_recipient : String
  pub burn_token : String
  pub destination_caller : String
  pub max_fee : ℕ
  pub min_finality_threshold : ℕ
  pub hook_data : String

-- What `parseTransaction` does: it throws, finds no such function, or decodes the arguments.
pub data Parsed : Type 0 where
  malformed unmatched : Parsed
  decoded : BurnCall → Parsed

pub record BurnTx : Type 0 where
  pub from : String
  pub to : Option String
  pub parsed : Parsed

-- `none` where there is no such transaction, or no receipt of it yet; a receipt may have no status.
pub record Provider : Type 0 where
  pub transaction : String → Option BurnTx
  pub receipt_status : String → Option (Option ℕ)

-- The variables that the check reads. The threshold is unset, or what `Number` makes of its text, which
-- is nothing for a text that is no number.
pub record BurnEnv : Type 0 where
  pub token_messenger : Option String
  pub forwarder : Option String
  pub usdc_address : Option String
  pub expected_finality : Option (Option ℕ)

pub record BurnArgs : Type 0 where
  pub burn_tx_hash : String
  pub expected_sender : String
  pub expected_amount6 : ℕ
  pub pool : String
  pub expected_max_fee6 : Option ℕ
  pub expected_finality : Option ℕ

pub record BurnValidation : Type 0 where
  pub burn_tx_hash : String
  pub sender : String
  pub amount6 : ℕ
  pub destination_domain : ℕ
  pub mint_recipient : String
  pub destination_caller : String
  pub burn_token : String
  pub max_fee : ℕ
  pub min_finality_threshold : ℕ
  pub hook_data : String

-- `a ?? b`
abbrev pub or_else : Option String → String → String
or_else none b = b
or_else (some a) b = a

abbrev pub parsed_call : Parsed → Result BurnCall
parsed_call malformed = err "burn tx is not depositForBurnWithHook"
parsed_call unmatched = err "could not decode burn calldata"
parsed_call (decoded d) = ok d

abbrev pub within_fee : Option ℕ → ℕ → Bool
within_fee none fee = true
within_fee (some most) fee = leb fee most

abbrev pub finality_or_default : Option ℕ → Option (Option ℕ) → Option ℕ
finality_or_default (some n) default = some n
finality_or_default none (some default) = default
finality_or_default none none = some finality_threshold_confirmed

-- `n !== expected`, where nothing equals what is no number.
abbrev pub is_number : Option ℕ → ℕ → Bool
is_number none n = false
is_number (some m) n = nat_eq n m

abbrev pub validation : String → String → BurnCall → BurnValidation
validation burn_tx_hash sender d = record {
  burn_tx_hash = burn_tx_hash;
  sender = sender;
  amount6 = d.amount;
  destination_domain = d.destination_domain;
  mint_recipient = d.mint_recipient;
  destination_caller = d.destination_caller;
  burn_token = d.burn_token;
  max_fee = d.max_fee;
  min_finality_threshold = d.min_finality_threshold;
  hook_data = d.hook_data;
}

module _ (sk : StrKey) (env : BurnEnv) (a : BurnArgs) where
  -- The tests on the decoded arguments, in their order.
  unfoldable pub check_call : BurnCall → Result (Unit {0})
  check_call d = do
    mint ← stellar_contract_to_bytes32 sk (or_else env.forwarder stellar_cctp_forwarder)
    hook ← encode_stellar_forward_hook sk a.pool
    guard (nat_eq d.amount a.expected_amount6) "burn amount != deposit amount"
    guard (nat_eq d.destination_domain stellar_domain) "burn destination domain != Stellar"
    guard (lower d.mint_recipient == lower mint) "burn mintRecipient != Stellar CCTP Forwarder"
    guard (lower d.burn_token == lower (or_else env.usdc_address arbitrum_sepolia_usdc))
        "burn burnToken != expected USDC"
    guard (lower d.destination_caller == lower mint)
        "burn destinationCaller != Stellar CCTP Forwarder"
    guard (within_fee a.expected_max_fee6 d.max_fee) "burn maxFee exceeds prepared maxFee"
    guard
        (is_number (finality_or_default a.expected_finality env.expected_finality)
          d.min_finality_threshold)
        "burn minFinalityThreshold != expected"
    guard (lower d.hook_data == lower hook) "burn hookData forwardRecipient != ShadePool"

  -- The tests on the transaction, and the arguments of its call.
  unfoldable pub check_tx : BurnTx → Option ℕ → Result BurnCall
  check_tx tx status = do
    guard (is_number status 1) "burn tx reverted"
    guard (lower tx.from == lower a.expected_sender) "burn sender != deposit user wallet"
    guard
        (lower (or_else tx.to "")
          == lower (or_else env.token_messenger arbitrum_sepolia_token_messenger))
        "burn tx target != CCTP TokenMessenger"
    parsed_call tx.parsed

  unfoldable pub validate_inbound_burn_tx : Provider → Result BurnValidation
  unfolding check_tx check_call
  validate_inbound_burn_tx provider = do
    tx ← or_throw (provider.transaction a.burn_tx_hash) "burn tx not found on Arbitrum"
    status ← or_throw (provider.receipt_status a.burn_tx_hash) "burn tx not found on Arbitrum"
    d ← check_tx tx status
    check_call d
    ok (validation a.burn_tx_hash tx.from d)
