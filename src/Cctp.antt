-- ===== src/Cctp.antt =====
-- packages/cctp-utils/src/index.ts: the route, the hook and the amounts of a transfer by CCTP, and the
-- wait for Circle's attestation. The Stellar SDK's strkeys are an interface, Circle's answers arguments.
pub mod Burn
pub mod Chain
pub mod Excess
pub mod Inbound
pub mod OneDeposit
pub mod UserBurn
pub mod OperatorBurn
pub mod Polling
pub mod Registered
pub mod Runs
mod Tests
use Prim.Native.String.{◌++◌}
use shade.Shared.{
  ℕ, zero, suc, ◌*◌, ◌/◌, ◌%◌, ◌-◌, String, Bool, true, false, not, ◌&&◌, ◌||◌, List, [], ◌∷◌,
  Option, none, some, ◌==◌, nat_eq, ltb, if◌then◌else◌, length,
}
use shade.Shared.Texts.{codes, hex_digits}
use shade.Swap.{be_bytes_from}
use shade.Shared.Results.{Result, ok, err, running, ◌>>=◌, ◌>>◌, guard}

abbrev pub stellar_domain : ℕ
stellar_domain = 27

abbrev pub arbitrum_sepolia_domain : ℕ
arbitrum_sepolia_domain = 3

abbrev pub arbitrum_sepolia_usdc : String
arbitrum_sepolia_usdc = "0x75faf114eafb1BDbe2F0316DF893fd58CE46AA4d"

abbrev pub arbitrum_sepolia_token_messenger : String
arbitrum_sepolia_token_messenger = "0x8FE6B999Dc680CcFDD5Bf7EB0974218be2542DAA"

abbrev pub stellar_cctp_forwarder : String
stellar_cctp_forwarder = "CA66Q2WFBND6V4UEB7RD4SAXSVIWMD6RA4X3U32ELVFGXV5PJK4T4VSZ"

abbrev pub finality_threshold_finalized : ℕ
finality_threshold_finalized = 2000

abbrev pub finality_threshold_confirmed : ℕ
finality_threshold_confirmed = 1000

-- `StrKey` of the Stellar SDK: which texts are contracts, and their bytes.
pub record StrKey : Type 0 where
  pub is_valid_contract : String → Bool
  pub decode_contract : String → List ℕ

-- `Buffer.toString("hex")`
unfoldable pub hex : List ℕ → String
unfolding hex_digits
hex [] = ""
hex (b ∷ bytes) = hex_digits 2 b ++ hex bytes

pub record CctpInboundRoute : Type 0 where
  pub destination_domain : ℕ
  pub mint_recipient : String
  pub destination_caller : String
  pub forward_recipient : String

-- `usdc6ToStellar7`
unfoldable pub usdc6_to_stellar7 : ℕ → ℕ
usdc6_to_stellar7 amount6 = amount6 * 10

unfoldable pub stellar7_to_usdc6 : ℕ → Result ℕ
stellar7_to_usdc6 amount7 = do
  guard (nat_eq (amount7 % 10) 0) "Stellar 7dp amount cannot be represented exactly as CCTP 6dp"
  ok (amount7 / 10)

-- `n` copies in front of a list.
unfoldable pub padded : ℕ → ℕ → List ℕ → List ℕ
padded zero b bytes = bytes
padded (suc n) b bytes = b ∷ padded n b bytes

unfoldable pub hook_bytes : List ℕ → List ℕ
unfolding be_bytes_from padded
hook_bytes recipient = padded 28 0 (be_bytes_from 4 (length recipient) recipient)

module _ (sk : StrKey) where
  unfoldable pub stellar_contract_to_bytes32 : String → Result String
  stellar_contract_to_bytes32 contract_id = do
    guard (sk.is_valid_contract contract_id) "Expected Stellar contract strkey"
    ok ("0x" ++ hex (sk.decode_contract contract_id))

  unfoldable pub validate_inbound_route : CctpInboundRoute → String → Result (Unit {0})
  validate_inbound_route route expected_forwarder = do
    guard (nat_eq route.destination_domain stellar_domain) "wrong destination domain"
    guard (sk.is_valid_contract route.mint_recipient) "mintRecipient must be a Stellar C contract"
    guard (sk.is_valid_contract route.destination_caller)
        "destinationCaller must be a Stellar C contract"
    guard (route.mint_recipient == expected_forwarder) "mintRecipient must equal CctpForwarder"
    guard (route.destination_caller == expected_forwarder)
        "destinationCaller must equal CctpForwarder"
    guard (sk.is_valid_contract route.forward_recipient)
        "forwardRecipient must be the ShadeVault C contract"

  -- The hook's bytes: 24 zeros, four reserved ones, the length in four bytes, big end first, and the
  -- text, whose code points are its bytes, since a contract's text is ASCII.
  unfoldable pub encode_stellar_forward_hook : String → Result String
  unfolding hook_bytes
  encode_stellar_forward_hook forward_recipient = do
    guard (sk.is_valid_contract forward_recipient) "forwardRecipient must be a Stellar C contract"
    ok ("0x" ++ hex (hook_bytes (codes forward_recipient)))

pub record CctpAttestation : Type 0 where
  pub status : String
  pub message : String
  pub attestation : String

-- One round of the wait: what Circle answers, and the time that has passed since the start.
pub record Poll : Type 0 where
  pub answer : Result (Option CctpAttestation)
  pub elapsed : ℕ

unfoldable pub is_complete : CctpAttestation → Bool
is_complete att =
    att.status == "complete"
    && (not (att.attestation == "")
        && (not (att.attestation == "0x") && not (att.attestation == "PENDING")))

abbrev pub complete_of : Option CctpAttestation → Option CctpAttestation
complete_of none = none
complete_of (some att) = if is_complete att then some att else none

-- `for (;;)` over the rounds that are looked at.
unfoldable pub poll_attestation : ℕ → List Poll → Result CctpAttestation
unfolding is_complete
poll_attestation timeout [] = running
poll_attestation timeout (p ∷ polls) =
    let rest = poll_attestation timeout polls in
    p.answer >>= λ found. elim (complete_of found) [
      | some att ↦ ok att
      | none ↦ if ltb timeout p.elapsed then err "attestation timed out" else rest
    ]
