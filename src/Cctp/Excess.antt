-- ===== src/Cctp/Excess.antt =====
-- The amount that is registered after a user's burn is what the pool's balance seems to have grown by,
-- whoever made it grow, and whatever the user burned.
use shade.Shared.{ℕ, true, [], ◌∷◌, Option, none, some}
use shade.Shared.Results.{ok}
use shade.Cctp.{CctpAttestation}
use shade.Cctp.Chain.{mint_and_forward, Log, Services}
use shade.Cctp.Inbound.{EnvMap}

abbrev pub is_minted : Log → Option ℕ → Option ℕ
is_minted [] o = none
is_minted (mint_and_forward m a ∷ l) o = o
is_minted (r ∷ l) o = is_minted l o

abbrev pub attested : CctpAttestation
attested = record { status = "complete"; message = "0x11"; attestation = "0x22" }

-- The pool's balance cannot be read before the mint, and is `held` from then on.
abbrev pub unread_before : ℕ → Services
unread_before held = record {
  amount = λ r l. ok (is_minted l (some held));
  invoke = λ r l. ok (record { tx_hash = "h"; return_value = "0" });
  polls = λ tx l. record { answer = ok (some attested); elapsed = 0 } ∷ [];
  build_proof = λ b l. ok (record { proof_hex = "p"; public_hex = "q"; locally_verified = true });
  keccak = λ m. m;
  timeout = 0;
}

abbrev pub configured : EnvMap
configured = record {
  private_key = none;
  stellar_cctp_forwarder_contract = none;
  shade_vault_contract = none;
  usdc_sac_contract = some "C1";
  stellar_relayer_secret = some "S1";
  arb_sepolia_usdc_address = none;
  commitment_tree_contract = none;
}
