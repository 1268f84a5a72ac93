-- ===== src/Cctp/UserBurn.antt =====
-- What `runPostUserBurnCctpInbound` registers on Stellar.
use shade.Shared.{◌<◌, String, true, some, ◌≡◌}
use shade.Shared.Texts.{strip_hex}
use shade.Cctp.{StrKey, CctpAttestation, is_complete}
use shade.Cctp.Chain.{Deposit, Services}
use shade.Cctp.Inbound.{EnvMap, PostUserBurnParams}
use shade.Cctp.Runs.{binding}
use shade.Cctp.Registered.{Proved}

module _ (sk : StrKey) (sv : Services) (env : EnvMap) where
  -- The deposit of a user's burn: of a positive amount for the pool, under the hash of a message that
  -- Circle has attested, with a proof for this burn that has verified.
  pub record UserDeposit (p : PostUserBurnParams) (d : Deposit) : Type 0 where
    pub att : CctpAttestation
    pub proof : String × String
    pub contract : d.contract ≡ p.pool
    pub positive : 0 < d.amount7
    pub commitment : d.commitment ≡ strip_hex p.commitment
    pub root : d.new_root ≡ some (strip_hex p.new_root)
    pub complete : is_complete att ≡ true
    pub nonce : d.cctp_nonce ≡ strip_hex (sv.keccak att.message)
    pub shown : d.proof ≡ some proof
    pub proved :
        Proved sv p.coin
          (binding sk sv env
            (sv.keccak att.message)
            p.burn_tx_hash
            d.asset
            p.pool
            p.amount6
            d.amount7
            p.payload_hash
            p.policy_id
            p.pool_id
            p.chain_id)
          proof
