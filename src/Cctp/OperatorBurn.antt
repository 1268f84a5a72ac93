-- ===== src/Cctp/OperatorBurn.antt =====
-- What `runCctpInbound` registers on Stellar.
use shade.Shared.{ℕ, ◌<◌, ◌≤◌, String, true, Option, none, some, ◌≡◌, ◌≢◌}
use shade.Shared.Texts.{strip_hex}
use shade.Cctp.{StrKey, CctpAttestation, is_complete, usdc6_to_stellar7}
use shade.Cctp.Chain.{Deposit, Services}
use shade.Cctp.Inbound.{EnvMap, InboundParams}
use shade.Cctp.Runs.{binding}
use shade.Cctp.Registered.{Proved}

module _ (sk : StrKey) (sv : Services) (env : EnvMap) where
  -- Without a shielded pool neither a proof nor a root is sent; with one, a proof that has verified for
  -- the amount and the pool, and the root that was given.
  abbrev pub PoolArgs :
      Option String
      → InboundParams
      → String
      → String
      → String
      → ℕ
      → Option (String × String) × Option String
      → Type 0
  PoolArgs none p tx nonce sac amount7 args = args ≡ (none, none)
  PoolArgs (some pool) p tx nonce sac amount7 args =
      pool ≢ ""
      → (proof : String × String) × (root : String) × (p.new_root ≡ some root)
        × (args ≡ (some proof, some (strip_hex root)))
        × Proved sv p.coin
            (binding sk sv env nonce tx sac pool p.amount6 amount7 p.payload_hash p.policy_id
              p.pool_id p.chain_id)
            proof

  -- The deposit of the operator's burn: of no more than was burned, and for a shielded pool with a root
  -- and a proof for this burn that has verified.
  pub record OperatorDeposit (p : InboundParams) (d : Deposit) : Type 0 where
    pub att : CctpAttestation
    pub tx : String
    pub positive : 0 < d.amount7
    pub bounded : d.amount7 ≤ usdc6_to_stellar7 p.amount6
    pub commitment : d.commitment ≡ strip_hex p.commitment
    pub complete : is_complete att ≡ true
    pub nonce : d.cctp_nonce ≡ strip_hex (sv.keccak att.message)
    pub proved :
        PoolArgs p.target_contract p tx
          (sv.keccak att.message)
          d.asset
          d.amount7
          (d.proof, d.new_root)
