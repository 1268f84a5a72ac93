-- ===== src/Cctp/OneDeposit.antt =====
-- A run of packages/cctp/src/cctp-inbound.ts registers one deposit at most on Stellar.
use shade.Shared.{String, ◌∷◌, ◌≡◌, ◌∙◌, ◌⊎◌, inl, inr, arith}
use shade.Shared.Results.{Result, ok, err, running}
use shade.Cctp.{StrKey}
use shade.Cctp.Chain.{Deposit, Log, Services, M, ◌>>=◌}
use shade.Cctp.Inbound.{EnvMap, InboundResult}
use shade.Cctp.Runs.{register}
use shade.Cctp.Registered.{registered, On, Asks}

-- At most one deposit is registered, and `Q` holds of it.
abbrev pub AtMostOne : (Deposit → Type 0) → Log → Log → Type 0
AtMostOne Q l l' =
    (registered l' ≡ registered l) ⊎ ((d : Deposit) × (registered l' ≡ d ∷ registered l) × Q d)

module _ (sk : StrKey) (sv : Services) (env : EnvMap) where
  register-registered :
      (d : Deposit) (r : InboundResult) (source : Result (String × String)) (l : Log)
      → registered (register sk sv env (d, r) source l).1 ≡ d ∷ registered l
  unfolding register ◌>>=◌
  register-registered d r source l = ground arith

  module _ (Q : Deposit → Type 0) (source : Result (String × String)) where
    registered-once :
        (l l' : Log) (r : Result (Deposit × InboundResult))
        → (registered l' ≡ registered l) × On (λ x. Q x.0) r
        → AtMostOne Q l
            (elim r as (λ _. Result InboundResult × Log) [
              | ok x ↦ register sk sv env x source l'
              | err e ↦ (err e, l')
              | running ↦ (running, l')
            ]).1
    registered-once l l' (ok (d, r)) h =
        inr (d, register-registered d r source l' ∙ (λ i. d ∷ h.0 i), h.1)
    registered-once l l' (err e) h = inl h.0
    registered-once l l' running h = inl h.0

    pub then-register :
        (m : M (Deposit × InboundResult))
        → Asks (λ x. Q x.0) m
        → (l : Log) → AtMostOne Q l ((m >>= λ x. register sk sv env x source) l).1
    unfolding ◌>>=◌
    then-register m h l = registered-once l (m l).1 (m l).0 (h l)
