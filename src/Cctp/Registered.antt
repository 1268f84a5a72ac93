-- ===== src/Cctp/Registered.antt =====
-- What a run registers on Stellar: one deposit at most, and which.
use shade.Shared.{
  ℕ, zero, suc, String, Bool, true, false, List, [], ◌∷◌, Option, none, some, ◌≡◌, refl, ◌∙◌, inl,
  inr, leb, Bool-cases,
}
use shade.Shared.Results.{Result, ok, err, running, guard}
use shade.Cctp.{CctpAttestation, is_complete, poll_attestation}
use shade.Cctp.Polling.{poll_attestation_complete}
use shade.Cctp.Chain.{
  DepositBinding, DepositProof, Deposit, Request, usdc_balance, allowance, approve, burn,
  attestation_of, sac_balance, mint_and_forward, prove, receive_deposit, read_root, Log, Invoked,
  Services, M, ◌>>=◌, lift, pure, ask_amount, invoke, ask_proof, wait_attestation,
}
use shade.Cctp.Inbound.{read_balance, wait_for_mint, mint, prove_deposit}

-- The deposits that were registered, the last one first.
abbrev pub registered : Log → List Deposit
registered [] = []
registered (receive_deposit d ∷ l) = d ∷ registered l
registered (usdc_balance ∷ l) = registered l
registered (allowance ∷ l) = registered l
registered (approve n ∷ l) = registered l
registered (burn b ∷ l) = registered l
registered (attestation_of tx ∷ l) = registered l
registered (sac_balance c ∷ l) = registered l
registered (mint_and_forward m a ∷ l) = registered l
registered (prove c b ∷ l) = registered l
registered (read_root c m ∷ l) = registered l

-- `Q` holds of the value, if there is one.
abbrev pub On : {A : Type 0} → (A → Type 0) → Result A → Type 0
On Q (ok a) = Q a
On Q (err e) = Unit {0}
On Q running = Unit {0}

-- The code registers nothing, and `Q` holds of its value.
abbrev pub Asks : {A : Type 0} → (A → Type 0) → M A → Type 0
Asks Q m = (l : Log) → (registered (m l).1 ≡ registered l) × On Q (m l).0

abbrev pub Anything : {A : Type 0} → A → Type 0
Anything a = Unit {0}

module _ {A B : Type 0} (Q : A → Type 0) (R : B → Type 0) where
  bound :
      (f : A → M B) (l l' : Log) (r : Result A)
      → (registered l' ≡ registered l) × On Q r
      → ((a : A) → Q a → Asks R (f a))
      → let x : Result B × Log = elim r [
        | ok a ↦ f a l'
        | err e ↦ (err e, l')
        | running ↦ (running, l')
      ] in
        (registered x.1 ≡ registered l) × On R x.0
  bound f l l' (ok a) h k = ((k a h.1 l').0 ∙ h.0, (k a h.1 l').1)
  bound f l l' (err e) h k = (h.0, tt)
  bound f l l' running h k = (h.0, tt)

  pub >>=-Asks :
      (m : M A) (f : A → M B) → Asks Q m → ((a : A) → Q a → Asks R (f a)) → Asks R (m >>= f)
  unfolding ◌>>=◌
  >>=-Asks m f h k l = bound f l (m l).1 (m l).0 (h l) k

pub pure-Asks : {A : Type 0} (Q : A → Type 0) (a : A) → Q a → Asks Q (pure a)
pure-Asks Q a h l = (refl, h)

On_of : {A : Type 0} {Q : A → Type 0} (r : Result A) → ((a : A) → r ≡ ok a → Q a) → On Q r
On_of (ok a) h = h a refl
On_of (err e) h = tt
On_of running h = tt

Anything-On : {A : Type 0} (r : Result A) → On Anything r
Anything-On (ok a) = tt
Anything-On (err e) = tt
Anything-On running = tt

pub lift-Asks : {A : Type 0} (r : Result A) → Asks Anything (lift r)
lift-Asks r l = (refl, Anything-On r)

pub guard-Asks : (b : Bool) (e : String) → Asks (λ _. b ≡ true) (lift (guard b e))
guard-Asks true e l = (refl, refl)
guard-Asks false e l = (refl, tt)

-- A request that registers nothing.
abbrev pub IsReading : Request → Type 0
IsReading r = (l : Log) → registered (r ∷ l) ≡ registered l

module _ (sv : Services) where
  pub ask_amount-Asks : (r : Request) → IsReading r → Asks Anything (ask_amount sv r)
  ask_amount-Asks r h l = (h l, Anything-On (sv.amount r l))

  pub invoke-Asks : (r : Request) → IsReading r → Asks Anything (invoke sv r)
  invoke-Asks r h l = (h l, Anything-On (sv.invoke r l))

  found-Asks :
      (c : String) (again : M ℕ) (found : Option ℕ)
      → Asks Anything again
      → Asks Anything (elim found as (λ _. M ℕ) [ none ↦ again | some b ↦ pure b ])
  found-Asks c again none h = h
  found-Asks c again (some b) h = pure-Asks Anything b tt

  pub read_balance-Asks : (n : ℕ) (c : String) → Asks Anything (read_balance sv n c)
  unfolding read_balance
  read_balance-Asks zero c = pure-Asks {A = ℕ} Anything 0 tt
  read_balance-Asks (suc n) c =
      >>=-Asks Anything Anything (ask_amount sv (sac_balance c)) _
        (ask_amount-Asks (sac_balance c) (λ l. refl))
        (λ found _. found-Asks c (read_balance sv n c) found (read_balance-Asks n c))

  pub wait_for_mint-Asks : (n : ℕ) (c : String) (b a : ℕ) → Asks Anything (wait_for_mint sv n c b a)
  unfolding wait_for_mint
  wait_for_mint-Asks zero c b a = pure-Asks Anything a tt
  wait_for_mint-Asks (suc n) c b a = elim (Bool-cases (leb a b)) [
    | inl low ↦ rw low (
        >>=-Asks Anything Anything (read_balance sv 5 c) (wait_for_mint sv n c b)
          (read_balance-Asks 5 c) (λ next _. wait_for_mint-Asks n c b next))
    | inr grown ↦ rw grown (pure-Asks Anything a tt)
  ]

  pub mint-Asks : (f c : String) (att : CctpAttestation) → Asks Anything (mint sv f c att)
  unfolding mint
  mint-Asks f c att =
      >>=-Asks Anything Anything (read_balance sv 5 c) _ (read_balance-Asks 5 c) λ before _.
        >>=-Asks Anything Anything (invoke sv _) _ (invoke-Asks _ (λ l. refl)) λ minted _.
          >>=-Asks Anything Anything (read_balance sv 5 c) _ (read_balance-Asks 5 c) λ first _.
            >>=-Asks Anything Anything (wait_for_mint sv 10 c before first) _
              (wait_for_mint-Asks 10 c before first)
              λ after _. pure-Asks {A = ℕ × ℕ × Invoked} Anything (before, after, minted) tt

  -- The prover has made this proof for this note and binding, and it verified.
  pub record Proved (coin : Option String) (b : DepositBinding) (p : String × String) : Type 0 where
    pub opening : String
    pub log : Log
    pub result : DepositProof
    pub supplied : coin ≡ some opening
    pub built : sv.build_proof b log ≡ ok result
    pub verified : result.locally_verified ≡ true
    pub hex : p ≡ (result.proof_hex, result.public_hex)

  ask_proof-Asks :
      (coin : String) (b : DepositBinding)
      → Asks (λ dep. (l : Log) × (sv.build_proof b l ≡ ok dep)) (ask_proof sv coin b)
  ask_proof-Asks coin b l = (refl, On_of (sv.build_proof b l) (λ dep e. (l, e)))

  pub prove_deposit-Asks :
      (coin : Option String) (missing : String) (b : DepositBinding)
      → Asks (Proved coin b) (prove_deposit sv coin missing b)
  unfolding prove_deposit
  prove_deposit-Asks none missing b = λ l. (refl, tt)
  prove_deposit-Asks (some coin) missing b =
      >>=-Asks _ (Proved (some coin) b) (ask_proof sv coin b) _ (ask_proof-Asks coin b) λ dep built.
        >>=-Asks _ (Proved (some coin) b) (lift (guard dep.locally_verified _)) _ (guard-Asks _ _)
          λ _ verified.
            pure-Asks (Proved (some coin) b) (dep.proof_hex, dep.public_hex)
              (record {
                opening = coin;
                log = built.0;
                result = dep;
                supplied = refl;
                built = built.1;
                verified = verified;
                hex = refl;
              })

  pub wait_attestation-Asks :
      (tx : String) → Asks (λ att. is_complete att ≡ true) (wait_attestation sv tx)
  wait_attestation-Asks tx l =
      (refl, On_of (poll_attestation sv.timeout (sv.polls tx l)) (poll_attestation_complete _ _))
