-- ===== src/Api/Recovery.antt =====
-- packages/note-vault/src/index.ts: when the wrappers of a vault's key suffice to recover it.
use shade.Shared.{
  ℕ, ◌≤◌, String, ◌≡◌, inl, inr, Bool, true, false, not, ◌&&◌, ◌||◌, List, [], ◌∷◌, arith, ltb, leb,
  nat_eq, length, ◌==◌, Bool-cases, if◌then◌else◌,
}

-- `wrapper_type` is the source's `type`, a reserved word of no use here.
pub record VaultWrapper : Type 0 where
  pub id : String
  pub wrapper_type : String
  pub status : String
  pub diagnostic_only : Bool

pub record PolicyOptions : Type 0 where
  pub mainnet : Bool
  pub min : ℕ
  pub allow_evm_only : Bool

unfoldable pub keep : (VaultWrapper → Bool) → List VaultWrapper → List VaultWrapper
keep test [] = []
keep test (w ∷ ws) = let rest = keep test ws in if test w then w ∷ rest else rest

unfoldable pub any : (VaultWrapper → Bool) → List VaultWrapper → Bool
any test [] = false
any test (w ∷ ws) = test w || any test ws

abbrev pub is_active : VaultWrapper → Bool
is_active w = w.status == "active"

abbrev pub is_non_evm : VaultWrapper → Bool
is_non_evm w = not (w.wrapper_type == "evm_signature") && not w.diagnostic_only

abbrev pub is_strong : VaultWrapper → Bool
is_strong w = w.wrapper_type == "passkey_prf" || w.wrapper_type == "stellar_ed25519_signature"

unfoldable pub evaluate_recovery_policy : List VaultWrapper → PolicyOptions → String
unfolding keep any
evaluate_recovery_policy wrappers opts =
    let active = keep is_active wrappers in
    let non_evm = length (keep is_non_evm active) in
    let strong = any is_strong active in
    if not opts.allow_evm_only && nat_eq non_evm 0
    then "insufficient"
    else if ltb non_evm opts.min
    then "insufficient"
    else if opts.mainnet
    then if leb 2 non_evm && strong then "strong" else "insufficient"
    else if strong && leb 2 non_evm
    then "strong"
    else "sufficient"

-- A recovery policy with which a vault may take deposits.
abbrev pub is_enough : String → Bool
is_enough policy = policy == "sufficient" || policy == "strong"

-- The answer on the numbers that decide it.
abbrev graded : Bool → Bool → ℕ → ℕ → Bool → String
graded allow mainnet min non_evm strong =
    if not allow && nat_eq non_evm 0
    then "insufficient"
    else if ltb non_evm min
    then "insufficient"
    else if mainnet
    then if leb 2 non_evm && strong then "strong" else "insufficient"
    else if strong && leb 2 non_evm
    then "strong"
    else "sufficient"

graded-enough :
    (allow mainnet : Bool) (min n : ℕ) (strong : Bool)
    → is_enough (graded allow mainnet min n strong) ≡ true
    → (min ≤ n) × (allow ≡ false → 1 ≤ n) × (mainnet ≡ true → (2 ≤ n) × (strong ≡ true))
graded-enough allow mainnet min n strong e = elim (Bool-cases (not allow && nat_eq n 0)) [
  | inl alone ↦ absurd (cc (rw alone at e))
  | inr others ↦ elim (Bool-cases (ltb n min)) [
    | inl few ↦ absurd (cc (rw (others, few) at e))
    | inr many ↦ (
      ground arith,
      λ off. ground arith,
      λ on. elim (Bool-cases (leb 2 n && strong)) [
        | inl two ↦ (ground arith, ground arith)
        | inr one ↦ absurd (cc (rw (others, many, on, one) at e))
      ],
    )
  ]
]

-- A policy that suffices has `min` active wrappers that are no EVM signatures, one at least unless these
-- are allowed alone; on the main network it has two of them and an active strong wrapper.
pub evaluate_recovery_policy-enough :
    (wrappers : List VaultWrapper) (opts : PolicyOptions)
    → is_enough (evaluate_recovery_policy wrappers opts) ≡ true
    → let non_evm = length (keep is_non_evm (keep is_active wrappers)) in
      (opts.min ≤ non_evm)
      × (opts.allow_evm_only ≡ false → 1 ≤ non_evm)
      × (opts.mainnet ≡ true → (2 ≤ non_evm) × (any is_strong (keep is_active wrappers) ≡ true))
unfolding evaluate_recovery_policy
evaluate_recovery_policy-enough wrappers opts e =
    graded-enough opts.allow_evm_only opts.mainnet opts.min
      (length (keep is_non_evm (keep is_active wrappers))) (any is_strong (keep is_active wrappers))
      e
