-- ===== src/Api/Rfq/Allows.antt =====
-- What the guards of a settlement let through.
use shade.Shared.{
  ℕ, String, ◌≡◌, refl, inl, inr, true, false, List, ◌∷◌, Option, none, some, arith, eq_iff,
  Bool-cases,
}
use shade.Api.Sql.{first, any_row}
use shade.Api.Rfq.Intents.{truthy}
use shade.Api.Rfq.Tables.{
  IntentRow, QuoteRow, FillRow, ProofRow, Tables, has_intent, has_quote, accepts, fills_quote,
  has_proof, rfq_lifecycle, is_nullifier_spent, may_act,
}
use shade.Api.Rfq.Settle.{
  SettleBody, check_intent, check_quote, check_fill, check_proof, mpc_matched, check_mpc,
  check_nullifier, first_error, refusal,
}

first_error-cons :
    (check : Option ℕ) (checks : List (Option ℕ))
    → first_error (check ∷ checks) ≡ none
    → (check ≡ none) × (first_error checks ≡ none)
unfolding first_error
first_error-cons none checks h = (refl, h)
first_error-cons (some code) checks h = absurd (cc h)

-- The intent is there, and it has no owner or the user is the owner; a session of the committee that it
-- has been handed to has matched it.
pub record IntentAllows (user_id : String) (b : SettleBody) (t : Tables) : Type 0 where
  pub row : IntentRow
  pub found : first (has_intent b.intent_hash) t.intents ≡ some row
  pub allowed : may_act user_id row.user_id ≡ true
  pub matched : truthy row.mpc_session_id ≡ true → mpc_matched b.intent_hash t ≡ true

-- The quote is one for the intent, and accepted.
pub record QuoteAllows (b : SettleBody) (t : Tables) : Type 0 where
  pub row : QuoteRow
  pub found : first (has_quote b.quote_id) t.quotes ≡ some row
  pub of_intent : row.intent_hash ≡ b.intent_hash
  pub accepted : any_row (accepts b.quote_id) t.acceptances ≡ true

-- The newest fill of the quote is executed.
pub record FillAllows (b : SettleBody) (t : Tables) : Type 0 where
  pub row : FillRow
  pub found : first (fills_quote b.quote_id) t.fills ≡ some row
  pub executed : row.state ≡ "EXECUTED"

pub record ProofAllows (b : SettleBody) (t : Tables) : Type 0 where
  pub row : ProofRow
  pub found : first (has_proof b.proof_job_id) t.proof_jobs ≡ some row
  pub ready : row.status ≡ "ready"

pub record Allows (user_id : String) (b : SettleBody) (t : Tables) : Type 0 where
  pub intent : IntentAllows user_id b t
  pub quote : QuoteAllows b t
  pub fill : FillAllows b t
  pub proof : ProofAllows b t
  pub unspent : is_nullifier_spent b.nullifier t ≡ false

module _ (user_id : String) (b : SettleBody) (t : Tables) where
  intent_allows :
      (o : Option IntentRow)
      → first (has_intent b.intent_hash) t.intents ≡ o
      → check_intent user_id (record (rfq_lifecycle b.intent_hash b.quote_id t) { intent = o })
        ≡ none
      → check_mpc b.intent_hash o t ≡ none
      → IntentAllows user_id b t
  intent_allows none found h m = absurd (cc h)
  intent_allows (some i) found h m = record {
    row = i;
    found = found;
    allowed = ground arith;
    matched = λ session. ground arith;
  }

  quote_allows :
      (o : Option QuoteRow)
      → first (has_quote b.quote_id) t.quotes ≡ o
      → check_quote b.intent_hash (record (rfq_lifecycle b.intent_hash b.quote_id t) { quote = o })
        ≡ none
      → QuoteAllows b t
  unfolding rfq_lifecycle
  quote_allows none found h = absurd (cc h)
  quote_allows (some q) found h = record {
    row = q;
    found = found;
    of_intent = ground (arith, eq_iff q.intent_hash b.intent_hash);
    accepted = ground arith;
  }

  fill_allows :
      (o : Option FillRow)
      → first (fills_quote b.quote_id) t.fills ≡ o
      → check_fill b.fill_receipt_hash
          (record (rfq_lifecycle b.intent_hash b.quote_id t) { fill = o })
        ≡ none
      → FillAllows b t
  fill_allows none found h = absurd (cc h)
  fill_allows (some f) found h = record {
    row = f;
    found = found;
    executed = ground (arith, eq_iff f.state "EXECUTED");
  }

  proof_allows :
      (o : Option ProofRow)
      → first (has_proof b.proof_job_id) t.proof_jobs ≡ o
      → check_proof o ≡ none
      → ProofAllows b t
  proof_allows none found h = absurd (cc h)
  proof_allows (some p) found h = record {
    row = p;
    found = found;
    ready = ground (arith, eq_iff p.status "ready");
  }

  nullifier_unspent :
      check_nullifier b.nullifier t ≡ none → is_nullifier_spent b.nullifier t ≡ false
  nullifier_unspent h = elim (Bool-cases (is_nullifier_spent b.nullifier t)) [
    | inl spent ↦ absurd (cc (rw spent at h))
    | inr unspent ↦ unspent
  ]

  pub refusal-Allows : refusal user_id b t ≡ none → Allows user_id b t
  unfolding refusal rfq_lifecycle
  refusal-Allows h =
      let (intent, h1) = first_error-cons _ _ h in
      let (quote, h2) = first_error-cons _ _ h1 in
      let (fill, h3) = first_error-cons _ _ h2 in
      let (proof, h4) = first_error-cons _ _ h3 in
      let (unspent, h5) = first_error-cons _ _ h4 in
      let (mpc, _) = first_error-cons _ _ h5 in
      record {
        intent = intent_allows _ refl intent mpc;
        quote = quote_allows _ refl quote;
        fill = fill_allows _ refl fill;
        proof = proof_allows _ refl proof;
        unspent = nullifier_unspent unspent;
      }
