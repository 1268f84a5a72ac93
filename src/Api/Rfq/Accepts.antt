-- ===== src/Api/Rfq/Accepts.antt =====
-- Which quotes can be accepted, and how often.
use shade.Shared.{
  ℕ, String, ◌≡◌, refl, sym, ◌∙◌, inl, inr, true, false, ◌||◌, none, some, ◌==◌, eq_iff, Bool-cases,
  Option-cases,
}
use shade.Api.Vaults.{ok, error}
use shade.Api.Sql.{first, any_row, insert_new}
use shade.Api.Rfq.Tables.{
  QuoteRow, Tables, has_intent, has_quote, accepts, rfq_lifecycle, require_owned_intent,
}
use shade.Api.Rfq.Quotes.{AcceptBody, accept_refusal, insert_acceptance, accept_quote}

module _ (id_of : String → String → String → String) where
  -- A quote that is accepted can never be accepted again, by anyone and for any intent, and the attempt
  -- changes nothing.
  pub accept_quote-again :
      (user_id quote_id : String) (b : AcceptBody) (t : Tables)
      → any_row (accepts quote_id) t.acceptances ≡ true
      → (code : ℕ) × (accept_quote id_of (some user_id) quote_id (some b) t ≡ (error code, t))
  unfolding accept_quote accept_refusal rfq_lifecycle
  accept_quote-again user_id quote_id b t accepted =
      elim (Option-cases
        (require_owned_intent user_id (first (has_intent b.intent_hash) t.intents))) [
          | inr (code, e) ↦ (code, rw (e, accept_quote) refl)
          | inl owned ↦ elim (Option-cases (first (has_quote quote_id) t.quotes)) [
            | inl missing ↦ (404, rw (owned, missing, accept_quote) refl)
            | inr (q, found) ↦ elim (Bool-cases (q.intent_hash == b.intent_hash)) [
              | inl here ↦ (409, rw (owned, found, here, accepted, accept_quote) refl)
              | inr other ↦ (409, rw (owned, found, other, accept_quote) refl)
            ]
          ]
        ]

  -- The acceptance of a quote of the user's own intent, while the quote is not accepted.
  accept_quote-ok :
      (user_id quote_id : String) (b : AcceptBody) (t : Tables) (q : QuoteRow)
      → require_owned_intent user_id (first (has_intent b.intent_hash) t.intents) ≡ none
      → first (has_quote quote_id) t.quotes ≡ some q
      → q.intent_hash ≡ b.intent_hash
      → any_row (accepts quote_id) t.acceptances ≡ false
      → accept_quote id_of (some user_id) quote_id (some b) t ≡ (
        ok (id_of "accept" quote_id b.user_signature_hash),
        insert_acceptance id_of user_id quote_id b t,
      )
  unfolding accept_quote accept_refusal rfq_lifecycle
  accept_quote-ok user_id quote_id b t q owned found mine free =
      rw (owned, found, (eq_iff q.intent_hash b.intent_hash).1 mine, free, accept_quote) refl

  still_free :
      (user_id quote_id other : String) (b : AcceptBody) (t : Tables)
      → (quote_id == other) ≡ false
      → any_row (accepts other) t.acceptances ≡ false
      → any_row (accepts other) (insert_acceptance id_of user_id quote_id b t).acceptances ≡ false
  unfolding insert_acceptance insert_new any_row
  still_free user_id quote_id other b t differ free =
      let id = id_of "accept" quote_id b.user_signature_hash in
      elim (Bool-cases
        (any_row (λ r. r.acceptance_id == id || r.quote_id == quote_id) t.acceptances)) [
          | inl conflicts ↦ rw (conflicts, insert_acceptance) free
          | inr new ↦ rw (new, differ, insert_acceptance) free
        ]

  -- Two different quotes of one intent, neither of them accepted, can be accepted one after the other by
  -- the intent's owner.
  pub accept_quote-second :
      (user_id quote_id other : String) (b c : AcceptBody) (t : Tables) (q r : QuoteRow)
      → require_owned_intent user_id (first (has_intent b.intent_hash) t.intents) ≡ none
      → c.intent_hash ≡ b.intent_hash
      → first (has_quote quote_id) t.quotes ≡ some q
      → q.intent_hash ≡ b.intent_hash
      → first (has_quote other) t.quotes ≡ some r
      → r.intent_hash ≡ b.intent_hash
      → (quote_id == other) ≡ false
      → any_row (accepts quote_id) t.acceptances ≡ false
      → any_row (accepts other) t.acceptances ≡ false
      → ((accept_quote id_of (some user_id) quote_id (some b) t).0
          ≡ ok (id_of "accept" quote_id b.user_signature_hash))
        × ((accept_quote id_of
              (some user_id)
              other
              (some c)
              (accept_quote id_of (some user_id) quote_id (some b) t).1).0
            ≡ ok (id_of "accept" other c.user_signature_hash))
  unfolding insert_acceptance
  accept_quote-second user_id quote_id other b c t q r owned same found mine found' mine' differ
        free free' =
      let once = accept_quote-ok user_id quote_id b t q owned found mine free in
      let t' = insert_acceptance id_of user_id quote_id b t in
      let twice =
        accept_quote-ok user_id other c t' r (rw same owned) found' (mine' ∙ sym same)
          (still_free user_id quote_id other b t differ free') in
      rw once (refl, rw twice refl)
