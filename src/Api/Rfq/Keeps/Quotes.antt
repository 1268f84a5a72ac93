-- ===== src/Api/Rfq/Keeps/Quotes.antt =====
-- The routes of quotes keep what `Keeps` names.
use shade.Shared.{
  String, ◌≡◌, refl, subst, inl, inr, ◌||◌, ◌∷◌, Option, none, some, arith, ◌==◌, Bool-cases,
  Option-cases,
}
use shade.Api.Sql.{first, any_row, any_row-cons, any_row-insert_new}
use shade.Api.Rfq.Tables.{Tables, has_quote, has_intent, rfq_lifecycle, require_owned_intent}
use shade.Api.Rfq.Owned.{same_owners}
use shade.Api.Rfq.Intents.{failed, refused}
use shade.Api.Rfq.Quotes.{
  QuoteBody, Solver, failed, refused, answered, new_quote, insert_quote, store_answer, ask_solver,
  request_quotes, post_quote, AcceptBody, accept_refusal, insert_acceptance, accept_quote,
  lock_quote,
}
use shade.Api.Rfq.Keeps.{Keeps, same_tables, unchanged, Keeps-trans}

insert_quote-Keeps :
    (intent_hash : String) (q : QuoteBody) (t t' : Tables)
    → insert_quote intent_hash q t ≡ some t'
    → Keeps t t'
unfolding insert_quote any_row
insert_quote-Keeps intent_hash q t t' e =
    elim (Bool-cases
      (any_row (λ r. r.quote_id == q.quote_id || r.quote_hash == q.quote_hash) t.quotes)) [
        | inl found ↦ let same : t ≡ t' = ground arith in subst (Keeps t) same (unchanged t)
        | inr new ↦ elim (Bool-cases (any_row (has_intent intent_hash) t.intents)) [
          | inr missing ↦ absurd (cc (rw (new, missing, insert_quote) at e))
          | inl here ↦
              let added = record t { quotes = new_quote intent_hash q ∷ t.quotes } in
              let comes : some added ≡ some t' = rw (new, here, insert_quote) at e in
              let same : added ≡ t' = ground arith in
              subst (Keeps t) same (record {
                quotes = λ p h. any_row-cons p (new_quote intent_hash q) t.quotes h;
                acceptances = λ p h. h;
                fills = λ quote_id h. h;
                settlements = refl;
                intents = same_owners t.intents;
              })
        ]
      ]

store_answer-Keeps :
    (intent_hash : String) (answer : Solver) (t : Tables)
    → Keeps t (store_answer intent_hash answer t).1
unfolding store_answer
store_answer-Keeps intent_hash failed t = unchanged t
store_answer-Keeps intent_hash refused t = unchanged t
store_answer-Keeps intent_hash (answered q) t = elim (Option-cases (insert_quote intent_hash q t)) [
  | inl e ↦ rw (e, store_answer) (unchanged t)
  | inr (t', e) ↦ rw (e, store_answer) (insert_quote-Keeps intent_hash q t t' e)
]

ask_solver-Keeps :
    (solver : Option (String → String → Solver)) (intent_hash : String) (body : Option String)
    (t : Tables)
    → Keeps t (ask_solver solver intent_hash body t).1
unfolding ask_solver
ask_solver-Keeps solver intent_hash none t = unchanged t
ask_solver-Keeps none intent_hash (some amount) t = unchanged t
ask_solver-Keeps (some ask) intent_hash (some amount) t =
    store_answer-Keeps intent_hash (ask intent_hash amount) t

pub request_quotes-Keeps :
    (solver : Option (String → String → Solver)) (user : Option String) (intent_hash : String)
    (body : Option String) (t : Tables)
    → Keeps t (request_quotes solver user intent_hash body t).1
unfolding request_quotes
request_quotes-Keeps solver none intent_hash body t = unchanged t
request_quotes-Keeps solver (some u) intent_hash body t =
    elim (Option-cases (require_owned_intent u (first (has_intent intent_hash) t.intents))) [
      | inl owned ↦ rw (owned, request_quotes) (ask_solver-Keeps solver intent_hash body t)
      | inr (code, e) ↦ rw (e, request_quotes) (unchanged t)
    ]

pub post_quote-Keeps : (body : Option QuoteBody) (t : Tables) → Keeps t (post_quote body t).1
unfolding post_quote
post_quote-Keeps none t = unchanged t
post_quote-Keeps (some q) t = elim (Option-cases (insert_quote q.intent_hash q t)) [
  | inl e ↦ rw (e, post_quote) (unchanged t)
  | inr (t', e) ↦
      rw (e, post_quote)
        (Keeps-trans t t' _ (insert_quote-Keeps q.intent_hash q t t' e)
          (same_tables _ _ refl refl refl refl (same_owners _)))
]

module _ (id_of : String → String → String → String) where
  insert_acceptance-Keeps :
      (user_id quote_id : String) (b : AcceptBody) (t : Tables)
      → Keeps t (insert_acceptance id_of user_id quote_id b t)
  unfolding insert_acceptance
  insert_acceptance-Keeps user_id quote_id b t = record {
    quotes = λ p h. h;
    acceptances = λ p h. any_row-insert_new p _ _ t.acceptances h;
    fills = λ q h. h;
    settlements = refl;
    intents = same_owners t.intents;
  }

  pub accept_quote-Keeps :
      (user : Option String) (quote_id : String) (body : Option AcceptBody) (t : Tables)
      → Keeps t (accept_quote id_of user quote_id body t).1
  unfolding accept_quote
  accept_quote-Keeps none quote_id body t = unchanged t
  accept_quote-Keeps (some u) quote_id none t = unchanged t
  accept_quote-Keeps (some u) quote_id (some b) t =
      elim (Option-cases (require_owned_intent u (first (has_intent b.intent_hash) t.intents))) [
        | inr (code, e) ↦ rw (e, accept_quote) (unchanged t)
        | inl owned ↦
            elim (Option-cases
              (accept_refusal b.intent_hash (rfq_lifecycle b.intent_hash quote_id t))) [
                | inr (code, e) ↦ rw (owned, e, accept_quote) (unchanged t)
                | inl free ↦ rw (owned, free, accept_quote) (insert_acceptance-Keeps u quote_id b t)
              ]
      ]

  pub lock_quote-Keeps :
      (quote_id : String) (body : Option (String × String)) (t : Tables)
      → Keeps t (lock_quote id_of quote_id body t).1
  unfolding lock_quote
  lock_quote-Keeps quote_id none t = unchanged t
  lock_quote-Keeps quote_id (some (solver_id, lock_hash)) t =
      elim (Bool-cases (any_row (λ r. r.lock_id == id_of "lock" quote_id lock_hash) t.locks)) [
        | inl found ↦ rw (found, lock_quote) (same_tables _ _ refl refl refl refl (same_owners _))
        | inr new ↦ elim (Bool-cases (any_row (has_quote quote_id) t.quotes)) [
          | inl here ↦
              rw (new, here, lock_quote) (same_tables _ _ refl refl refl refl (same_owners _))
          | inr missing ↦ rw (new, missing, lock_quote) (unchanged t)
        ]
      ]
