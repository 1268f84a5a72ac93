-- ===== src/Api/Rfq/Quotes.antt =====
-- apps/api/src/routes.ts: the routes of quotes, their acceptance and the lock on a solver's inventory.
use shade.Shared.{ℕ, String, not, ◌||◌, ◌∷◌, Option, none, some, ◌==◌, if◌then◌else◌}
use shade.Api.Vaults.{Reply, ok, error}
use shade.Api.Sql.{first, any_row, insert_new}
use shade.Api.Rfq.Tables.{
  QuoteRow, Tables, Lifecycle, transition, has_intent, has_quote, rfq_lifecycle,
  require_owned_intent,
}

-- A signed quote: what a solver answers to a request, or the body it posts, whose quote_hash is then
-- the hashJson of that body.
pub record QuoteBody : Type 0 where
  pub quote_id : String
  pub intent_hash : String
  pub quote_hash : String
  pub solver_id : String
  pub quote_signature : String
  pub valid_until_ledger : ℕ

abbrev pub new_quote : String → QuoteBody → QuoteRow
new_quote intent_hash q = record {
  quote_id = q.quote_id;
  intent_hash = intent_hash;
  quote_hash = q.quote_hash;
  solver_id = q.solver_id;
  quote_signature = q.quote_signature;
  valid_until_ledger = q.valid_until_ledger;
  state = "QUOTE_RECEIVED";
}

-- A row that a key of the table keeps out, or one whose intent is there; the insertion of any other one
-- throws.
unfoldable pub insert_quote : String → QuoteBody → Tables → Option Tables
unfolding insert_new any_row
insert_quote intent_hash q t =
    if any_row (λ r. r.quote_id == q.quote_id || r.quote_hash == q.quote_hash) t.quotes
    then some t
    else if any_row (has_intent intent_hash) t.intents
    then some (record t { quotes = new_quote intent_hash q ∷ t.quotes })
    else none

-- What the solver's service answers: nothing that can be read, an error code, or a quote.
pub data Solver : Type 0 where
  failed refused : Solver
  answered : QuoteBody → Solver

-- The reply is the id of the quote, or none where no solver is configured.
unfoldable pub store_answer : String → Solver → Tables → Reply (Option String) × Tables
unfolding insert_quote
store_answer intent_hash failed t = (error 500, t)
store_answer intent_hash refused t = (error 502, t)
store_answer intent_hash (answered q) t = elim (insert_quote intent_hash q t) [
  | none ↦ (error 500, t)
  | some t' ↦ (ok (some q.quote_id), t')
]

unfoldable pub ask_solver :
    Option (String → String → Solver)
    → String
    → Option String
    → Tables
    → Reply (Option String) × Tables
unfolding store_answer
ask_solver solver intent_hash none t = (error 400, t)
ask_solver none intent_hash (some amount) t = (ok none, t)
ask_solver (some ask) intent_hash (some amount) t =
    store_answer intent_hash (ask intent_hash amount) t

-- POST /v1/intents/:intent_hash/request-quotes; `solver` is the configured service, if there is one, and
-- `body` the amount.
unfoldable pub request_quotes :
    Option (String → String → Solver)
    → Option String
    → String
    → Option String
    → Tables
    → Reply (Option String) × Tables
unfolding ask_solver require_owned_intent first
request_quotes solver none intent_hash body t = (error 401, t)
request_quotes solver (some user_id) intent_hash body t =
    elim (require_owned_intent user_id (first (has_intent intent_hash) t.intents)) [
      | some code ↦ (error code, t)
      | none ↦ ask_solver solver intent_hash body t
    ]

-- POST /v1/solver/quotes; the reply is the id of the quote.
unfoldable pub post_quote : Option QuoteBody → Tables → Reply String × Tables
unfolding insert_quote
post_quote none t = (error 400, t)
post_quote (some q) t = elim (insert_quote q.intent_hash q t) [
  | none ↦ (error 500, t)
  | some t' ↦ (ok q.quote_id, transition "quote" q.quote_id "QUOTE_RECEIVED" none t')
]

pub record AcceptBody : Type 0 where
  pub intent_hash : String
  pub user_signature_hash : String

-- None where the quote may be accepted for the intent, or the code of the error.
unfoldable pub accept_refusal : String → Lifecycle → Option ℕ
accept_refusal intent_hash lc = elim lc.quote [
  | none ↦ some 404
  | some q ↦
      if not (q.intent_hash == intent_hash)
      then some 409
      else if lc.accepted
      then some 409
      else none
]

-- `id_of` is `deterministicId` on the quote and what it is accepted or locked with.
module _ (id_of : String → String → String → String) where
  unfoldable pub insert_acceptance : String → String → AcceptBody → Tables → Tables
  unfolding insert_new
  insert_acceptance user_id quote_id b t =
      let acceptance_id = id_of "accept" quote_id b.user_signature_hash in
      transition "quote" quote_id "QUOTE_ACCEPTED" none (record t {
        acceptances =
            insert_new (λ r. r.acceptance_id == acceptance_id || r.quote_id == quote_id)
              (record {
                acceptance_id = acceptance_id;
                quote_id = quote_id;
                intent_hash = b.intent_hash;
                user_signature_hash = b.user_signature_hash;
                user_id = user_id;
              })
              t.acceptances;
      })

  -- POST /v1/quotes/:quote_id/accept; the reply is the id of the acceptance.
  unfoldable pub accept_quote :
      Option String → String → Option AcceptBody → Tables → Reply String × Tables
  unfolding insert_acceptance accept_refusal require_owned_intent rfq_lifecycle first
  accept_quote none quote_id body t = (error 401, t)
  accept_quote (some user_id) quote_id none t = (error 400, t)
  accept_quote (some user_id) quote_id (some b) t =
      elim (require_owned_intent user_id (first (has_intent b.intent_hash) t.intents)) [
        | some code ↦ (error code, t)
        | none ↦ elim (accept_refusal b.intent_hash (rfq_lifecycle b.intent_hash quote_id t)) [
          | some code ↦ (error code, t)
          | none ↦ (
            ok (id_of "accept" quote_id b.user_signature_hash),
            insert_acceptance user_id quote_id b t,
          )
        ]
      ]

  -- POST /v1/quotes/:quote_id/lock; `body` is the solver and the hash of the lock.
  unfoldable pub lock_quote : String → Option (String × String) → Tables → Reply String × Tables
  unfolding any_row
  lock_quote quote_id none t = (error 400, t)
  lock_quote quote_id (some (solver_id, lock_hash)) t =
      let lock_id = id_of "lock" quote_id lock_hash in
      let locked = transition "quote" quote_id "SOLVER_INVENTORY_LOCKED" none in
      if any_row (λ r. r.lock_id == lock_id) t.locks
      then (ok lock_id, locked t)
      else if any_row (has_quote quote_id) t.quotes
      then (
        ok lock_id,
        locked (record t {
          locks =
              record {
                lock_id = lock_id;
                quote_id = quote_id;
                solver_id = solver_id;
                lock_hash = lock_hash;
                state = "SOLVER_INVENTORY_LOCKED";
              }
              ∷ t.locks;
        }),
      )
      else (error 500, t)
