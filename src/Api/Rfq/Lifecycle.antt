-- ===== src/Api/Rfq/Lifecycle.antt =====
-- The tables of an RFQ over any sequence of requests.
use shade.Shared.{ℕ, String, ◌≡◌, refl, sym, subst, List, [], Option, All}
use shade.Api.Rfq.Tables.{IntentBody, MpcIntentRow, ProofRow, Tables}
use shade.Api.Rfq.Intents.{Committee, create_intent}
use shade.Api.Rfq.Quotes.{
  QuoteBody, Solver, request_quotes, post_quote, AcceptBody, accept_quote, lock_quote,
}
use shade.Api.Rfq.Settle.{
  FillBody, SettleBody, create_fill, owned_by, submitted, given, fill_exists, insert_settlement,
  record_settlement, refusal, settle,
}
use shade.Api.Rfq.Settle
use shade.Api.Rfq.Owned.{Owned, same_owners}
use shade.Api.Rfq.Backed.{Backed, Keeps-All, settle-Backed, settle-intents}
use shade.Api.Rfq.Keeps.{same_tables}
use shade.Api.Rfq.Keeps.Intents.{create_intent-Keeps}
use shade.Api.Rfq.Keeps.Quotes.{
  request_quotes-Keeps, post_quote-Keeps, accept_quote-Keeps, lock_quote-Keeps,
}
use shade.Api.Rfq.Keeps.Fills.{create_fill-Keeps, execute-Keeps}

-- The requests of users and solvers, and what the other services write: the prover to the jobs, the
-- relayer to the spent nullifiers, the committee to its intents, the auditor to its findings.
pub data Request : Type 0 where
  create : Option String → Option IntentBody → Option String → Request
  ask : Option String → String → Option String → Request
  quote : Option QuoteBody → Request
  accept : Option String → String → Option AcceptBody → Request
  lock : String → Option (String × String) → Request
  fill : Option FillBody → Request
  execute : String → Option String → Request
  finish : Option String → Option SettleBody → Request
  prove : List ProofRow → Request
  spend : List String → Request
  match : List MpcIntentRow → Request
  audit : ℕ → Request

-- What the ids, the solver and the committee are does not matter.
module _ (hash : IntentBody → String) (committee : String → IntentBody → Committee)
    (solver : Option (String → String → Solver)) (id_of : String → String → String → String)
    (fill_id_of : String → String → String) where
  unfoldable pub handle : Request → Tables → Tables
  unfolding create_intent request_quotes post_quote accept_quote lock_quote create_fill
      Settle.execute settle
  handle (create user body key) t = (create_intent hash committee user body key t).1
  handle (ask user intent_hash body) t = (request_quotes solver user intent_hash body t).1
  handle (quote body) t = (post_quote body t).1
  handle (accept user quote_id body) t = (accept_quote id_of user quote_id body t).1
  handle (lock quote_id body) t = (lock_quote id_of quote_id body t).1
  handle (fill body) t = (create_fill fill_id_of body t).1
  handle (execute fill_id body) t = (Settle.execute fill_id body t).1
  handle (finish user body) t = (settle id_of user body t).1
  handle (prove jobs) t = record t { proof_jobs = jobs }
  handle (spend nullifiers) t = record t { nullifier_spends = nullifiers }
  handle (match rows) t = record t { mpc_intents = rows }
  handle (audit findings) t = record t { critical_findings = findings }

  -- The tables that requests lead to, from tables without settlements.
  pub data Reachable : Tables → Type 0 where
    start : (t : Tables) → t.settlements ≡ [] → Reachable t
    after : (t : Tables) (r : Request) → Reachable t → Reachable (handle r t)

  handle-Backed :
      (r : Request) (t : Tables)
      → All (Backed t) t.settlements
      → All (Backed (handle r t)) (handle r t).settlements
  unfolding handle
  handle-Backed (create user body key) t =
      Keeps-All t _ (create_intent-Keeps hash committee user body key t)
  handle-Backed (ask user intent_hash body) t =
      Keeps-All t _ (request_quotes-Keeps solver user intent_hash body t)
  handle-Backed (quote body) t = Keeps-All t _ (post_quote-Keeps body t)
  handle-Backed (accept user quote_id body) t =
      Keeps-All t _ (accept_quote-Keeps id_of user quote_id body t)
  handle-Backed (lock quote_id body) t = Keeps-All t _ (lock_quote-Keeps id_of quote_id body t)
  handle-Backed (fill body) t = Keeps-All t _ (create_fill-Keeps fill_id_of body t)
  handle-Backed (execute fill_id body) t = Keeps-All t _ (execute-Keeps fill_id body t)
  handle-Backed (finish user body) t = settle-Backed id_of user body t
  handle-Backed (prove jobs) t = Keeps-All t _ (same_tables t _ refl refl refl refl (same_owners _))
  handle-Backed (spend nullifiers) t =
      Keeps-All t _ (same_tables t _ refl refl refl refl (same_owners _))
  handle-Backed (match rows) t = Keeps-All t _ (same_tables t _ refl refl refl refl (same_owners _))
  handle-Backed (audit findings) t =
      Keeps-All t _ (same_tables t _ refl refl refl refl (same_owners _))

  -- Over any sequence of requests, and of writes by the other services, from tables without settlements,
  -- every settlement has a quote for its intent that has been accepted, and an executed fill of it.
  pub Reachable-Backed : (t : Tables) → Reachable t → All (Backed t) t.settlements
  Reachable-Backed t (start _ none_yet) = subst (All (Backed t)) (sym none_yet) tt
  Reachable-Backed t (after before r reached) =
      handle-Backed r before (Reachable-Backed before reached)

  -- Every request, whoever makes it, and every write by another service leaves an intent that is there
  -- under its hash with the owner and the public commitment that it has.
  pub handle-Owned : (r : Request) (t : Tables) → Owned t.intents (handle r t).intents
  unfolding handle
  handle-Owned (create user body key) t =
      (create_intent-Keeps hash committee user body key t).intents
  handle-Owned (ask user intent_hash body) t =
      (request_quotes-Keeps solver user intent_hash body t).intents
  handle-Owned (quote body) t = (post_quote-Keeps body t).intents
  handle-Owned (accept user quote_id body) t =
      (accept_quote-Keeps id_of user quote_id body t).intents
  handle-Owned (lock quote_id body) t = (lock_quote-Keeps id_of quote_id body t).intents
  handle-Owned (fill body) t = (create_fill-Keeps fill_id_of body t).intents
  handle-Owned (execute fill_id body) t = (execute-Keeps fill_id body t).intents
  handle-Owned (finish user body) t =
      subst (Owned t.intents) (sym (settle-intents id_of user body t)) (same_owners t.intents)
  handle-Owned (prove jobs) t = same_owners t.intents
  handle-Owned (spend nullifiers) t = same_owners t.intents
  handle-Owned (match rows) t = same_owners t.intents
  handle-Owned (audit findings) t = same_owners t.intents
