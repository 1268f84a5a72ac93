-- ===== src/Api/Rfq/Keeps.antt =====
-- What each request but a settlement keeps: quotes, acceptances and executed fills stay, and the
-- settlements are as they were.
pub mod Intents
pub mod Quotes
pub mod Fills
use shade.Shared.{
  String, ◌≡◌, refl, ◌∙◌, subst, inl, inr, Bool, true, ◌&&◌, ◌||◌, ◌∷◌, Option, none, some, arith,
  ◌==◌, Bool-cases, Option-cases,
}
use shade.Api.Sql.{first, any_row, any_row-cons, any_row-insert_new, any_row-update_rows}
use shade.Api.Rfq.Tables.{
  IntentBody, QuoteRow, AcceptanceRow, FillRow, Tables, has_quote, has_intent, rfq_lifecycle,
  require_owned_intent, executed, execute_fill,
}
use shade.Api.Rfq.Owned.{Owned, same_owners, set_session-Owned, insert_intent-Owned}
use shade.Api.Rfq.Intents.{
  Committee, failed, refused, session, has_mpc_fields, or_text, with_session, new_intent, route_mpc,
  link_session, insert_intent, create_intent,
}
use shade.Api.Rfq.Quotes.{
  QuoteBody, Solver, failed, refused, answered, new_quote, insert_quote, store_answer, ask_solver,
  request_quotes, post_quote, AcceptBody, accept_refusal, insert_acceptance, accept_quote,
  lock_quote,
}
use shade.Api.Rfq.Settle.{FillBody, new_fill, create_fill, execute}

abbrev pub executed_for : String → FillRow → Bool
executed_for quote_id f = f.quote_id == quote_id && f.state == "EXECUTED"

pub record Keeps (t t' : Tables) : Type 0 where
  pub quotes : (p : QuoteRow → Bool) → any_row p t.quotes ≡ true → any_row p t'.quotes ≡ true
  pub acceptances :
      (p : AcceptanceRow → Bool) → any_row p t.acceptances ≡ true → any_row p t'.acceptances ≡ true
  pub fills :
      (quote_id : String)
      → any_row (executed_for quote_id) t.fills ≡ true
      → any_row (executed_for quote_id) t'.fills ≡ true
  pub settlements : t'.settlements ≡ t.settlements
  pub intents : Owned t.intents t'.intents

-- Whatever changes none of the four tables keeps them.
pub same_tables :
    (t t' : Tables)
    → t'.quotes ≡ t.quotes
    → t'.acceptances ≡ t.acceptances
    → t'.fills ≡ t.fills
    → t'.settlements ≡ t.settlements
    → Owned t.intents t'.intents
    → Keeps t t'
same_tables t t' q a f s o = record {
  quotes = λ p h. rw q h;
  acceptances = λ p h. rw a h;
  fills = λ quote_id h. rw f h;
  settlements = s;
  intents = o;
}

pub unchanged : (t : Tables) → Keeps t t
unchanged t = same_tables t t refl refl refl refl (same_owners _)

pub Keeps-trans : (t u v : Tables) → Keeps t u → Keeps u v → Keeps t v
Keeps-trans t u v before then = record {
  quotes = λ p h. then.quotes p (before.quotes p h);
  acceptances = λ p h. then.acceptances p (before.acceptances p h);
  fills = λ quote_id h. then.fills quote_id (before.fills quote_id h);
  settlements = then.settlements ∙ before.settlements;
  intents = λ h i e.
      let (j, f, owner, body) = before.intents h i e in
      let (k, g, owner', body') = then.intents h j f in (k, g, owner' ∙ owner, body' ∙ body);
}
