-- ===== src/Api/Rfq/Keeps/Intents.antt =====
-- POST /v1/intents keeps quotes, acceptances, fills and settlements.
use shade.Shared.{String, refl, inl, inr, Option, none, some, ◌==◌, Bool-cases}
use shade.Api.Sql.{any_row}
use shade.Api.Rfq.Tables.{IntentBody, Tables, has_intent}
use shade.Api.Rfq.Owned.{set_session-Owned, insert_intent-Owned}
use shade.Api.Rfq.Intents.{
  Committee, failed, refused, session, has_mpc_fields, or_text, with_session, new_intent, route_mpc,
  link_session, insert_intent, create_intent,
}
use shade.Api.Rfq.Quotes.{failed, refused}
use shade.Api.Rfq.Keeps.{Keeps, same_tables, unchanged, Keeps-trans}

route_mpc-Keeps :
    (user_id h : String) (b : IntentBody) (answer : Committee) (t : Tables)
    → Keeps t (route_mpc user_id h b answer t).1
unfolding route_mpc link_session
route_mpc-Keeps user_id h b failed t = unchanged t
route_mpc-Keeps user_id h b refused t = unchanged t
route_mpc-Keeps user_id h b (session sid) t =
    elim (Bool-cases
      (any_row (λ k. k == or_text "unknown" sid) (with_session sid t.mpc_sessions))) [
        | inl here ↦
            rw (here, route_mpc)
              (same_tables t (link_session user_id h b sid t) refl refl refl refl
                (set_session-Owned (has_intent h) sid t.intents))
        | inr missing ↦ rw (missing, route_mpc) (unchanged t)
      ]

pub create_intent-Keeps :
    (hash : IntentBody → String) (committee : String → IntentBody → Committee)
    (user : Option String) (body : Option IntentBody) (key : Option String) (t : Tables)
    → Keeps t (create_intent hash committee user body key t).1
unfolding create_intent insert_intent
create_intent-Keeps hash committee none body key t = unchanged t
create_intent-Keeps hash committee (some u) none key t = unchanged t
create_intent-Keeps hash committee (some u) (some b) none t = unchanged t
create_intent-Keeps hash committee (some u) (some b) (some key) t =
    let created = insert_intent hash committee u b key t in
    let inserted : Keeps t created =
      same_tables t created refl refl refl refl
        (insert_intent-Owned (new_intent (hash b) key u b) key t.intents) in
    elim (Bool-cases (has_mpc_fields b)) [
      | inl mpc ↦
          rw (mpc, create_intent)
            (Keeps-trans t created _ inserted
              (route_mpc-Keeps u (hash b) b (committee (hash b) b) created))
      | inr solver ↦ rw (solver, create_intent) inserted
    ]
