-- ===== src/Api/Rfq/Backed.antt =====
-- What stands behind a settlement, and that it stays.
use shade.Shared.{
  String, ◌≡◌, refl, sym, subst, ap, inl, inr, Bool, true, ◌&&◌, List, [], ◌∷◌, Option, none, some,
  All, All-map, arith, ◌==◌, eq_iff, Bool-cases, Option-cases,
}
use shade.Api.Sql.{any_row, update_rows, first-any_row, first_holds}
use shade.Api.Rfq.Tables.{SettlementRow, Tables, has_quote, accepts, fills_quote, root_healthy}
use shade.Api.Rfq.Settle.{
  SettleBody, owned_by, submitted, given, fill_exists, insert_settlement, record_settlement,
  refusal, settle,
}
use shade.Api.Rfq.Keeps.{executed_for, Keeps}
use shade.Api.Rfq.Allows.{Allows, refusal-Allows}

-- What stands behind a settlement: its quote, for its intent, an acceptance of the quote, and an
-- executed fill of it.
pub record Backed (t : Tables) (s : SettlementRow) : Type 0 where
  pub quoted :
      any_row (λ q. q.quote_id == s.quote_id && q.intent_hash == s.intent_hash) t.quotes ≡ true
  pub accepted : any_row (accepts s.quote_id) t.acceptances ≡ true
  pub filled : any_row (executed_for s.quote_id) t.fills ≡ true

Keeps-Backed : (t t' : Tables) → Keeps t t' → (s : SettlementRow) → Backed t s → Backed t' s
Keeps-Backed t t' keeps s b = record {
  quoted = keeps.quotes _ b.quoted;
  accepted = keeps.acceptances _ b.accepted;
  filled = keeps.fills s.quote_id b.filled;
}

pub Keeps-All :
    (t t' : Tables) → Keeps t t' → All (Backed t) t.settlements → All (Backed t') t'.settlements
Keeps-All t t' keeps all =
    subst (All (Backed t')) (sym keeps.settlements)
      (All-map (Backed t) (Backed t') (Keeps-Backed t t' keeps) t.settlements all)

-- A settlement that is allowed is backed.
Allows-Backed :
    (id_of : String → String → String → String) (user_id : String) (b : SettleBody) (t : Tables)
    → Allows user_id b t
    → Backed t (submitted id_of b)
Allows-Backed id_of user_id b t a =
    let q = a.quote.row in
    let f = a.fill.row in
    record {
      quoted =
          first-any_row (has_quote b.quote_id)
            (λ k. k.quote_id == b.quote_id && k.intent_hash == b.intent_hash) t.quotes q
            a.quote.found
            (rw
              (
                first_holds (has_quote b.quote_id) t.quotes q a.quote.found,
                (eq_iff q.intent_hash b.intent_hash).1 a.quote.of_intent,
              )
              refl);
      accepted = a.quote.accepted;
      filled =
          first-any_row (fills_quote b.quote_id) (executed_for b.quote_id) t.fills f a.fill.found (
            rw
              (
                first_holds (fills_quote b.quote_id) t.fills f a.fill.found,
                (eq_iff f.state "EXECUTED").1 a.fill.executed,
              )
              refl);
    }

owned-Backed :
    (user_id : String) (t : Tables) (p : SettlementRow → Bool) (rows : List SettlementRow)
    → All (Backed t) rows
    → All (Backed t) (update_rows p (owned_by user_id) rows)
unfolding update_rows owned_by
owned-Backed user_id t p [] all = all
owned-Backed user_id t p (r ∷ rows) (b, all) =
    let rest = owned-Backed user_id t p rows all in
    elim (Bool-cases (p r)) [
      | inl hit ↦
          rw hit (record { quoted = b.quoted; accepted = b.accepted; filled = b.filled }, rest)
      | inr miss ↦ rw miss (b, rest)
    ]

-- The rows of `insert_settlement`, on tables where the new one is backed.
insert_settlement-Backed :
    (id_of : String → String → String → String) (user_id : String) (b : SettleBody) (t t' : Tables)
    → Backed t (submitted id_of b)
    → All (Backed t) t.settlements
    → insert_settlement id_of user_id b t ≡ some t'
    → All (Backed t') t'.settlements
unfolding insert_settlement
insert_settlement-Backed id_of user_id b t t' backed all e =
    let row = submitted id_of b in
    let is_row : SettlementRow → Bool = λ r. r.settlement_id == row.settlement_id in
    elim (Bool-cases (given b.fill_receipt_hash)) [
      | inl receipt ↦ absurd (cc (rw (receipt, insert_settlement) at e))
      | inr plain ↦ elim (Bool-cases (any_row is_row t.settlements)) [
        | inl found ↦
            with_rows (update_rows is_row (owned_by user_id) t.settlements)
              (rw (plain, found, insert_settlement) at e)
              (owned-Backed user_id t is_row t.settlements all)
        | inr new ↦ elim (Bool-cases (fill_exists b.fill_id t)) [
          | inr missing ↦ absurd (cc (rw (plain, new, missing, insert_settlement) at e))
          | inl here ↦
              with_rows (update_rows is_row (owned_by user_id) (row ∷ t.settlements))
                (rw (plain, new, here, insert_settlement) at e)
                (owned-Backed user_id t is_row (row ∷ t.settlements) (backed, all))
        ]
      ]
    ]
  where
    with_rows :
        (rows : List SettlementRow)
        → some (record t { settlements = rows }) ≡ some t'
        → All (Backed t) rows
        → All (Backed t') t'.settlements
    with_rows rows e' all' =
        let after = record t { settlements = rows } in
        let same : after ≡ t' = ground arith in
        subst (λ (u : Tables). All (Backed u) u.settlements) same
          (All-map (Backed t) (Backed after)
            (λ s x. record { quoted = x.quoted; accepted = x.accepted; filled = x.filled }) rows
            all')

record_settlement-Backed :
    (id_of : String → String → String → String) (user_id : String) (b : SettleBody) (t : Tables)
    → Allows user_id b t
    → All (Backed t) t.settlements
    → All
        (Backed (record_settlement id_of user_id b t).1)
        (record_settlement id_of user_id b t).1.settlements
unfolding record_settlement
record_settlement-Backed id_of user_id b t allowed all =
    elim (Option-cases (insert_settlement id_of user_id b t)) [
      | inl e ↦ rw (e, record_settlement) all
      | inr (t', e) ↦
          let after =
            insert_settlement-Backed id_of user_id b t t' (Allows-Backed id_of user_id b t allowed)
              all e in
          rw (e, record_settlement)
            (All-map (Backed t') _
              (λ s x. record { quoted = x.quoted; accepted = x.accepted; filled = x.filled })
              t'.settlements after)
    ]

pub settle-Backed :
    (id_of : String → String → String → String) (user : Option String) (body : Option SettleBody)
    (t : Tables)
    → All (Backed t) t.settlements
    → All (Backed (settle id_of user body t).1) (settle id_of user body t).1.settlements
unfolding settle
settle-Backed id_of none body t all = all
settle-Backed id_of (some u) none t all = elim (Bool-cases (root_healthy t)) [
  | inl healthy ↦ rw (healthy, settle) all
  | inr sick ↦ rw (sick, settle) all
]
settle-Backed id_of (some u) (some b) t all = elim (Bool-cases (root_healthy t)) [
  | inr sick ↦ rw (sick, settle) all
  | inl healthy ↦ elim (Option-cases (refusal u b t)) [
    | inr (code, e) ↦ rw (healthy, e, settle) all
    | inl e ↦
        rw (healthy, e, settle) (record_settlement-Backed id_of u b t (refusal-Allows u b t e) all)
  ]
]

insert_settlement-intents :
    (id_of : String → String → String → String) (user_id : String) (b : SettleBody) (t t' : Tables)
    → insert_settlement id_of user_id b t ≡ some t'
    → t'.intents ≡ t.intents
unfolding insert_settlement
insert_settlement-intents id_of user_id b t t' e =
    let id = id_of b.intent_hash b.quote_id b.nullifier in
    elim (Bool-cases (given b.fill_receipt_hash)) [
      | inl receipt ↦ absurd (cc (rw (receipt, insert_settlement) at e))
      | inr plain ↦ elim (Bool-cases (any_row (λ r. r.settlement_id == id) t.settlements)) [
        | inl found ↦ same _ (rw (plain, found, insert_settlement) at e)
        | inr new ↦ elim (Bool-cases (fill_exists b.fill_id t)) [
          | inr missing ↦ absurd (cc (rw (plain, new, missing, insert_settlement) at e))
          | inl here ↦ same _ (rw (plain, new, here, insert_settlement) at e)
        ]
      ]
    ]
  where
    same :
        (rows : List SettlementRow)
        → some (record t { settlements = rows }) ≡ some t'
        → t'.intents ≡ t.intents
    same rows e' =
        let after = record t { settlements = rows } in
        let comes : after ≡ t' = ground arith in ap (λ (u : Tables). u.intents) (sym comes)

-- A settlement changes no intent.
pub settle-intents :
    (id_of : String → String → String → String) (user : Option String) (body : Option SettleBody)
    (t : Tables)
    → (settle id_of user body t).1.intents ≡ t.intents
unfolding settle record_settlement
settle-intents id_of none body t = refl
settle-intents id_of (some u) none t = elim (Bool-cases (root_healthy t)) [
  | inl healthy ↦ rw (healthy, settle) refl
  | inr sick ↦ rw (sick, settle) refl
]
settle-intents id_of (some u) (some b) t = elim (Bool-cases (root_healthy t)) [
  | inr sick ↦ rw (sick, settle) refl
  | inl healthy ↦ elim (Option-cases (refusal u b t)) [
    | inr (code, e) ↦ rw (healthy, e, settle) refl
    | inl e ↦ elim (Option-cases (insert_settlement id_of u b t)) [
      | inl failed ↦ rw (healthy, e, failed, record_settlement, settle) refl
      | inr (t', stored) ↦
          rw (healthy, e, stored, record_settlement, settle)
            (insert_settlement-intents id_of u b t t' stored)
    ]
  ]
]
