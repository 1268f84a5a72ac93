-- ===== src/Api/Rfq/Gate.antt =====
-- What a settlement of an RFQ needs.
use shade.Shared.{
  String, ◌≡◌, refl, subst, inl, inr, true, List, [], ◌∷◌, some, arith, ◌==◌, eq_refl, Bool-cases,
  Option-cases,
}
use shade.Api.Vaults.{Reply, ok, error}
use shade.Api.Sql.{first, any_row, update_rows}
use shade.Api.Rfq.Tables.{SettlementRow, Tables, root_healthy}
use shade.Api.Rfq.Settle.{
  SettleBody, refusal, given, fill_exists, owned_by, submitted, insert_settlement,
  record_settlement, settle,
}
use shade.Api.Rfq.Allows.{Allows, refusal-Allows}

-- Refused with an error code and nothing changed, or allowed while no finding on the root is open, and
-- the row of the settlement is there and the user's.
abbrev pub Settles :
    (String → String → String → String)
    → String
    → SettleBody
    → Tables
    → Reply String × Tables
    → Type 0
Settles id_of user_id b t (error code, after) = after ≡ t
Settles id_of user_id b t (ok id, after) =
    (root_healthy t ≡ true)
    × Allows user_id b t
    × (id ≡ id_of b.intent_hash b.quote_id b.nullifier)
    × ((r : SettlementRow) × (first (λ k. k.settlement_id == id) after.settlements ≡ some r)
        × (r.user_id ≡ some user_id))

first-update :
    (id user_id : String) (rows : List SettlementRow)
    → any_row (λ k. k.settlement_id == id) rows ≡ true
    → (r : SettlementRow) × (first
          (λ k. k.settlement_id == id)
          (update_rows (λ k. k.settlement_id == id) (owned_by user_id) rows)
        ≡ some r)
      × (r.user_id ≡ some user_id)
unfolding first any_row update_rows owned_by
first-update id user_id [] h = absurd (cc h)
first-update id user_id (k ∷ rows) h = elim (Bool-cases (k.settlement_id == id)) [
  | inl hit ↦ rw (hit, hit) (owned_by user_id k, refl, refl)
  | inr miss ↦ rw (miss, miss) (first-update id user_id rows (rw miss at h))
]

abbrev HasRow : String → String → List SettlementRow → Type 0
HasRow id user_id rows =
    (r : SettlementRow) × (first (λ k. k.settlement_id == id) rows ≡ some r)
    × (r.user_id ≡ some user_id)

carried :
    (id user_id : String) (x t : Tables)
    → some x ≡ some t
    → HasRow id user_id x.settlements
    → HasRow id user_id t.settlements
carried id user_id x t e row =
    let same : x ≡ t = ground arith in
    subst (λ (y : Tables). HasRow id user_id y.settlements) same row

insert_settlement-HasRow :
    (id_of : String → String → String → String) (user_id : String) (b : SettleBody) (t t' : Tables)
    → insert_settlement id_of user_id b t ≡ some t'
    → HasRow (id_of b.intent_hash b.quote_id b.nullifier) user_id t'.settlements
unfolding insert_settlement any_row
insert_settlement-HasRow id_of user_id b t t' e =
    let id = id_of b.intent_hash b.quote_id b.nullifier in
    elim (Bool-cases (given b.fill_receipt_hash)) [
      | inl receipt ↦ absurd (cc (rw (receipt, insert_settlement) at e))
      | inr none_given ↦ elim (Bool-cases (any_row (λ k. k.settlement_id == id) t.settlements)) [
        | inl found ↦
            carried id user_id _ t' (rw (none_given, found, insert_settlement) at e)
              (first-update id user_id t.settlements found)
        | inr missing ↦ elim (Bool-cases (fill_exists b.fill_id t)) [
          | inr no_fill ↦ absurd (cc (rw (none_given, missing, no_fill, insert_settlement) at e))
          | inl fill ↦
              carried id user_id _ t' (rw (none_given, missing, fill, insert_settlement) at e)
                (first-update id user_id (submitted id_of b ∷ t.settlements) (rw (eq_refl id) refl))
        ]
      ]
    ]

record_settlement-Settles :
    (id_of : String → String → String → String) (user_id : String) (b : SettleBody) (t : Tables)
    → root_healthy t ≡ true
    → Allows user_id b t
    → Settles id_of user_id b t (record_settlement id_of user_id b t)
unfolding record_settlement
record_settlement-Settles id_of user_id b t healthy allowed =
    elim (Option-cases (insert_settlement id_of user_id b t)) [
      | inl e ↦ rw (e, record_settlement) refl
      | inr (t', e) ↦
          rw (e, record_settlement)
            (healthy, allowed, refl, insert_settlement-HasRow id_of user_id b t t' e)
    ]

-- A request to settle an RFQ is refused and changes nothing, or no critical finding on the root is open,
-- the intent is there and is nobody else's, its quote is one for the intent and accepted, the newest fill
-- of the quote is executed, the proof is ready, the nullifier is unspent, an intent that the committee
-- has a session for is matched, and the settlement's row is the user's.
pub settle-Settles :
    (id_of : String → String → String → String) (user_id : String) (b : SettleBody) (t : Tables)
    → Settles id_of user_id b t (settle id_of (some user_id) (some b) t)
unfolding settle
settle-Settles id_of user_id b t = elim (Bool-cases (root_healthy t)) [
  | inr sick ↦ rw (sick, settle) refl
  | inl healthy ↦ elim (Option-cases (refusal user_id b t)) [
    | inr (code, e) ↦ rw (healthy, e, settle) refl
    | inl e ↦
        rw (healthy, e, settle)
          (record_settlement-Settles id_of user_id b t healthy (refusal-Allows user_id b t e))
  ]
]
