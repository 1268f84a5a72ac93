-- ===== src/Api/Rfq/Owned.antt =====
-- The owner of an intent, and what the intent commits to, over changes of the table of intents.
use shade.Shared.{
  String, ◌≡◌, refl, ap, inl, inr, Bool, true, ◌||◌, List, [], ◌∷◌, Option, some, arith, ◌==◌,
  eq_iff, Bool-cases,
}
use shade.Api.Sql.{first, any_row, update_rows, insert_new, first_holds, first-any_row}
use shade.Api.Rfq.Tables.{IntentRow, has_intent}
use shade.Api.Rfq.Intents.{set_session}

-- An intent that is there keeps its owner and what it commits to.
abbrev pub Owned : List IntentRow → List IntentRow → Type 0
Owned rows rows' =
    (h : String) (i : IntentRow)
    → first (has_intent h) rows ≡ some i
    → (i' : IntentRow) × (first (has_intent h) rows' ≡ some i')
      × (i'.user_id ≡ i.user_id)
      × (i'.public_commitment ≡ i.public_commitment)

pub same_owners : (rows : List IntentRow) → Owned rows rows
same_owners rows h i e = (i, e, refl, refl)

pub set_session-Owned :
    (p : IntentRow → Bool) (sid : Option String) (rows : List IntentRow)
    → Owned rows (update_rows p (set_session sid) rows)
unfolding first update_rows set_session
set_session-Owned p sid [] h i e = absurd (cc e)
set_session-Owned p sid (r ∷ rows) h i e = elim (Bool-cases (r.intent_hash == h)) [
  | inl hit ↦
      let here : r ≡ i = ground arith in
      let owner = ap (λ (k : IntentRow). k.user_id) here in
      let body = ap (λ (k : IntentRow). k.public_commitment) here in
      elim (Bool-cases (p r)) [
        | inl changed ↦ rw (changed, hit) (set_session sid r, refl, owner, body)
        | inr kept ↦ rw (kept, hit) (r, refl, owner, body)
      ]
  | inr miss ↦
      let rest = set_session-Owned p sid rows h i (rw miss at e) in
      elim (Bool-cases (p r)) [
        | inl changed ↦ rw (changed, miss) rest
        | inr kept ↦ rw (kept, miss) rest
      ]
]

-- A row whose hash or key is there is not inserted, so an insertion shadows no intent.
pub insert_intent-Owned :
    (new : IntentRow) (key : String) (rows : List IntentRow)
    → Owned rows
        (insert_new (λ r. r.intent_hash == new.intent_hash || r.idempotency_key == key) new rows)
unfolding insert_new first
insert_intent-Owned new key rows h i e =
    elim (Bool-cases
      (any_row (λ r. r.intent_hash == new.intent_hash || r.idempotency_key == key) rows)) [
        | inl found ↦ rw (found, insert_new) (i, e, refl, refl)
        | inr fresh ↦ elim (Bool-cases (new.intent_hash == h)) [
          | inr other ↦ rw (fresh, other, insert_new) (i, e, refl, refl)
          | inl same ↦
              let holds : (i.intent_hash == new.intent_hash || i.idempotency_key == key) ≡ true =
                ground (
                  arith,
                  eq_iff new.intent_hash h,
                  eq_iff i.intent_hash h,
                  eq_iff i.intent_hash new.intent_hash,
                  first_holds (has_intent h) rows i e,
                ) in
              absurd (
                cc (
                  first-any_row (has_intent h)
                    (λ r. r.intent_hash == new.intent_hash || r.idempotency_key == key) rows i e
                    holds))
        ]
      ]
