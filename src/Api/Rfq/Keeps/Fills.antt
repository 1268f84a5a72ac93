-- ===== src/Api/Rfq/Keeps/Fills.antt =====
-- The routes of fills keep what `Keeps` names.
use shade.Shared.{String, ◌≡◌, refl, inl, inr, true, Option, none, some, arith, ◌==◌, Bool-cases}
use shade.Api.Sql.{any_row, any_row-cons, any_row-update_rows}
use shade.Api.Rfq.Tables.{FillRow, Tables, has_quote, executed, execute_fill}
use shade.Api.Rfq.Owned.{same_owners}
use shade.Api.Rfq.Settle.{FillBody, new_fill, create_fill, execute}
use shade.Api.Rfq.Keeps.{executed_for, Keeps, same_tables, unchanged, Keeps-trans}

pub create_fill-Keeps :
    (id_of : String → String → String) (body : Option FillBody) (t : Tables)
    → Keeps t (create_fill id_of body t).1
unfolding create_fill
create_fill-Keeps id_of none t = unchanged t
create_fill-Keeps id_of (some b) t =
    let fill_id = id_of b.quote_id b.fill_receipt_hash in
    elim (Bool-cases (any_row (λ r. r.fill_id == fill_id) t.fills)) [
      | inl found ↦ rw (found, create_fill) (same_tables _ _ refl refl refl refl (same_owners _))
      | inr new ↦ elim (Bool-cases (any_row (has_quote b.quote_id) t.quotes)) [
        | inr missing ↦ rw (new, missing, create_fill) (unchanged t)
        | inl here ↦
            rw (new, here, create_fill)
              (record {
                quotes = λ p h. h;
                acceptances = λ p h. h;
                fills = λ q h. any_row-cons (executed_for q) (new_fill fill_id b) t.fills h;
                settlements = refl;
                intents = same_owners t.intents;
              })
      ]
    ]

executed-executed_for :
    (quote_id tx_hash : String) (r : FillRow)
    → executed_for quote_id r ≡ true
    → executed_for quote_id (executed tx_hash r) ≡ true
unfolding executed
executed-executed_for quote_id tx_hash r h = ground arith

execute_fill-Keeps :
    (fill_id tx_hash : String) (t : Tables)
    → Keeps t (record t { fills = (execute_fill fill_id tx_hash t.fills).1 })
unfolding execute_fill
execute_fill-Keeps fill_id tx_hash t = record {
  quotes = λ p h. h;
  acceptances = λ p h. h;
  fills = λ q h.
      any_row-update_rows (executed_for q) (λ r. r.fill_id == fill_id) (executed tx_hash) t.fills
        (executed-executed_for q tx_hash) h;
  settlements = refl;
  intents = same_owners t.intents;
}

pub execute-Keeps :
    (fill_id : String) (body : Option String) (t : Tables) → Keeps t (execute fill_id body t).1
unfolding execute
execute-Keeps fill_id none t = unchanged t
execute-Keeps fill_id (some tx_hash) t =
    let kept = execute_fill-Keeps fill_id tx_hash t in
    elim (Bool-cases (tx_hash == "")) [
      | inl missing ↦ rw (missing, execute) (unchanged t)
      | inr given ↦ elim (Bool-cases (execute_fill fill_id tx_hash t.fills).0) [
        | inl hit ↦
            rw (given, hit, execute)
              (Keeps-trans t _ _ kept (same_tables _ _ refl refl refl refl (same_owners _)))
        | inr miss ↦ rw (given, miss, execute) kept
      ]
    ]
