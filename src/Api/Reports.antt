-- ===== src/Api/Reports.antt =====
-- apps/api/src/routes.ts: POST and GET /v1/reports/view-key, with the queries of db.ts beside it. The
-- signature over the report and the box of an attachment are functions; times are left out.
pub mod Disclosed
mod Tests
use Prim.Native.String.{◌++◌}
use shade.Shared.{
  ℕ, String, Bool, true, false, ◌&&◌, List, [], ◌∷◌, map, Option, none, some, ◌==◌, member,
  if◌then◌else◌,
}
use shade.Api.Store.{Activity}
use shade.Api.Vaults.{Reply, ok, error}
use shade.Api.Sql.{first}
use shade.Api.Rfq.Intents.{truthy}

pub record SettledRow : Type 0 where
  pub settlement_id : String
  pub quote_id : String
  pub nullifier : String
  pub stellar_tx_hash : Option String
  pub user_id : Option String

pub record CommitmentRow : Type 0 where
  pub commitment : String
  pub policy_id : String
  pub amount_usdc_7dp : ℕ
  pub user_id : Option String

pub record PayoutRow : Type 0 where
  pub settlement_id : String
  pub anchor_transaction_id : Option String

pub record ReportBody : Type 0 where
  pub settlement_ids : List String
  pub note_commitments : List String
  pub quote_id : Option String
  pub policy_id : Option String
  pub anchor_id : Option String
  pub disclose_amounts : Bool

pub record Amount : Type 0 where
  pub commitment : String
  pub amount7dp : ℕ

-- The report that is signed.
pub record Report : Type 0 where
  pub report_id : String
  pub user_id : String
  pub note_commitments : List String
  pub disclosed_nullifiers : List String
  pub quote_id : Option String
  pub policy_id : Option String
  pub anchor_id : Option String
  pub amounts_disclosed : List Amount
  pub proof_links : List String

pub record ReportRow : Type 0 where
  pub report : Report
  pub amount_disclosed : Bool
  pub service_signature : String

pub record Ledger : Type 0 where
  pub settlements : List SettledRow
  pub commitments : List CommitmentRow
  pub payouts : List PayoutRow
  pub reports : List ReportRow
  pub activity : List Activity

abbrev pub owner_is : String → Option String → Bool
owner_is user_id none = false
owner_is user_id (some owner) = owner == user_id

-- `where user_id=$1 and settlement_id = any($2)`
unfoldable pub get_owned_settlements : String → List String → List SettledRow → List SettledRow
unfolding member
get_owned_settlements user_id ids [] = []
get_owned_settlements user_id ids (r ∷ rows) =
    let rest = get_owned_settlements user_id ids rows in
    if owner_is user_id r.user_id && member r.settlement_id ids then r ∷ rest else rest

-- `where user_id=$1 and commitment = any($2)`
unfoldable pub get_owned_note_commitments :
    String → List String → List CommitmentRow → List CommitmentRow
unfolding member
get_owned_note_commitments user_id commitments [] = []
get_owned_note_commitments user_id commitments (r ∷ rows) =
    let rest = get_owned_note_commitments user_id commitments rows in
    if owner_is user_id r.user_id && member r.commitment commitments then r ∷ rest else rest

abbrev with_anchor : Option String → List String → List String
with_anchor none ids = ids
with_anchor (some id) ids = if member id ids then ids else id ∷ ids

-- `select distinct anchor_transaction_id … where settlement_id = any($1)`
unfoldable pub get_anchor_ids : List String → List PayoutRow → List String
unfolding member
get_anchor_ids settlement_ids [] = []
get_anchor_ids settlement_ids (r ∷ rows) =
    let rest = get_anchor_ids settlement_ids rows in
    if member r.settlement_id settlement_ids then with_anchor r.anchor_transaction_id rest else rest

-- `.filter(Boolean)`
abbrev pub non_empty : List String → List String
non_empty [] = []
non_empty (s ∷ ss) = let rest = non_empty ss in if s == "" then rest else s ∷ rest

abbrev pub links : List SettledRow → List String
links [] = []
links (r ∷ rows) =
    let rest = links rows in
    elim r.stellar_tx_hash [
      | none ↦ rest
      | some h ↦
          if h == "" then rest else ("https://stellar.expert/explorer/testnet/tx/" ++ h) ∷ rest
    ]

abbrev pub or_first {ℓ} : {A : Type ℓ} → Option String → (A → String) → List A → Option String
or_first (some given) field rows = some given
or_first none field [] = none
or_first none field (r ∷ rows) = some (field r)

-- What is signed: the rows of the user's own that were asked for.
unfoldable pub assemble : String → String → ReportBody → Ledger → Report
unfolding get_owned_settlements get_owned_note_commitments get_anchor_ids
assemble report_id user_id b l =
    let settlements = get_owned_settlements user_id b.settlement_ids l.settlements in
    let commitments = get_owned_note_commitments user_id b.note_commitments l.commitments in
    record {
      report_id = report_id;
      user_id = user_id;
      note_commitments = map (λ c. c.commitment) commitments;
      disclosed_nullifiers = non_empty (map (λ s. s.nullifier) settlements);
      quote_id = or_first b.quote_id (λ s. s.quote_id) settlements;
      policy_id = or_first b.policy_id (λ c. c.policy_id) commitments;
      anchor_id =
          or_first b.anchor_id (λ id. id)
            (get_anchor_ids (map (λ s. s.settlement_id) settlements) l.payouts);
      amounts_disclosed =
          if b.disclose_amounts
          then map (λ c. record { commitment = c.commitment; amount7dp = c.amount_usdc_7dp })
              commitments
          else [];
      proof_links = links settlements;
    }

-- POST /v1/reports/view-key; `sign` is the service's signature, or none where no key is configured.
unfoldable pub view_key_report :
    Option (Report → String)
    → String
    → Option String
    → Option ReportBody
    → Ledger
    → Reply ReportRow × Ledger
unfolding assemble
view_key_report sign report_id none body l = (error 401, l)
view_key_report sign report_id (some user_id) none l = (error 400, l)
view_key_report none report_id (some user_id) (some b) l = (error 503, l)
view_key_report (some sign) report_id (some user_id) (some b) l =
    let report = assemble report_id user_id b l in
    let row : ReportRow = record {
      report = report;
      amount_disclosed = b.disclose_amounts;
      service_signature = sign report;
    } in
    (
      ok row,
      record l {
        reports = row ∷ l.reports;
        activity =
            record {
              user_id = user_id;
              event_type = "shade_view.report.generate";
              entity_id = report_id;
            }
            ∷ l.activity;
      },
    )

-- GET /v1/reports/view-key/:report_id
unfoldable pub get_view_key_report : Option String → String → Ledger → Reply ReportRow
unfolding first
get_view_key_report none report_id l = error 401
get_view_key_report (some user_id) report_id l =
    elim (first (λ r. r.report.report_id == report_id && r.report.user_id == user_id) l.reports) [
      | none ↦ error 404
      | some r ↦ ok r
    ]
