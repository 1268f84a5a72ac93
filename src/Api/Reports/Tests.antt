-- ===== src/Api/Reports/Tests.antt =====
-- A user who asks for a settlement of another user too.
use shade.Shared.{String, ◌≡◌, refl, false, [], ◌∷◌, Option, none, some, member}
use shade.Api.Vaults.{error}
use shade.Api.Reports.{
  SettledRow, ReportBody, Report, Ledger, assemble, view_key_report, get_view_key_report,
}
use shade.Api.Reports.Disclosed.{Discloses, view_key_report-Discloses}

abbrev settled : String → String → SettledRow
settled id user = record {
  settlement_id = id;
  quote_id = "q";
  nullifier = id;
  stellar_tx_hash = some "t";
  user_id = some user;
}

abbrev ledger : Ledger
ledger = record {
  settlements = settled "s1" "alice" ∷ settled "s2" "bob" ∷ [];
  commitments =
      record { commitment = "c"; policy_id = "p"; amount_usdc_7dp = 70; user_id = some "alice" }
      ∷ [];
  payouts = record { settlement_id = "s1"; anchor_transaction_id = some "a" } ∷ [];
  reports = [];
  activity = [];
}

abbrev body : ReportBody
body = record {
  settlement_ids = "s1" ∷ "s2" ∷ [];
  note_commitments = "c" ∷ [];
  quote_id = none;
  policy_id = none;
  anchor_id = none;
  disclose_amounts = false;
}

abbrev sign : Option (Report → String)
sign = some (λ r. r.report_id)

own_only : (assemble "r" "alice" body ledger).disclosed_nullifiers ≡ "s1" ∷ []
unfolding assemble member
own_only = refl

view_key_report-Discloses_example :
    Discloses "alice" body ledger (view_key_report sign "r" (some "alice") (some body) ledger)
view_key_report-Discloses_example = view_key_report-Discloses sign "r" "alice" body ledger

not_theirs :
    get_view_key_report
      (some "bob")
      "r"
      (view_key_report sign "r" (some "alice") (some body) ledger).1
    ≡ error 404
unfolding view_key_report get_view_key_report
not_theirs = refl
