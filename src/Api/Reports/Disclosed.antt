-- ===== src/Api/Reports/Disclosed.antt =====
-- What a report discloses, and to whom.
use mathlib.Core.List.{mem-cons_self, mem-cons_of_mem}
use shade.Shared.{
  ℕ, String, ◌≡◌, refl, subst, inl, inr, Bool, true, false, ◌&&◌, List, [], ◌∷◌, map, Option, none,
  some, Mem, arith, ◌==◌, eq_iff, member, All, All-map, Bool-cases, Option-cases,
}
use shade.Api.Vaults.{Reply, ok, error}
use shade.Api.Sql.{first, first_holds}
use shade.Api.Reports.{
  SettledRow, CommitmentRow, ReportBody, Amount, Report, ReportRow, Ledger, owner_is,
  get_owned_settlements, get_owned_note_commitments, non_empty, assemble, view_key_report,
  get_view_key_report,
}

-- A nullifier of a settlement that the user owns and asked for.
abbrev pub IsOwnNullifier : String → ReportBody → Ledger → String → Type 0
IsOwnNullifier user_id b l n =
    (r : SettledRow) × Mem r l.settlements
    × (r.nullifier ≡ n)
    × (r.user_id ≡ some user_id)
    × (member r.settlement_id b.settlement_ids ≡ true)

-- A note of the user's own that was asked for, and its amount.
abbrev pub IsOwnNote : String → ReportBody → Ledger → String → ℕ → Type 0
IsOwnNote user_id b l commitment amount =
    (r : CommitmentRow) × Mem r l.commitments
    × (r.commitment ≡ commitment)
    × (r.amount_usdc_7dp ≡ amount)
    × (r.user_id ≡ some user_id)
    × (member r.commitment b.note_commitments ≡ true)

owner-some : (user_id : String) (o : Option String) → owner_is user_id o ≡ true → o ≡ some user_id
owner-some user_id none h = absurd (cc h)
owner-some user_id (some owner) h = ground (arith, eq_iff owner user_id)

own_settlements :
    (user_id : String) (ids : List String) (rows : List SettledRow)
    → All
        (λ r. Mem r rows × (r.user_id ≡ some user_id) × (member r.settlement_id ids ≡ true))
        (get_owned_settlements user_id ids rows)
unfolding get_owned_settlements
own_settlements user_id ids [] = tt
own_settlements user_id ids (r ∷ rows) =
    let rest =
      All-map (λ k. Mem k rows × (k.user_id ≡ some user_id) × (member k.settlement_id ids ≡ true))
        (λ k. Mem k (r ∷ rows) × (k.user_id ≡ some user_id) × (member k.settlement_id ids ≡ true))
        (λ k h. (mem-cons_of_mem r h.0, h.1, h.2)) (get_owned_settlements user_id ids rows)
        (own_settlements user_id ids rows) in
    elim (Bool-cases (owner_is user_id r.user_id)) [
      | inr other ↦ rw other rest
      | inl mine ↦ elim (Bool-cases (member r.settlement_id ids)) [
        | inr unasked ↦ rw (mine, unasked) rest
        | inl asked ↦
            rw (mine, asked) ((mem-cons_self, owner-some user_id r.user_id mine, asked), rest)
      ]
    ]

own_commitments :
    (user_id : String) (ids : List String) (rows : List CommitmentRow)
    → All
        (λ r. Mem r rows × (r.user_id ≡ some user_id) × (member r.commitment ids ≡ true))
        (get_owned_note_commitments user_id ids rows)
unfolding get_owned_note_commitments
own_commitments user_id ids [] = tt
own_commitments user_id ids (r ∷ rows) =
    let rest =
      All-map (λ k. Mem k rows × (k.user_id ≡ some user_id) × (member k.commitment ids ≡ true))
        (λ k. Mem k (r ∷ rows) × (k.user_id ≡ some user_id) × (member k.commitment ids ≡ true))
        (λ k h. (mem-cons_of_mem r h.0, h.1, h.2)) (get_owned_note_commitments user_id ids rows)
        (own_commitments user_id ids rows) in
    elim (Bool-cases (owner_is user_id r.user_id)) [
      | inr other ↦ rw other rest
      | inl mine ↦ elim (Bool-cases (member r.commitment ids)) [
        | inr unasked ↦ rw (mine, unasked) rest
        | inl asked ↦
            rw (mine, asked) ((mem-cons_self, owner-some user_id r.user_id mine, asked), rest)
      ]
    ]

map-All :
    {A B : Type 0} (P : B → Type 0) (f : A → B) (xs : List A)
    → All (λ a. P (f a)) xs
    → All P (map f xs)
map-All P f [] h = tt
map-All P f (x ∷ xs) h = (h.0, map-All P f xs h.1)

non_empty-All : (P : String → Type 0) (ss : List String) → All P ss → All P (non_empty ss)
non_empty-All P [] h = tt
non_empty-All P (s ∷ ss) h = elim (Bool-cases (s == "")) [
  | inl blank ↦ rw blank (non_empty-All P ss h.1)
  | inr text ↦ rw text (h.0, non_empty-All P ss h.1)
]

-- Everything that a report names is the user's own and was asked for.
abbrev pub IsOwn : String → ReportBody → Ledger → Report → Type 0
IsOwn user_id b l r =
    All (IsOwnNullifier user_id b l) r.disclosed_nullifiers
    × All (λ c. (amount : ℕ) × IsOwnNote user_id b l c amount) r.note_commitments
    × All (λ a. IsOwnNote user_id b l a.commitment a.amount7dp) r.amounts_disclosed
    × (b.disclose_amounts ≡ false → r.amounts_disclosed ≡ [])

assemble-IsOwn :
    (report_id user_id : String) (b : ReportBody) (l : Ledger)
    → IsOwn user_id b l (assemble report_id user_id b l)
unfolding assemble
assemble-IsOwn report_id user_id b l =
    let settled = own_settlements user_id b.settlement_ids l.settlements in
    let noted = own_commitments user_id b.note_commitments l.commitments in
    let notes = get_owned_note_commitments user_id b.note_commitments l.commitments in
    (
      non_empty-All (IsOwnNullifier user_id b l) _ (
          map-All (IsOwnNullifier user_id b l) (λ s. s.nullifier) _
            (All-map _ _ (λ k h. (k, h.0, refl, h.1, h.2)) _ settled)),
      map-All (λ c. (amount : ℕ) × IsOwnNote user_id b l c amount) (λ c. c.commitment) notes
          (All-map _ _ (λ k h. (k.amount_usdc_7dp, (k, h.0, refl, refl, h.1, h.2))) _ noted),
      elim (Bool-cases b.disclose_amounts) [
        | inl asked ↦ rw asked (
            map-All (λ (a : Amount). IsOwnNote user_id b l a.commitment a.amount7dp)
              (λ (c : CommitmentRow). record {
                commitment = c.commitment;
                amount7dp = c.amount_usdc_7dp;
              })
              notes (All-map _ _ (λ k h. (k, h.0, refl, refl, h.1, h.2)) _ noted))
        | inr unasked ↦ rw unasked tt
      ],
      λ unasked. rw unasked refl,
    )

-- Refused and nothing stored, or a report on the user's own, stored for the user.
abbrev pub Discloses : String → ReportBody → Ledger → Reply ReportRow × Ledger → Type 0
Discloses user_id b l (error code, after) = after ≡ l
Discloses user_id b l (ok row, after) =
    IsOwn user_id b l row.report
    × (row.report.user_id ≡ user_id)
    × (after.reports ≡ row ∷ l.reports)

-- A request for a report is refused and stores nothing, or it gets a report for its user that names only
-- nullifiers of settlements, and only note commitments, that the user owns and asked for; the amounts in
-- it are those of such notes, and there are none unless the user asked for amounts.
pub view_key_report-Discloses :
    (sign : Option (Report → String)) (report_id user_id : String) (b : ReportBody) (l : Ledger)
    → Discloses user_id b l (view_key_report sign report_id (some user_id) (some b) l)
unfolding view_key_report
view_key_report-Discloses none report_id user_id b l = refl
view_key_report-Discloses (some sign) report_id user_id b l =
    (assemble-IsOwn report_id user_id b l, unfold assemble in refl, refl)

-- A report that is read back was made for the user who reads it.
pub get_view_key_report-own :
    (user_id report_id : String) (l : Ledger) (r : ReportRow)
    → get_view_key_report (some user_id) report_id l ≡ ok r
    → (r.report.user_id ≡ user_id) × (r.report.report_id ≡ report_id)
unfolding get_view_key_report
get_view_key_report-own user_id report_id l r e =
    let test : ReportRow → Bool =
      λ k. k.report.report_id == report_id && k.report.user_id == user_id in
    elim (Option-cases (first test l.reports)) [
      | inl missing ↦ absurd (cc (rw (missing, get_view_key_report) at e))
      | inr (k, found) ↦
          let same : k ≡ r = cc (rw (found, get_view_key_report) at e) in
          let holds = first_holds test l.reports k found in
          subst (λ (x : ReportRow). (x.report.user_id ≡ user_id) × (x.report.report_id ≡ report_id))
            same
            (
              ground (arith, eq_iff k.report.user_id user_id),
              ground (arith, eq_iff k.report.report_id report_id),
            )
    ]
