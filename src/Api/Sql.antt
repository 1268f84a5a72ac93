-- ===== src/Api/Sql.antt =====
-- apps/api/src/db.ts: what its queries have in common. A table is a list of rows, the newest first.
use shade.Shared.{
  ◌≡◌, refl, inl, inr, Bool, true, false, ◌||◌, List, [], ◌∷◌, Option, none, some, arith,
  if◌then◌else◌, Bool-cases,
}

or-true : (b : Bool) → (b || true) ≡ true
or-true b = ground arith

module _ {ℓ} {A : Type ℓ} where
  -- `select … where …`, and the first row of it
  unfoldable pub first : (A → Bool) → List A → Option A
  first p [] = none
  first p (r ∷ rows) = if p r then some r else first p rows

  -- `select 1 from … where …`: whether there are rows.
  unfoldable pub any_row : (A → Bool) → List A → Bool
  any_row p [] = false
  any_row p (r ∷ rows) = p r || any_row p rows

  -- `update … set … where …`
  unfoldable pub update_rows : (A → Bool) → (A → A) → List A → List A
  update_rows p change [] = []
  update_rows p change (r ∷ rows) = (if p r then change r else r) ∷ update_rows p change rows

  -- `insert … on conflict do nothing`; the test says which rows conflict with the new one.
  unfoldable pub insert_new : (A → Bool) → A → List A → List A
  unfolding any_row
  insert_new p r rows = if any_row p rows then rows else r ∷ rows

  -- The first row that a test finds passes the test.
  pub first_holds : (p : A → Bool) (rows : List A) (r : A) → first p rows ≡ some r → p r ≡ true
  unfolding first
  first_holds p [] r e = cc
  first_holds p (k ∷ rows) r e = elim (Bool-cases (p k)) [
    | inl hit ↦ let same : k ≡ r = ground arith in ground arith
    | inr miss ↦ first_holds p rows r (rw miss at e)
  ]

  -- A row that is found is a row of the table.
  pub first-any_row :
      (p test : A → Bool) (rows : List A) (r : A)
      → first p rows ≡ some r
      → test r ≡ true
      → any_row test rows ≡ true
  unfolding first any_row
  first-any_row p test [] r e holds = cc
  first-any_row p test (k ∷ rows) r e holds = elim (Bool-cases (p k)) [
    | inl hit ↦ let same : k ≡ r = ground arith in ground arith
    | inr miss ↦ let ih = first-any_row p test rows r (rw miss at e) holds in ground arith
  ]

  pub any_row-cons :
      (p : A → Bool) (r : A) (rows : List A) → any_row p rows ≡ true → any_row p (r ∷ rows) ≡ true
  unfolding any_row
  any_row-cons p r rows h = ground arith

  pub any_row-insert_new :
      (p conflicts : A → Bool) (r : A) (rows : List A)
      → any_row p rows ≡ true
      → any_row p (insert_new conflicts r rows) ≡ true
  unfolding insert_new
  any_row-insert_new p conflicts r rows h = elim (Bool-cases (any_row conflicts rows)) [
    | inl found ↦ rw found h
    | inr missing ↦ rw missing (any_row-cons p r rows h)
  ]

  -- A change that keeps a test keeps that a row passes it.
  pub any_row-update_rows :
      (p hit : A → Bool) (change : A → A) (rows : List A)
      → ((r : A) → p r ≡ true → p (change r) ≡ true)
      → any_row p rows ≡ true
      → any_row p (update_rows hit change rows) ≡ true
  unfolding any_row update_rows
  any_row-update_rows p hit change [] keeps h = h
  any_row-update_rows p hit change (r ∷ rows) keeps h = elim (Bool-cases (p r)) [
    | inl here ↦ elim (Bool-cases (hit r)) [
      | inl changed ↦ let kept = keeps r here in rw (changed, kept) refl
      | inr same ↦ rw (same, here) refl
    ]
    | inr miss ↦
        let ih = any_row-update_rows p hit change rows keeps (rw miss at h) in
        rw ih (or-true (p (if hit r then change r else r)))
  ]
