-- ===== src/Vault/Redact.antt =====
-- What a redacted value still says of the value.
use shade.Shared.{String, ◌≡◌, ◌↔◌, refl, sym, subst, ap, inl, inr, true, Bool-cases, if◌then◌else◌}
use shade.Vault.Json.{
  Json, null, bool, number, text, array, object, Items, no_items, item, Fields, no_fields, field,
  hides, redacted, redact, redact_items, redact_fields,
}

-- Two values that differ at most in what stands under the keys that are hidden.
mutual
  pub data Alike : Json → Json → Type 0 where
    same_value : {v : Json} → Alike v v
    arrays : {xs ys : Items} → AlikeItems xs ys → Alike (array xs) (array ys)
    objects : {fs gs : Fields} → AlikeFields fs gs → Alike (object fs) (object gs)

  pub data AlikeItems : Items → Items → Type 0 where
    no_more_items : AlikeItems no_items no_items
    both :
        {v w : Json} {xs ys : Items}
        → Alike v w
        → AlikeItems xs ys
        → AlikeItems (item v xs) (item w ys)

  pub data AlikeFields : Fields → Fields → Type 0 where
    no_more_fields : AlikeFields no_fields no_fields
    hidden :
        {k : String} {v w : Json} {fs gs : Fields}
        → hides k ≡ true
        → AlikeFields fs gs
        → AlikeFields (field k v fs) (field k w gs)
    shown :
        {k : String} {v w : Json} {fs gs : Fields}
        → Alike v w
        → AlikeFields fs gs
        → AlikeFields (field k v fs) (field k w gs)

mutual
  unfolding redact

  Alike-redact : {v w : Json} → Alike v w → redact v ≡ redact w
  Alike-redact same_value = refl
  Alike-redact (arrays a) = ap array (AlikeItems-redact_items a)
  Alike-redact (objects a) = ap object (AlikeFields-redact_fields a)

  AlikeItems-redact_items : {xs ys : Items} → AlikeItems xs ys → redact_items xs ≡ redact_items ys
  AlikeItems-redact_items no_more_items = refl
  AlikeItems-redact_items (both a more) = rw (Alike-redact a, AlikeItems-redact_items more) refl

  AlikeFields-redact_fields :
      {fs gs : Fields} → AlikeFields fs gs → redact_fields fs ≡ redact_fields gs
  AlikeFields-redact_fields no_more_fields = refl
  AlikeFields-redact_fields (hidden h more) = rw (h, AlikeFields-redact_fields more) refl
  AlikeFields-redact_fields (shown a more) =
      rw (Alike-redact a, AlikeFields-redact_fields more) refl

equal-Alike : (v w : Json) → v ≡ w → Alike v w
equal-Alike v w e = subst (Alike v) e same_value

fields-Alike :
    (k : String) (v w : Json) (fs gs : Fields)
    → ((if hides k then redacted else redact v) ≡ (if hides k then redacted else redact w))
    → (redact v ≡ redact w → Alike v w)
    → AlikeFields fs gs
    → AlikeFields (field k v fs) (field k w gs)
fields-Alike k v w fs gs e inside rest = elim (Bool-cases (hides k)) [
  | inl h ↦ hidden h rest
  | inr h ↦ shown (inside (rw h at e)) rest
]

mutual
  unfolding redact

  redact-Alike : (v w : Json) → redact v ≡ redact w → Alike v w
  redact-Alike null null e = same_value
  redact-Alike (bool b) (bool c) e = equal-Alike _ _ e
  redact-Alike (number m) (number n) e = equal-Alike _ _ e
  redact-Alike (text s) (text t) e = equal-Alike _ _ e
  redact-Alike (array xs) (array ys) e = arrays (redact-AlikeItems xs ys (cc e))
  redact-Alike (object fs) (object gs) e = objects (redact-AlikeFields fs gs (cc e))
  redact-Alike _ _ e = absurd (cc e)

  redact-AlikeItems : (xs ys : Items) → redact_items xs ≡ redact_items ys → AlikeItems xs ys
  redact-AlikeItems no_items no_items e = no_more_items
  redact-AlikeItems (item v xs) (item w ys) e =
      both (redact-Alike v w (cc e)) (redact-AlikeItems xs ys (cc e))
  redact-AlikeItems _ _ e = absurd (cc e)

  redact-AlikeFields : (fs gs : Fields) → redact_fields fs ≡ redact_fields gs → AlikeFields fs gs
  redact-AlikeFields no_fields no_fields e = no_more_fields
  redact-AlikeFields (field j v fs) (field k w gs) e =
      let same : j ≡ k = cc e in
      let heads : (if hides j then redacted else redact v)
          ≡ (if hides k then redacted else redact w) =
        cc e in
      let rest = redact-AlikeFields fs gs (cc e) in
      subst (λ x. AlikeFields (field j v fs) (field x w gs)) same
        (fields-Alike j v w fs gs
          (subst
            (λ x.
              (if hides j then redacted else redact v) ≡ (if hides x then redacted else redact w))
            (sym same) heads)
          (redact-Alike v w) rest)
  redact-AlikeFields _ _ e = absurd (cc e)

-- Redaction hides just what stands under the hidden keys, at whatever depth: two values have the same
-- redaction exactly when they differ at most there.
pub redact-Alike_iff : (v w : Json) → (redact v ≡ redact w) ↔ Alike v w
redact-Alike_iff v w = (redact-Alike v w, Alike-redact)

mutual
  unfolding redact

  again : (v : Json) → redact (redact v) ≡ redact v
  again null = refl
  again (bool b) = refl
  again (number n) = refl
  again (text s) = refl
  again (array xs) = ap array (again_items xs)
  again (object fs) = ap object (again_fields fs)

  again_items : (xs : Items) → redact_items (redact_items xs) ≡ redact_items xs
  again_items no_items = refl
  again_items (item v xs) = rw (again v, again_items xs) refl

  again_fields : (fs : Fields) → redact_fields (redact_fields fs) ≡ redact_fields fs
  again_fields no_fields = refl
  again_fields (field k v fs) =
      let rest = again_fields fs in
      let v_again = again v in
      elim (Bool-cases (hides k)) [ inl h ↦ rw (h, rest) refl | inr h ↦ rw (h, v_again, rest) refl ]

-- A redacted value is its own redaction.
pub redact-redact : (v : Json) → redact (redact v) ≡ redact v
redact-redact v = again v
