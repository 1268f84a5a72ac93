-- ===== src/Vault/Gate.antt =====
-- What the gate against plaintext fields lets through.
use shade.Shared.{
  String, ◌≡◌, ◌↔◌, ◌⊎◌, refl, subst, inl, inr, true, false, Option, none, some, Bool-cases,
  Option-cases,
}
use shade.Vault.Json.{
  Json, null, bool, number, text, array, object, Items, no_items, item, Fields, no_fields, field,
  is_forbidden, or_else, forbidden_key, forbidden_item, forbidden_field,
}

-- A key of an object at any depth of a value.
mutual
  pub data Occurs : String → Json → Type 0 where
    in_array : {k : String} {xs : Items} → OccursItem k xs → Occurs k (array xs)
    in_object : {k : String} {fs : Fields} → OccursField k fs → Occurs k (object fs)

  pub data OccursItem : String → Items → Type 0 where
    here : {k : String} {v : Json} {xs : Items} → Occurs k v → OccursItem k (item v xs)
    there : {k : String} {v : Json} {xs : Items} → OccursItem k xs → OccursItem k (item v xs)

  pub data OccursField : String → Fields → Type 0 where
    key : {k : String} {v : Json} {fs : Fields} → OccursField k (field k v fs)
    inside : {k j : String} {v : Json} {fs : Fields} → Occurs k v → OccursField k (field j v fs)
    later :
        {k j : String} {v : Json} {fs : Fields} → OccursField k fs → OccursField k (field j v fs)

or_else-none : (a b : Option String) → or_else a b ≡ none → (a ≡ none) × (b ≡ none)
or_else-none none b h = (refl, h)
or_else-none (some k) b h = absurd (cc h)

or_else-some :
    (a b : Option String) (k : String) → or_else a b ≡ some k → (a ≡ some k) ⊎ (b ≡ some k)
or_else-some none b k h = inr h
or_else-some (some j) b k h = inl h

field_none :
    (j : String) (v : Json) (fs : Fields)
    → forbidden_field (field j v fs) ≡ none
    → (is_forbidden j ≡ false) × (forbidden_key v ≡ none) × (forbidden_field fs ≡ none)
unfolding forbidden_key
field_none j v fs h = elim (Bool-cases (is_forbidden j)) [
  | inl bad ↦ absurd (cc (rw bad at h))
  | inr fine ↦
      let (v_passes, rest) = or_else-none (forbidden_key v) (forbidden_field fs) (rw fine at h) in
      (fine, v_passes, rest)
]

-- Where the walk passes, no key that occurs is forbidden.
mutual
  unfolding forbidden_key

  passes : (v : Json) (k : String) → forbidden_key v ≡ none → Occurs k v → is_forbidden k ≡ false
  passes null k h o = elim o [ ]
  passes (bool b) k h o = elim o [ ]
  passes (number n) k h o = elim o [ ]
  passes (text s) k h o = elim o [ ]
  passes (array xs) k h (in_array o) = passes_items xs k h o
  passes (object fs) k h (in_object o) = passes_fields fs k h o

  passes_items :
      (xs : Items) (k : String)
      → forbidden_item xs ≡ none
      → OccursItem k xs
      → is_forbidden k ≡ false
  passes_items no_items k h o = elim o [ ]
  passes_items (item v xs) k h (here o) = passes v k (or_else-none _ _ h).0 o
  passes_items (item v xs) k h (there o) = passes_items xs k (or_else-none _ _ h).1 o

  passes_fields :
      (fs : Fields) (k : String)
      → forbidden_field fs ≡ none
      → OccursField k fs
      → is_forbidden k ≡ false
  passes_fields no_fields k h o = elim o [ ]
  passes_fields (field j v fs) k h key = (field_none j v fs h).0
  passes_fields (field j v fs) k h (inside o) = passes v k (field_none j v fs h).1 o
  passes_fields (field j v fs) k h (later o) = passes_fields fs k (field_none j v fs h).2 o

-- Where the walk ends with a key, that key occurs and is forbidden.
abbrev Found : (String → Type 0) → Option String → Type 0
Found P o = (k : String) → o ≡ some k → P k × (is_forbidden k ≡ true)

found_field :
    (j : String) (v : Json) (fs : Fields)
    → Found (λ k. Occurs k v) (forbidden_key v)
    → Found (λ k. OccursField k fs) (forbidden_field fs)
    → Found (λ k. OccursField k (field j v fs)) (forbidden_field (field j v fs))
unfolding forbidden_key
found_field j v fs first rest k h = elim (Bool-cases (is_forbidden j)) [
  | inl bad ↦
      let same : j ≡ k = cc (rw bad at h) in
      subst (λ x. OccursField x (field j v fs) × (is_forbidden x ≡ true)) same (key, bad)
  | inr fine ↦ elim (or_else-some (forbidden_key v) (forbidden_field fs) k (rw fine at h)) [
    | inl e ↦ (inside (first k e).0, (first k e).1)
    | inr e ↦ (later (rest k e).0, (rest k e).1)
  ]
]

mutual
  unfolding forbidden_key

  found : (v : Json) → Found (λ k. Occurs k v) (forbidden_key v)
  found null k h = absurd (cc h)
  found (bool b) k h = absurd (cc h)
  found (number n) k h = absurd (cc h)
  found (text s) k h = absurd (cc h)
  found (array xs) k h = (in_array (found_items xs k h).0, (found_items xs k h).1)
  found (object fs) k h = (in_object (found_fields fs k h).0, (found_fields fs k h).1)

  found_items : (xs : Items) → Found (λ k. OccursItem k xs) (forbidden_item xs)
  found_items no_items k h = absurd (cc h)
  found_items (item v xs) k h = elim (or_else-some (forbidden_key v) (forbidden_item xs) k h) [
    | inl e ↦ (here (found v k e).0, (found v k e).1)
    | inr e ↦ (there (found_items xs k e).0, (found_items xs k e).1)
  ]

  found_fields : (fs : Fields) → Found (λ k. OccursField k fs) (forbidden_field fs)
  found_fields no_fields k h = absurd (cc h)
  found_fields (field j v fs) k h = found_field j v fs (found v) (found_fields fs) k h

-- The gate lets a value through exactly when no key of any object in it, at whatever depth and through
-- whatever arrays, is one of the forbidden names; and the key that its error names is such a key.
pub forbidden_key_iff :
    (v : Json)
    → ((forbidden_key v ≡ none) ↔ ((k : String) → Occurs k v → is_forbidden k ≡ false))
      × ((k : String) → forbidden_key v ≡ some k → Occurs k v × (is_forbidden k ≡ true))
forbidden_key_iff v = (
  (
    λ h k o. passes v k h o,
    λ clean. elim (Option-cases (forbidden_key v)) [
      | inl e ↦ e
      | inr (k, e) ↦ absurd (cc (clean k (found v k e).0, (found v k e).1))
    ],
  ),
  found v,
)
