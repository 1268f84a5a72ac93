-- ===== src/Mpc/Priced/Greedy.antt =====
-- The greedy loops of `matchPricedIntents`.
use shade.Shared.{
  ℕ, ◌+◌, ◌<◌, String, ◌≡◌, refl, ap, ◌∙◌, ◌≢◌, inl, inr, Bool, true, false, ◌||◌, List, [], ◌∷◌,
  none, some, Mem, arith, nat_eq, member, eq_iff, Bool-cases, All, All-Mem,
}
use shade.Mpc.Priced.{
  PricedIntent, PricedMatch, Outcome, returns, range_error, match_priced_pair, find_partner,
  with_match, match_priced_from, match_priced_intents,
}
use shade.Mpc.Priced.Pair.{Crosses, match_priced_pair-some, match_priced_pair-throws}

abbrev Partner : (PricedIntent → Type 0) → PricedIntent → List String → PricedMatch → Type 0
Partner P a used m =
    (b : PricedIntent) × P b
    × (match_priced_pair a b ≡ returns (some m))
    × (member b.intent_id used ≡ false)

find_partner-Partner :
    (P : PricedIntent → Type 0) (i : ℕ) (a : PricedIntent) (used : List String) (k : ℕ)
    (bs : List PricedIntent) (m : PricedMatch)
    → All P bs
    → find_partner i a used k bs ≡ returns (some m)
    → Partner P a used m
unfolding find_partner
find_partner-Partner P i a used k [] m h e = cc
find_partner-Partner P i a used k (b ∷ rest) m h e =
    let later = find_partner-Partner P i a used (k + 1) rest m h.1 in
    elim (Bool-cases (nat_eq i k || member b.intent_id used || member a.intent_id used)) [
      | inl skip ↦ later (rw (skip, find_partner) at e)
      | inr tried ↦ try (match_priced_pair a b) refl tried later
    ]
  where
    try :
        (r : Outcome _)
        → match_priced_pair a b ≡ r
        → (nat_eq i k || member b.intent_id used || member a.intent_id used) ≡ false
        → (find_partner i a used (k + 1) rest ≡ returns (some m) → Partner P a used m)
        → Partner P a used m
    try range_error p tried later = absurd (ground arith)
    try (returns none) p tried later = later (ground arith)
    try (returns (some n)) p tried later = (b, h.0, ground arith, ground arith)

-- `m` is what the pair test makes of two of the intents.
abbrev pub Made : (PricedIntent → Type 0) → PricedMatch → Type 0
Made P m =
    (a : PricedIntent) × (b : PricedIntent) × P a × P b × (match_priced_pair a b ≡ returns (some m))

abbrev Good : (PricedIntent → Type 0) → List String → List PricedMatch → Type 0
Good P used [] = Unit
Good P used (m ∷ ms) =
    Made P m
    × (member m.intent_a_id used ≡ false)
    × (member m.intent_b_id used ≡ false)
    × Good P (m.intent_b_id ∷ m.intent_a_id ∷ used) ms

with_match-returns :
    (m : PricedMatch) (r : Outcome (List PricedMatch)) (ms : List PricedMatch)
    → with_match m r ≡ returns ms
    → (rest : List PricedMatch) × (r ≡ returns rest) × (ms ≡ m ∷ rest)
with_match-returns m range_error ms e = absurd (ground arith)
with_match-returns m (returns rest) ms e = (rest, refl, ground arith)

match_ids :
    (a b : PricedIntent) (m : PricedMatch)
    → match_priced_pair a b ≡ returns (some m)
    → (m.intent_a_id ≡ a.intent_id) × (m.intent_b_id ≡ b.intent_id)
match_ids a b m e =
    let made = ((match_priced_pair-some a b m).0 e).3 in
    (ap (λ (x : PricedMatch). x.intent_a_id) made, ap (λ (x : PricedMatch). x.intent_b_id) made)

module _ (P : PricedIntent → Type 0) (whole : List PricedIntent) (h : All P whole) where
  found_first :
      (a : PricedIntent) (used : List String) (m : PricedMatch) (ms : List PricedMatch)
      → P a
      → member a.intent_id used ≡ false
      → Partner P a used m
      → Good P (m.intent_b_id ∷ m.intent_a_id ∷ used) ms
      → Good P used (m ∷ ms)
  found_first a used m ms pa free (b, pb, made, free') good =
      let ids = match_ids a b m made in
      (
        (a, b, pa, pb, made),
        ap (λ (x : String). member x used) ids.0 ∙ free,
        ap (λ (x : String). member x used) ids.1 ∙ free',
        good,
      )

  match_priced_from-Good :
      (i : ℕ) (rest : List PricedIntent) (used : List String) (ms : List PricedMatch)
      → All P rest
      → match_priced_from whole i rest used ≡ returns ms
      → Good P used ms
  unfolding match_priced_from
  match_priced_from-Good i [] used ms hr e = subst_nil ms (ground arith)
    where
      subst_nil : (ns : List PricedMatch) → ns ≡ [] → Good P used ns
      subst_nil [] p = tt
      subst_nil (n ∷ ns) p = cc
  match_priced_from-Good i (a ∷ rest) used ms hr e =
      split (member a.intent_id used) (find_partner i a used 0 whole) refl refl
        (match_priced_from-Good (i + 1) rest)
    where
      split :
          (spent : Bool) (r : Outcome _)
          → member a.intent_id used ≡ spent
          → find_partner i a used 0 whole ≡ r
          → ((used' : List String) (ns : List PricedMatch)
              → All P rest
              → match_priced_from whole (i + 1) rest used' ≡ returns ns
              → Good P used' ns)
          → Good P used ms
      split true r p q later = later used ms hr.1 (rw (p, match_priced_from) at e)
      split false range_error p q later = absurd (ground arith)
      split false (returns none) p q later = later used ms hr.1 (rw (p, q, match_priced_from) at e)
      split false (returns (some m)) p q later =
          let (ns, e', shape) = with_match-returns m _ ms (rw (p, q, match_priced_from) at e) in
          rw shape (
            found_first a used m ns hr.0 p (find_partner-Partner P i a used 0 whole m h q)
              (later _ ns hr.1 e'))

-- No intent of `m` is an intent of `n`.
abbrev pub Apart : PricedMatch → PricedMatch → Type 0
Apart m n =
    (m.intent_a_id ≢ n.intent_a_id)
    × (m.intent_a_id ≢ n.intent_b_id)
    × (m.intent_b_id ≢ n.intent_a_id)
    × (m.intent_b_id ≢ n.intent_b_id)

abbrev pub AllApart : List PricedMatch → Type 0
AllApart [] = Unit
AllApart (m ∷ ms) = All (Apart m) ms × AllApart ms

unused_ne :
    (x y : String) (used : List String) → member x used ≡ true → member y used ≡ false → x ≢ y
unused_ne x y used u v e = cc (ap (λ (z : String). member z used) e)

Good-Apart :
    (P : PricedIntent → Type 0) (m : PricedMatch) (used : List String) (ms : List PricedMatch)
    → member m.intent_a_id used ≡ true
    → member m.intent_b_id used ≡ true
    → Good P used ms
    → All (Apart m) ms
unfolding member
Good-Apart P m used [] ua ub g = tt
Good-Apart P m used (n ∷ ms) ua ub g = (
  (
    unused_ne _ _ used ua g.1,
    unused_ne _ _ used ua g.2,
    unused_ne _ _ used ub g.1,
    unused_ne _ _ used ub g.2,
  ),
  Good-Apart P m (n.intent_b_id ∷ n.intent_a_id ∷ used) ms (ground arith) (ground arith) g.3,
)

Good-Settled :
    (P : PricedIntent → Type 0) (used : List String) (ms : List PricedMatch)
    → Good P used ms
    → All (Made P) ms × AllApart ms
unfolding member
Good-Settled P used [] g = (tt, tt)
Good-Settled P used (m ∷ ms) g =
    let used' = m.intent_b_id ∷ m.intent_a_id ∷ used in
    let rest = Good-Settled P used' ms g.3 in
    (
      (g.0, rest.0),
      (
        Good-Apart P m used' ms (ground (arith, eq_iff m.intent_a_id m.intent_a_id))
            (ground (arith, eq_iff m.intent_b_id m.intent_b_id)) g.3,
        rest.1,
      ),
    )

-- Where `matchPricedIntents` returns, every match that it returns is the one that
-- `matchPricedPair` makes of two of the given intents, and no two matches share an intent id.
pub match_priced_intents-Made :
    (intents : List PricedIntent) (ms : List PricedMatch)
    → match_priced_intents intents ≡ returns ms
    → All (Made (λ i. Mem i intents)) ms × AllApart ms
unfolding match_priced_intents
match_priced_intents-Made intents ms e =
    Good-Settled (λ i. Mem i intents) [] ms
      (match_priced_from-Good (λ i. Mem i intents) intents (All-Mem intents) 0 intents [] ms
        (All-Mem intents) e)

abbrev pub Spends : PricedIntent → Type 0
Spends i = 0 < i.amount

find_partner-returns :
    (i : ℕ) (a : PricedIntent) (used : List String) (k : ℕ) (bs : List PricedIntent)
    → All Spends bs
    → find_partner i a used k bs ≢ range_error
unfolding find_partner
find_partner-returns i a used k [] h e = cc
find_partner-returns i a used k (b ∷ rest) h e =
    let later = find_partner-returns i a used (k + 1) rest h.1 in
    let throws =
      λ (x : match_priced_pair a b ≡ range_error). ((match_priced_pair-throws a b).0 x).1 in
    split (match_priced_pair a b) refl later throws
  where
    split :
        (r : Outcome _)
        → match_priced_pair a b ≡ r
        → find_partner i a used (k + 1) rest ≢ range_error
        → (match_priced_pair a b ≡ range_error → b.amount ≡ 0)
        → ⊥
    split range_error p later throws = let zero = throws p in let pos = h.0 in omega arith
    split (returns none) p later throws = ground arith
    split (returns (some m)) p later throws = ground arith

with_match-total :
    (m : PricedMatch) (r : Outcome (List PricedMatch))
    → (ms : List PricedMatch) × (r ≡ returns ms)
    → (ms : List PricedMatch) × (with_match m r ≡ returns ms)
with_match-total m r (ms, e) = (m ∷ ms, rw e)

match_priced_from-total :
    (whole : List PricedIntent)
    → All Spends whole
    → (i : ℕ) (rest : List PricedIntent) (used : List String)
    → (ms : List PricedMatch) × (match_priced_from whole i rest used ≡ returns ms)
unfolding match_priced_from
match_priced_from-total whole h i [] used = ([], refl)
match_priced_from-total whole h i (a ∷ rest) used =
    split (member a.intent_id used) (find_partner i a used 0 whole) refl refl
      (match_priced_from-total whole h (i + 1) rest)
  where
    split :
        (spent : Bool) (r : Outcome _)
        → member a.intent_id used ≡ spent
        → find_partner i a used 0 whole ≡ r
        → ((used' : List String)
            → (ms : List PricedMatch) × (match_priced_from whole (i + 1) rest used' ≡ returns ms))
        → (ms : List PricedMatch) × (match_priced_from whole i (a ∷ rest) used ≡ returns ms)
    split true r p q later = rw (p, match_priced_from) (later used)
    split false range_error p q later = absurd (find_partner-returns i a used 0 whole h q)
    split false (returns none) p q later = rw (p, q, match_priced_from) (later used)
    split false (returns (some m)) p q later =
        rw (p, q, match_priced_from)
          (with_match-total m _ (later (m.intent_b_id ∷ m.intent_a_id ∷ used)))

-- If every intent spends a positive amount, `matchPricedIntents` returns.
pub match_priced_intents-total :
    (intents : List PricedIntent)
    → All Spends intents
    → (ms : List PricedMatch) × (match_priced_intents intents ≡ returns ms)
unfolding match_priced_intents
match_priced_intents-total intents h = match_priced_from-total intents h 0 intents []

-- Two intents in front that cross with nothing to pay make the whole run throw, whatever the other
-- intents are: no pair is matched.
pub match_priced_intents-throws :
    (a b : PricedIntent) (rest : List PricedIntent)
    → Crosses a b
    → b.amount ≡ 0
    → match_priced_intents (a ∷ b ∷ rest) ≡ range_error
unfolding match_priced_intents match_priced_from find_partner member
match_priced_intents-throws a b rest c z =
    let throws : match_priced_pair a b ≡ range_error = (match_priced_pair-throws a b).1 (c, z) in
    ground arith
