-- ===== src/Mpc/Matching/Disjoint.antt =====
-- No intent is settled twice by one run of `matchIntents`.
use mathlib.Core.List.{mem-cons, not-mem-nil, Nodup-nil, Nodup-cons}
use mathlib.Core.Logic.Or
use shade.Shared.{
  String, ◌≡◌, refl, sym, ap, ◌∙◌, subst, inl, inr, true, false, ◌||◌, List, [], ◌∷◌, ◌++◌, Mem,
  Nodup, arith, ◌==◌, eq_iff, member, Bool-cases, Option-cases, ne_of_test, or-false_left,
  or-false_right,
}
use shade.Shared.Maps.{Assoc, get}
use shade.Mpc.Matching.AssetKey.{pair_key, split_key}
use shade.Mpc.Matching.Defs.{
  Intent, MatchResult, AmountSort, pair_up, group_by_pair, match_group, match_groups, match_intents,
  netted,
}

-- Each match takes two different ids that are not used yet, and uses them.
abbrev Fresh : List String → List MatchResult → Type 0
Fresh used [] = Unit
Fresh used (m ∷ ms) =
    (member m.intent_a_id used ≡ false)
    × (member m.intent_b_id used ≡ false)
    × ((m.intent_a_id == m.intent_b_id) ≡ false)
    × Fresh (m.intent_b_id ∷ m.intent_a_id ∷ used) ms

abbrev mark : List String → List MatchResult → List String
mark used [] = used
mark used (m ∷ ms) = mark (m.intent_b_id ∷ m.intent_a_id ∷ used) ms

abbrev Takes : List String → List MatchResult × List String → Type 0
Takes used r = Fresh used r.0 × (r.1 ≡ mark used r.0)

pair_up-Takes :
    (assets : String × String) (xs ys : List Intent) (used : List String)
    → Takes used (pair_up assets xs ys used)
unfolding pair_up
pair_up-Takes assets [] bs used = (tt, refl)
pair_up-Takes assets (a ∷ rest) [] used = (tt, refl)
pair_up-Takes assets (a ∷ rest) (b ∷ others) used = elim (Bool-cases (member a.intent_id used)) [
  | inl spent ↦ rw (spent, pair_up) (pair_up-Takes assets rest (b ∷ others) used)
  | inr free ↦ elim (Bool-cases (member b.intent_id used || a.intent_id == b.intent_id)) [
    | inl skip ↦ rw (free, skip, pair_up) (pair_up-Takes assets (a ∷ rest) others used)
    | inr take ↦
        let ih = pair_up-Takes assets rest others (b.intent_id ∷ a.intent_id ∷ used) in
        rw (free, take, pair_up)
          (
            (free, or-false_left _ _ take, or-false_right (member b.intent_id used) _ take, ih.0),
            ih.1,
          )
  ]
]

Fresh-append :
    (used : List String) (ms ns : List MatchResult)
    → Fresh used ms
    → Fresh (mark used ms) ns
    → Fresh used (ms ++ ns)
Fresh-append used [] ns h k = k
Fresh-append used (m ∷ ms) ns h k = (h.0, h.1, h.2, Fresh-append _ ms ns h.3 k)

mark-append :
    (used : List String) (ms ns : List MatchResult) → mark used (ms ++ ns) ≡ mark (mark used ms) ns
mark-append used [] ns = refl
mark-append used (m ∷ ms) ns = mark-append _ ms ns

module _ (s : AmountSort) (groups : Assoc (List Intent)) where
  match_group-Takes :
      (key : String) (group : List Intent) (used : List String)
      → Takes used (match_group s groups key group used)
  unfolding match_group
  match_group-Takes key group used =
      elim (Option-cases (get (pair_key (split_key key).1 (split_key key).0) groups)) [
        | inl e ↦ rw (e, match_group) (tt, refl)
        | inr (opposite, e) ↦
            rw (e, match_group) (pair_up-Takes _ (s.sort group) (s.sort opposite) used)
      ]

  match_groups-Takes :
      (entries : Assoc (List Intent)) (used : List String)
      → Takes used (match_groups s groups entries used)
  unfolding match_groups
  match_groups-Takes [] used = (tt, refl)
  match_groups-Takes ((key, group) ∷ entries) used =
      let here = match_group-Takes key group used in
      let rest = match_groups-Takes entries (match_group s groups key group used).1 in
      let found = (match_group s groups key group used).0 in
      let more = (match_groups s groups entries (match_group s groups key group used).1).0 in
      (
        Fresh-append used found more here.0 (subst (λ u. Fresh u more) here.1 rest.0),
        rest.1 ∙ ap (λ u. mark u more) here.1 ∙ sym (mark-append used found more),
      )

-- What is used stays out of the matches that follow.
Fresh-avoids :
    (x : String) (used : List String) (ms : List MatchResult)
    → Fresh used ms
    → member x used ≡ true
    → ¬ (Mem x (netted ms))
unfolding member
Fresh-avoids x used [] h u m = not-mem-nil m
Fresh-avoids x used (k ∷ ms) h u m =
    Or.elim (λ p q. absurd p) (mem-cons.0 m) (λ e. ground (arith, ap (λ y. member y used) e))
      λ m'.
        Or.elim (λ p q. absurd p) (mem-cons.0 m') (λ e. ground (arith, ap (λ y. member y used) e))
          (Fresh-avoids x _ ms h.3 (ground arith))

Fresh-Nodup : (used : List String) (ms : List MatchResult) → Fresh used ms → Nodup (netted ms)
unfolding member
Fresh-Nodup used [] h = Nodup-nil
Fresh-Nodup used (m ∷ ms) h =
    let later = λ (x : String). Fresh-avoids x (m.intent_b_id ∷ m.intent_a_id ∷ used) ms h.3 in
    Nodup-cons.1 (
      λ e.
          Or.elim (λ p q. absurd p) (mem-cons.0 e) (ne_of_test _ _ h.2)
            (later m.intent_a_id (ground (arith, eq_iff m.intent_a_id m.intent_a_id))),
      Nodup-cons.1 (
        later m.intent_b_id (ground (arith, eq_iff m.intent_b_id m.intent_b_id)),
        Fresh-Nodup _ ms h.3,
      ),
    )

-- Whatever the intents and however the engine sorts them, no intent id occurs twice among the
-- ids that the matches of one run of `matchIntents` name: no intent is matched with itself, and
-- none is in two matches.
pub match_intents-Nodup :
    (s : AmountSort) (intents : List Intent) → Nodup (netted (match_intents s intents))
unfolding match_intents
match_intents-Nodup s intents =
    let groups = group_by_pair [] intents in
    Fresh-Nodup [] _ (match_groups-Takes s groups groups []).0
