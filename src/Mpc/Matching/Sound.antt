-- ===== src/Mpc/Matching/Sound.antt =====
-- What a match of `matchIntents` says of the two intents that it names.
use shade.Shared.{
  ◌≤◌, String, ◌≡◌, refl, sym, ap, ◌∙◌, subst, inl, inr, ◌⊎◌, false, ◌||◌, some, List, [], ◌∷◌, Mem,
  arith, ◌==◌, eq_iff, member, Bool-cases, Option-cases, All, All-append, All-map, All-Mem, All-×,
}
use shade.Shared.Maps.{Assoc, get, put}
use shade.Mpc.Matching.AssetKey.{pair_key, split_key, has_bar, split_key-pair_key}
use shade.Mpc.Matching.Defs.{
  Intent, MatchResult, AmountSort, pair_up, add_to_group, group_by_pair, match_group, match_groups,
  match_intents, matched, or_empty,
}

abbrev Matches : (P Q : Intent → Type 0) → String × String → MatchResult → Type 0
Matches P Q assets m = (a : Intent) × (b : Intent) × P a × Q b × (m ≡ matched assets a b)

pair_up-Matches :
    (P Q : Intent → Type 0) (assets : String × String) (xs ys : List Intent) (used : List String)
    → All P xs
    → All Q ys
    → All (Matches P Q assets) (pair_up assets xs ys used).0
unfolding pair_up
pair_up-Matches P Q assets [] ys used hx hy = tt
pair_up-Matches P Q assets (a ∷ rest) [] used hx hy = tt
pair_up-Matches P Q assets (a ∷ rest) (b ∷ others) used hx hy =
    elim (Bool-cases (member a.intent_id used)) [
      | inl spent ↦ rw (spent, pair_up) (pair_up-Matches P Q assets rest (b ∷ others) used hx.1 hy)
      | inr free ↦ elim (Bool-cases (member b.intent_id used || a.intent_id == b.intent_id)) [
        | inl skip ↦
            rw (free, skip, pair_up) (pair_up-Matches P Q assets (a ∷ rest) others used hx hy.1)
        | inr take ↦
            rw (free, take, pair_up)
              ((a, b, hx.0, hy.0, refl), pair_up-Matches P Q assets rest others _ hx.1 hy.1)
      ]
    ]

abbrev InGroup : (Intent → Type 0) → String → Intent → Type 0
InGroup P key i = P i × (pair_key i.input_asset i.output_asset ≡ key)

abbrev Grouped : (Intent → Type 0) → Assoc (List Intent) → Type 0
Grouped P = All (λ e. All (InGroup P e.0) e.1)

get-Grouped :
    (P : Intent → Type 0) (groups : Assoc (List Intent)) (key : String) (group : List Intent)
    → Grouped P groups
    → get key groups ≡ some group
    → All (InGroup P key) group
unfolding get
get-Grouped P [] key group h e = cc
get-Grouped P ((k, g) ∷ groups) key group h e = elim (Bool-cases (k == key)) [
  | inl hit ↦
      let same : g ≡ group = ground arith in
      subst (λ x. All (InGroup P x) group) ((eq_iff k key).0 hit)
        (subst (All (InGroup P k)) same h.0)
  | inr miss ↦ get-Grouped P groups key group h.1 (ground arith)
]

put-Grouped :
    (P : Intent → Type 0) (groups : Assoc (List Intent)) (key : String) (group : List Intent)
    → Grouped P groups
    → All (InGroup P key) group
    → Grouped P (put key group groups)
unfolding put
put-Grouped P [] key group h g = (g, tt)
put-Grouped P ((k, old) ∷ groups) key group h g = elim (Bool-cases (k == key)) [
  | inl hit ↦
      rw (hit, put) (subst (λ x. All (InGroup P x) group) (sym ((eq_iff k key).0 hit)) g, h.1)
  | inr miss ↦ rw (miss, put) (h.0, put-Grouped P groups key group h.1 g)
]

add_to_group-Grouped :
    (P : Intent → Type 0) (groups : Assoc (List Intent)) (i : Intent)
    → Grouped P groups
    → P i
    → Grouped P (add_to_group groups i)
unfolding add_to_group
add_to_group-Grouped P groups i h p =
    let key = pair_key i.input_asset i.output_asset in
    put-Grouped P groups key _ h (
      All-append (InGroup P key) (or_empty (get key groups)) (i ∷ [])
        (elim (Option-cases (get key groups)) [
          | inl e ↦ rw e tt
          | inr (group, e) ↦ rw e (get-Grouped P groups key group h e)
        ])
        ((p, refl), tt))

group_by_pair-Grouped :
    (P : Intent → Type 0) (groups : Assoc (List Intent)) (intents : List Intent)
    → Grouped P groups
    → All P intents
    → Grouped P (group_by_pair groups intents)
unfolding group_by_pair
group_by_pair-Grouped P groups [] h p = h
group_by_pair-Grouped P groups (i ∷ intents) h p =
    group_by_pair-Grouped P (add_to_group groups i) intents (add_to_group-Grouped P groups i h p.0)
      p.1

module _ (P : Intent → Type 0) (s : AmountSort) (groups : Assoc (List Intent)) where
  -- A match lies between an intent of one group and an intent of the reverse group.
  abbrev Crosses : MatchResult → Type 0
  Crosses m =
      (key : String) × Matches (InGroup P key)
        (InGroup P (pair_key (split_key key).1 (split_key key).0)) (split_key key) m

  match_group-Crosses :
      (key : String) (group : List Intent) (used : List String)
      → Grouped P groups
      → All (InGroup P key) group
      → All Crosses (match_group s groups key group used).0
  unfolding match_group
  match_group-Crosses key group used ok h =
      let back = pair_key (split_key key).1 (split_key key).0 in
      elim (Option-cases (get back groups)) [
        | inl e ↦ rw (e, match_group) tt
        | inr (opposite, e) ↦
            rw (e, match_group)
              (All-map (Matches (InGroup P key) (InGroup P back) (split_key key)) Crosses
                (λ m c. (key, c)) (pair_up (split_key key) (s.sort group) (s.sort opposite) used).0
                (pair_up-Matches (InGroup P key) (InGroup P back) (split_key key) (s.sort group)
                  (s.sort opposite) used (s.sort-All (InGroup P key) group h)
                  (s.sort-All (InGroup P back) opposite (get-Grouped P groups back opposite ok e))))
      ]

  match_groups-Crosses :
      (entries : Assoc (List Intent)) (used : List String)
      → Grouped P groups
      → Grouped P entries
      → All Crosses (match_groups s groups entries used).0
  unfolding match_groups
  match_groups-Crosses [] used ok h = tt
  match_groups-Crosses ((key, group) ∷ entries) used ok h =
      All-append Crosses (match_group s groups key group used).0 _
        (match_group-Crosses key group used ok h.0)
        (match_groups-Crosses entries (match_group s groups key group used).1 ok h.1)

-- The names of its assets can be told apart in a group key.
abbrev pub IsPlain : Intent → Type 0
IsPlain i = (has_bar i.input_asset ≡ false) × (has_bar i.output_asset ≡ false)

-- What settling `m` means for two intents of `intents`.
pub record Nets (intents : List Intent) (m : MatchResult) : Type 0 where
  pub a : Intent
  pub b : Intent
  pub a_offered : Mem a intents
  pub b_offered : Mem b intents
  pub ids : (m.intent_a_id ≡ a.intent_id) × (m.intent_b_id ≡ b.intent_id)
  pub a_assets : (a.input_asset ≡ m.input_asset) × (a.output_asset ≡ m.output_asset)
  pub b_assets : (b.input_asset ≡ m.output_asset) × (b.output_asset ≡ m.input_asset)
  pub within : (m.matched_amount7dp ≤ a.amount7dp) × (m.matched_amount7dp ≤ b.amount7dp)
  pub full : (m.matched_amount7dp ≡ a.amount7dp) ⊎ (m.matched_amount7dp ≡ b.amount7dp)

split_of_key :
    (i : Intent) (key : String)
    → IsPlain i
    → pair_key i.input_asset i.output_asset ≡ key
    → split_key key ≡ (i.input_asset, i.output_asset)
split_of_key i key p e = rw (← e) (split_key-pair_key i.input_asset i.output_asset p.0 p.1)

abbrev Offered : List Intent → Intent → Type 0
Offered intents i = Mem i intents × IsPlain i

-- The reverse group of an intent holds the intents of the opposite assets.
opposite_assets :
    (a b : Intent) (key : String)
    → IsPlain a
    → IsPlain b
    → pair_key a.input_asset a.output_asset ≡ key
    → pair_key b.input_asset b.output_asset ≡ pair_key (split_key key).1 (split_key key).0
    → (b.input_asset ≡ a.output_asset) × (b.output_asset ≡ a.input_asset)
opposite_assets a b key pa pb ea eb =
    let sa = split_of_key a key pa ea in
    let back : pair_key (split_key key).1 (split_key key).0
        ≡ pair_key a.output_asset a.input_asset =
      ap (λ (p : String × String). pair_key p.1 p.0) sa in
    let both : ◌≡◌ {A = String × String} (b.input_asset, b.output_asset)
        (a.output_asset, a.input_asset) =
      sym (split_of_key b _ pb (eb ∙ back))
      ∙ split_key-pair_key a.output_asset a.input_asset pa.1 pa.0 in
    (ap (λ (p : String × String). p.0) both, ap (λ (p : String × String). p.1) both)

Crosses-Nets :
    (s : AmountSort) (groups : Assoc (List Intent)) (intents : List Intent) (m : MatchResult)
    → Crosses (Offered intents) s groups m
    → Nets intents m
Crosses-Nets s groups intents m (key, (a, b, ga, gb, e)) =
    let sa = split_of_key a key ga.0.1 ga.1 in
    let sb = opposite_assets a b key ga.0.1 gb.0.1 ga.1 gb.1 in
    let input : m.input_asset ≡ a.input_asset =
      ap (λ (r : MatchResult). r.input_asset) e ∙ ap (λ (p : String × String). p.0) sa in
    let output : m.output_asset ≡ a.output_asset =
      ap (λ (r : MatchResult). r.output_asset) e ∙ ap (λ (p : String × String). p.1) sa in
    record {
      a = a;
      b = b;
      a_offered = ga.0.0;
      b_offered = gb.0.0;
      ids = (ap (λ (r : MatchResult). r.intent_a_id) e, ap (λ (r : MatchResult). r.intent_b_id) e);
      a_assets = (sym input, sym output);
      b_assets = (sb.0 ∙ sym output, sb.1 ∙ sym input);
      within = ground arith;
      full = ground arith;
    }

-- If no asset name holds the bar of the group keys, every match of `matchIntents` names two of the
-- given intents, the second of which offers what the first wants and the other way round; the
-- match's assets are those of the first, and its amount is the smaller of the two amounts: at most
-- either, and equal to one.
pub match_intents-Nets :
    (s : AmountSort) (intents : List Intent)
    → All IsPlain intents
    → All (Nets intents) (match_intents s intents)
unfolding match_intents
match_intents-Nets s intents plain =
    let groups = group_by_pair [] intents in
    let ok =
      group_by_pair-Grouped (Offered intents) [] intents tt
        (All-× (λ i. Mem i intents) IsPlain intents (All-Mem intents) plain) in
    All-map (Crosses (Offered intents) s groups) (Nets intents) (Crosses-Nets s groups intents)
      (match_groups s groups groups []).0
      (match_groups-Crosses (Offered intents) s groups groups [] ok ok)
