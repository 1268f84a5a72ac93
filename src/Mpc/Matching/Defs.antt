-- ===== src/Mpc/Matching/Defs.antt =====
-- The grouping map and the two-pointer loop of `matchIntents`.
use shade.Shared.{
  ℕ, String, true, false, ◌||◌, Option, none, some, List, [], ◌∷◌, ◌++◌, ltb, member, ◌==◌,
  if◌then◌else◌, All,
}
use shade.Shared.Maps.{Assoc, get, put}
use shade.Mpc.Matching.AssetKey.{pair_key, split_key}

pub record Intent : Type 0 where
  pub intent_id : String
  pub amount7dp : ℕ
  pub input_asset : String
  pub output_asset : String

pub record MatchResult : Type 0 where
  pub intent_a_id : String
  pub intent_b_id : String
  pub matched_amount7dp : ℕ
  pub input_asset : String
  pub output_asset : String

-- `[...group].sort(cmp)`: what it returns holds nothing but elements of its argument.
pub record AmountSort : Type 1 where
  pub sort : List Intent → List Intent
  pub sort-All : (P : Intent → Type 0) (xs : List Intent) → All P xs → All P (sort xs)

abbrev pub matched : String × String → Intent → Intent → MatchResult
matched (input, output) a b = record {
  intent_a_id = a.intent_id;
  intent_b_id = b.intent_id;
  matched_amount7dp = if ltb a.amount7dp b.amount7dp then a.amount7dp else b.amount7dp;
  input_asset = input;
  output_asset = output;
}

-- The `while` loop over `sorted` and `reverseSorted`: the lists are what `ai` and `bi` have left.
unfoldable pub pair_up :
    String × String → List Intent → List Intent → List String → List MatchResult × List String
pair_up assets [] bs used = ([], used)
pair_up assets (a ∷ rest) [] used = ([], used)
pair_up assets (a ∷ rest) (b ∷ others) used = elim (member a.intent_id used) [
  | true ↦ pair_up assets rest (b ∷ others) used
  | false ↦ elim (member b.intent_id used || a.intent_id == b.intent_id) [
    | true ↦ pair_up assets (a ∷ rest) others used
    | false ↦
        let (found, after) = pair_up assets rest others (b.intent_id ∷ a.intent_id ∷ used) in
        (matched assets a b ∷ found, after)
  ]
]

abbrev pub or_empty {ℓ} : {A : Type ℓ} → Option (List A) → List A
or_empty none = []
or_empty (some xs) = xs

-- `groups.get(key)!.push(intent)`, on a new group if there is none.
unfoldable pub add_to_group : Assoc (List Intent) → Intent → Assoc (List Intent)
add_to_group groups i =
    let key = pair_key i.input_asset i.output_asset in
    put key (or_empty (get key groups) ++ i ∷ []) groups

unfoldable pub group_by_pair : Assoc (List Intent) → List Intent → Assoc (List Intent)
group_by_pair groups [] = groups
group_by_pair groups (i ∷ intents) = group_by_pair (add_to_group groups i) intents

-- The loop over `groups.entries()`; `used` is shared by all groups.
module _ (s : AmountSort) (groups : Assoc (List Intent)) where
  unfoldable pub match_group : String → List Intent → List String → List MatchResult × List String
  match_group key group used =
      let (input, output) = split_key key in
      elim (get (pair_key output input) groups) [
        | none ↦ ([], used)
        | some opposite ↦ pair_up (input, output) (s.sort group) (s.sort opposite) used
      ]

  unfoldable pub match_groups : Assoc (List Intent) → List String → List MatchResult × List String
  match_groups [] used = ([], used)
  match_groups ((key, group) ∷ entries) used =
      let (found, used') = match_group key group used in
      let (more, after) = match_groups entries used' in (found ++ more, after)

unfoldable pub match_intents : AmountSort → List Intent → List MatchResult
match_intents s intents =
    let groups = group_by_pair [] intents in (match_groups s groups groups []).0

-- The intents that a list of matches settles.
abbrev pub netted : List MatchResult → List String
netted [] = []
netted (m ∷ ms) = m.intent_a_id ∷ m.intent_b_id ∷ netted ms
