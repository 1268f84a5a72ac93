-- ===== src/Mpc/Priced.antt =====
-- apps/mpc-committee/src/coordinator.ts: `matchPricedPair` and `matchPricedIntents`, the
-- cross-asset matching at a fixed price. Amounts are unsigned. A `bigint` division by zero throws
-- a RangeError, which is the constructor `range_error`.
pub mod Pair
pub mod Greedy
pub mod Tests
use shade.Shared.{
  ℕ, ◌+◌, ◌*◌, ◌/◌, String, Bool, true, false, not, ◌||◌, List, [], ◌∷◌, Option, none, some, ltb,
  nat_eq, member, ◌==◌, if◌then◌else◌,
}

abbrev pub price_scale : ℕ
price_scale = 1_000_000_000

pub record PricedIntent : Type 0 where
  pub intent_id : String
  pub input_asset : String
  pub output_asset : String
  pub amount : ℕ
  pub min_output : ℕ
  pub limit_price_scaled : ℕ

pub record PricedMatch : Type 0 where
  pub intent_a_id : String
  pub intent_b_id : String
  pub input_asset_a : String
  pub output_asset_a : String
  pub input_asset_b : String
  pub output_asset_b : String
  pub matched_amount_a : ℕ
  pub matched_amount_b : ℕ
  pub price_scaled : ℕ
  pub min_output_a : ℕ
  pub min_output_b : ℕ

pub data Outcome {ℓ} (A : Type ℓ) : Type ℓ where
  returns : A → Outcome A
  range_error : Outcome A

abbrev priced_match : PricedIntent → PricedIntent → ℕ → PricedMatch
priced_match a b output_for_a = record {
  intent_a_id = a.intent_id;
  intent_b_id = b.intent_id;
  input_asset_a = a.input_asset;
  output_asset_a = a.output_asset;
  input_asset_b = b.input_asset;
  output_asset_b = b.output_asset;
  matched_amount_a = a.amount;
  matched_amount_b = output_for_a;
  price_scaled = a.limit_price_scaled;
  min_output_a = a.min_output;
  min_output_b = b.min_output;
}

-- The last guard, whose `bigint` division throws at a zero divisor.
check_rate : PricedIntent → PricedIntent → ℕ → ℕ → Outcome (Option PricedMatch)
check_rate a b output_for_a output_for_b =
    if nat_eq b.amount 0
    then range_error
    else if ltb (output_for_b * price_scale / b.amount) b.limit_price_scaled
    then returns none
    else returns (some (priced_match a b output_for_a))

pub match_priced_pair : PricedIntent → PricedIntent → Outcome (Option PricedMatch)
unfolding check_rate
match_priced_pair a b =
    if not (a.input_asset == b.output_asset)
    then returns none
    else if not (a.output_asset == b.input_asset)
    then returns none
    else if a.input_asset == a.output_asset
    then returns none
    else let output_for_a = a.amount * a.limit_price_scaled / price_scale in
      let output_for_b = a.amount in
      if not (nat_eq b.amount output_for_a)
      then returns none
      else if ltb output_for_a a.min_output
      then returns none
      else if ltb output_for_b b.min_output
      then returns none
      else check_rate a b output_for_a output_for_b

-- The inner loop for intent `i` of `matchPricedIntents`: the first partner that crosses. `k` is
-- the index `j` of the head of the list.
pub find_partner :
    ℕ → PricedIntent → List String → ℕ → List PricedIntent → Outcome (Option PricedMatch)
find_partner i a used k [] = returns none
find_partner i a used k (b ∷ rest) =
    let later = find_partner i a used (k + 1) rest in
    if nat_eq i k || member b.intent_id used || member a.intent_id used
    then later
    else elim (match_priced_pair a b) [
      | range_error ↦ range_error
      | returns none ↦ later
      | returns (some m) ↦ returns (some m)
    ]

-- A match in front of those that the rest of the loop finds, if it does not throw.
abbrev with_match : PricedMatch → Outcome (List PricedMatch) → Outcome (List PricedMatch)
with_match m range_error = range_error
with_match m (returns ms) = returns (m ∷ ms)

-- The outer loop: `i` is the index of the head of the list, `all` the whole array.
pub match_priced_from :
    List PricedIntent → ℕ → List PricedIntent → List String → Outcome (List PricedMatch)
match_priced_from all i [] used = returns []
match_priced_from all i (a ∷ rest) used = elim (member a.intent_id used) [
  | true ↦ match_priced_from all (i + 1) rest used
  | false ↦ elim (find_partner i a used 0 all) [
    | range_error ↦ range_error
    | returns none ↦ match_priced_from all (i + 1) rest used
    | returns (some m) ↦
        with_match m (match_priced_from all (i + 1) rest (m.intent_b_id ∷ m.intent_a_id ∷ used))
  ]
]

pub match_priced_intents : List PricedIntent → Outcome (List PricedMatch)
unfolding match_priced_from find_partner match_priced_pair
match_priced_intents intents = match_priced_from intents 0 intents []
