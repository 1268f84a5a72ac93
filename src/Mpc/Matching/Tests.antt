-- ===== src/Mpc/Matching/Tests.antt =====
-- Concrete runs of `matchIntents`, with an insertion sort for the engine's.
use shade.Shared.{
  ℕ, String, ◌≡◌, refl, List, [], ◌∷◌, Nodup, ltb, if◌then◌else◌, All, member, Bool-cases, inl, inr,
}
use shade.Shared.Maps.{get, put}
use shade.Mpc.Matching.AssetKey.{pair_key, split_key, has_bar}
use shade.Mpc.Matching.Defs.{
  Intent, AmountSort, pair_up, add_to_group, group_by_pair, match_group, match_groups,
  match_intents, netted,
}
use shade.Mpc.Matching.Disjoint.{match_intents-Nodup}
use shade.Mpc.Matching.Sound.{Nets, match_intents-Nets}

abbrev pub insert : Intent → List Intent → List Intent
insert i [] = i ∷ []
insert i (j ∷ js) = if ltb i.amount7dp j.amount7dp then i ∷ j ∷ js else j ∷ insert i js

abbrev pub sort : List Intent → List Intent
sort [] = []
sort (i ∷ is) = insert i (sort is)

insert-All :
    (P : Intent → Type 0) (i : Intent) (js : List Intent) → P i → All P js → All P (insert i js)
insert-All P i [] p h = (p, tt)
insert-All P i (j ∷ js) p h = elim (Bool-cases (ltb i.amount7dp j.amount7dp)) [
  | inl lower ↦ rw (lower, insert) (p, h)
  | inr higher ↦ rw (higher, insert) (h.0, insert-All P i js p h.1)
]

pub sort-All : (P : Intent → Type 0) (xs : List Intent) → All P xs → All P (sort xs)
sort-All P [] h = tt
sort-All P (x ∷ xs) h = insert-All P x (sort xs) h.0 (sort-All P xs h.1)

abbrev pub by_insertion : AmountSort
by_insertion = record { sort = sort; sort-All = sort-All }

abbrev pub offer : String → ℕ → String → String → Intent
offer id amount input output = record {
  intent_id = id;
  amount7dp = amount;
  input_asset = input;
  output_asset = output;
}

abbrev pub offers : List Intent
offers =
    offer "i1" 70 "USDC" "XLM"
    ∷ offer "i2" 50 "USDC" "XLM"
    ∷ offer "i3" 60 "XLM" "USDC"
    ∷ offer "i4" 5 "EURC" "EURC"
    ∷ offer "i5" 7 "EURC" "EURC"
    ∷ []

run : netted (match_intents by_insertion offers) ≡ "i2" ∷ "i3" ∷ "i4" ∷ "i5" ∷ []
unfolding match_intents match_groups match_group group_by_pair add_to_group pair_up pair_key
    split_key get put member
run = refl

match_intents-Nodup_example : Nodup (netted (match_intents by_insertion offers))
match_intents-Nodup_example = match_intents-Nodup by_insertion offers

match_intents-Nets_example : All (Nets offers) (match_intents by_insertion offers)
unfolding has_bar
match_intents-Nets_example =
    match_intents-Nets by_insertion offers
      ((refl, refl), ((refl, refl), ((refl, refl), ((refl, refl), ((refl, refl), tt)))))
