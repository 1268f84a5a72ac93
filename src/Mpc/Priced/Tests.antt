-- ===== src/Mpc/Priced/Tests.antt =====
-- Concrete runs of the priced matching.
use shade.Shared.{◌≡◌, refl, List, [], ◌∷◌, some, arith, member}
use shade.Mpc.Priced.{
  PricedIntent, PricedMatch, returns, priced_match, check_rate, match_priced_pair, find_partner,
  match_priced_from, match_priced_intents,
}
use shade.Mpc.Priced.Pair.{Crosses}
use shade.Mpc.Priced.Greedy.{match_priced_intents-total}

abbrev seller : PricedIntent
seller = record {
  intent_id = "a";
  input_asset = "USDC";
  output_asset = "XLM";
  amount = 100;
  min_output = 150;
  limit_price_scaled = 2_000_000_000;
}

abbrev buyer : PricedIntent
buyer = record {
  intent_id = "b";
  input_asset = "XLM";
  output_asset = "USDC";
  amount = 200;
  min_output = 90;
  limit_price_scaled = 500_000_000;
}

abbrev nothing_to_sell : PricedIntent
nothing_to_sell = record seller { amount = 0; min_output = 0 }

abbrev nothing_to_buy : PricedIntent
nothing_to_buy = record buyer { amount = 0; min_output = 0 }

pair_returns : match_priced_pair seller buyer ≡ returns (some (priced_match seller buyer 200))
unfolding match_priced_pair check_rate
pair_returns = refl

run_returns :
    match_priced_intents (seller ∷ buyer ∷ []) ≡ returns (priced_match seller buyer 200 ∷ [])
unfolding match_priced_intents match_priced_from find_partner match_priced_pair check_rate member
run_returns = refl

zero_Crosses : Crosses nothing_to_sell nothing_to_buy
zero_Crosses = record {
  a_spends = refl;
  b_spends = refl;
  distinct = refl;
  full_fill = refl;
  a_min = omega arith;
  b_min = omega arith;
}

match_priced_intents-total_example :
    (ms : List PricedMatch) × (match_priced_intents (seller ∷ buyer ∷ []) ≡ returns ms)
match_priced_intents-total_example =
    match_priced_intents-total (seller ∷ buyer ∷ []) (omega arith, (omega arith, tt))
