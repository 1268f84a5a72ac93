-- ===== src/Mpc/Priced/Pair.antt =====
-- When a pair of priced intents crosses, and what each side then gives and gets.
use native.Mathlib.Nat.{le-div_iff_mul-le}
use shade.Shared.{
  ◌*◌, ◌/◌, ◌≤◌, ◌<◌, ◌≡◌, sym, ap, ◌∙◌, ◌↔◌, ◌⊎◌, false, none, some, arith, ◌==◌, eq_iff, inl, inr,
}
use shade.Mpc.Priced.{
  PricedIntent, PricedMatch, returns, range_error, price_scale, priced_match, check_rate,
  match_priced_pair,
}

-- The terms on which `a` and `b` trade all that they spend, in exact products.
pub record Crosses (a b : PricedIntent) : Type 0 where
  pub a_spends : a.input_asset ≡ b.output_asset
  pub b_spends : a.output_asset ≡ b.input_asset
  pub distinct : (a.input_asset == a.output_asset) ≡ false
  pub full_fill : b.amount ≡ a.amount * a.limit_price_scaled / price_scale
  pub a_min : a.min_output ≤ b.amount
  pub b_min : b.min_output ≤ a.amount

abbrev pub MeetsRate : PricedIntent → PricedIntent → Type 0
MeetsRate a b = b.limit_price_scaled * b.amount ≤ a.amount * price_scale

-- Below the guards on assets, amounts and minima only the rate is open.
guards_pass :
    (a b : PricedIntent) → Crosses a b → match_priced_pair a b ≡ check_rate a b b.amount a.amount
unfolding match_priced_pair
guards_pass a b c =
    ground (arith, eq_iff a.input_asset b.output_asset, eq_iff a.output_asset b.input_asset)

-- A pair that does not cross is turned down.
guards_fail : (a b : PricedIntent) → (match_priced_pair a b ≡ returns none) ⊎ Crosses a b
unfolding match_priced_pair
guards_fail a b =
    ground (arith, eq_iff a.input_asset b.output_asset, eq_iff a.output_asset b.input_asset)

rate_lem :
    (a b : PricedIntent)
    → 0 < b.amount
    → (b.limit_price_scaled ≤ a.amount * price_scale / b.amount) ↔ MeetsRate a b
rate_lem a b h = le-div_iff_mul-le h

check_rate-some :
    (a b : PricedIntent) (m : PricedMatch)
    → check_rate a b b.amount a.amount ≡ returns (some m)
    → (0 < b.amount) × MeetsRate a b × (m ≡ priced_match a b b.amount)
unfolding check_rate
check_rate-some a b m e =
    let pos : 0 < b.amount = ground arith in
    (pos, (rate_lem a b pos).0 (ground arith), ground arith)

check_rate-meets :
    (a b : PricedIntent)
    → 0 < b.amount
    → MeetsRate a b
    → check_rate a b b.amount a.amount ≡ returns (some (priced_match a b b.amount))
unfolding check_rate
check_rate-meets a b pos meets = let low = (rate_lem a b pos).1 meets in ground arith

check_rate-throws :
    (a b : PricedIntent) → (check_rate a b b.amount a.amount ≡ range_error) ↔ (b.amount ≡ 0)
unfolding check_rate
check_rate-throws a b = (λ e. ground arith, λ e. ground arith)

-- `matchPricedPair` returns a match exactly when each side spends the asset that the other wants,
-- the two assets differ, `b` spends just what `a` is owed at its limit price (rounded down), the
-- minimum outputs of both are met, `b` spends a positive amount, and the rate meets the limit of
-- `b`; and then the match gives `b` all that `a` spends and `a` all that `b` spends, at the limit
-- price of `a`.
pub match_priced_pair-some :
    (a b : PricedIntent) (m : PricedMatch)
    → (match_priced_pair a b ≡ returns (some m))
      ↔ (Crosses a b × (0 < b.amount) × MeetsRate a b × (m ≡ priced_match a b b.amount))
match_priced_pair-some a b m = (there, back)
  where
    there :
        match_priced_pair a b ≡ returns (some m)
        → Crosses a b × (0 < b.amount) × MeetsRate a b × (m ≡ priced_match a b b.amount)
    there e = elim (guards_fail a b) [
      | inl out ↦ cc
      | inr c ↦
          let (pos, meets, made) = check_rate-some a b m (sym (guards_pass a b c) ∙ e) in
          (c, pos, meets, made)
    ]

    back :
        Crosses a b × (0 < b.amount) × MeetsRate a b × (m ≡ priced_match a b b.amount)
        → match_priced_pair a b ≡ returns (some m)
    back (c, pos, meets, made) =
        guards_pass a b c
        ∙ check_rate-meets a b pos meets
        ∙ ap (λ (x : PricedMatch). returns (some x)) (sym made)

-- The division in the last guard throws exactly for the pairs that pass the earlier guards with
-- nothing to pay: `b` spends 0, which is what `a` is owed.
pub match_priced_pair-throws :
    (a b : PricedIntent) → (match_priced_pair a b ≡ range_error) ↔ (Crosses a b × (b.amount ≡ 0))
match_priced_pair-throws a b = (there, back)
  where
    there : match_priced_pair a b ≡ range_error → Crosses a b × (b.amount ≡ 0)
    there e = elim (guards_fail a b) [
      | inl out ↦ cc
      | inr c ↦ (c, (check_rate-throws a b).0 (sym (guards_pass a b c) ∙ e))
    ]

    back : Crosses a b × (b.amount ≡ 0) → match_priced_pair a b ≡ range_error
    back (c, zero) = guards_pass a b c ∙ (check_rate-throws a b).1 zero
