-- ===== src/Swap/Tests.antt =====
-- An offer to two recipients whose hashes are one.
use shade.Shared.{String, ◌≡◌, refl, List, [], ◌∷◌, ℕ, arith}
use shade.Swap.{AtomicSwapTerms, i128_be_bytes, swap_bytes}
use shade.Swap.Binding.{Fits, swap_bytes-binding}

abbrev terms : String → AtomicSwapTerms
terms recipient = record {
  quote_hash = 1 ∷ 2 ∷ [];
  output_asset_id = 3 ∷ 4 ∷ [];
  quoted_output = 500;
  min_output = 400;
  price_scaled = 1000000000;
  recipient = recipient;
}

abbrev one_hash : String → List ℕ
one_hash recipient = 0 ∷ []

last_bytes :
    i128_be_bytes 500 ≡ 0 ∷ 0 ∷ 0 ∷ 0 ∷ 0 ∷ 0 ∷ 0 ∷ 0 ∷ 0 ∷ 0 ∷ 0 ∷ 0 ∷ 0 ∷ 0 ∷ 1 ∷ 244 ∷ []
unfolding i128_be_bytes
last_bytes = refl

terms-Fits : Fits (terms "G1") (terms "G2")
terms-Fits = record {
  quote_length = refl;
  asset_length = refl;
  quoted = omega arith;
  quoted' = omega arith;
  least = omega arith;
  least' = omega arith;
  price = omega arith;
  price' = omega arith;
}

swap_bytes-binding_example :
    ((terms "G1").quote_hash ≡ (terms "G2").quote_hash)
    × ((terms "G1").output_asset_id ≡ (terms "G2").output_asset_id)
    × ((terms "G1").quoted_output ≡ (terms "G2").quoted_output)
    × ((terms "G1").min_output ≡ (terms "G2").min_output)
    × ((terms "G1").price_scaled ≡ (terms "G2").price_scaled)
    × (one_hash "G1" ≡ one_hash "G2")
unfolding swap_bytes
swap_bytes-binding_example = swap_bytes-binding one_hash (terms "G1") (terms "G2") terms-Fits refl
