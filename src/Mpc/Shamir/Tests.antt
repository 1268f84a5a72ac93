-- ===== src/Mpc/Shamir/Tests.antt =====
-- Concrete runs of the secret sharing.
use shade.Shared.{ℕ, ◌<◌, ◌≡◌, refl, List, [], ◌∷◌, none, some, arith, get_elem?}
use shade.Shared.Int.{pos, ◌-ℤ◌, ◌*ℤ◌}
use shade.Mpc.Shamir.{Share, field_prime, shamir_split, shamir_reconstruct}
use shade.Mpc.Shamir.Committee.{shamir_reconstruct-split, shamir_split-hides}

abbrev first : Share
first = record { x = 1; y = 12 }

abbrev second : Share
second = record { x = 2; y = 17 }

abbrev third : Share
third = record { x = 3; y = 22 }

splits : shamir_split (pos 7) (5 ∷ []) 2 3 ≡ some (first ∷ second ∷ third ∷ [])
unfolding shamir_split
splits = refl

refuses : shamir_split (pos 7) [] 1 3 ≡ none
unfolding shamir_split
refuses = refl

all_three : shamir_reconstruct (first ∷ second ∷ third ∷ []) ≡ 7
unfolding shamir_reconstruct ◌-ℤ◌ ◌*ℤ◌
all_three = refl

shamir_reconstruct-split_example : shamir_reconstruct (third ∷ first ∷ []) ≡ 7
shamir_reconstruct-split_example =
    shamir_reconstruct-split 7 5 2 0 (first ∷ second ∷ third ∷ []) third first (omega arith) splits
      refl refl (omega arith)

shamir_split-hides_example :
    (b : ℕ) × (b < field_prime)
    × (others : List Share) × (shamir_split (pos 100) (b ∷ []) 2 3 ≡ some others)
    × (get_elem? others 1 ≡ some second)
shamir_split-hides_example =
    shamir_split-hides 7 100 5 1 (first ∷ second ∷ third ∷ []) second (omega arith) (omega arith)
      splits refl
