-- ===== src/Sdk/Shares.antt =====
-- The client's shares are those of the committee's own package, and the committee gets the amount back.
use shade.Shared.{ℕ, zero, suc, ◌+◌, ◌≤◌, ◌≡◌, refl, String, List, [], ◌∷◌, map, some, arith}
use shade.Shared.Int.{ℤ}
use shade.Mpc.Batch.{NodeKeyPair}
use shade.Mpc.Round.{BoxOpen}
use shade.Mpc.Shamir as Shamir
use shade.Mpc.Shamir.{Share, modp}
use shade.Sdk.{random_field_element, horner, points, shamir_split, Seal}

horner-evaluate : (coeffs : List ℕ) (x : ℕ) → horner coeffs x ≡ Shamir.evaluate coeffs x
unfolding horner Shamir.evaluate
horner-evaluate [] x = refl
horner-evaluate (c ∷ coeffs) x = rw (horner-evaluate coeffs x) refl

points-shares_from :
    (coeffs : List ℕ) (left i : ℕ) → points coeffs left i ≡ Shamir.shares_from coeffs left (i + 1)
unfolding points Shamir.shares_from
points-shares_from coeffs zero i = refl
points-shares_from coeffs (suc left) i =
    rw (horner-evaluate coeffs (i + 1), points-shares_from coeffs left (i + 1)) refl

-- For every amount, threshold and number of nodes that the committee's `shamirSplit` accepts, it gives the
-- same shares as the client's on the client's random coefficients.
pub shamir_split-agree :
    (secret : ℤ) (draws : List ℕ) (threshold total : ℕ)
    → 2 ≤ threshold
    → threshold ≤ total
    → Shamir.shamir_split secret (map random_field_element draws) threshold total
      ≡ some (shamir_split secret draws total)
unfolding shamir_split Shamir.shamir_split
shamir_split-agree secret draws threshold total h k =
    ground (arith, points-shares_from (modp secret ∷ map random_field_element draws) total 0)

-- What `nacl.box` seals for a key opens under its secret key.
abbrev pub Opens : BoxOpen → Seal → NodeKeyPair → Type 0
Opens box_open seal k =
    (p : Share) (seed : String)
    → box_open (seal p k.encryption_public seed k.node_id) k.encryption_secret ≡ some p
