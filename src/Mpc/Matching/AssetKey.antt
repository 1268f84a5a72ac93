-- ===== src/Mpc/Matching/AssetKey.antt =====
-- The keys of the group map of `matchIntents`: `${inputAsset}|${outputAsset}`, and `split("|")`.
use Prim.Native.Char.{code}
use Prim.Native.String.{String, [], ◌∷◌, ◌++◌}
use text.Mathlib.TextLemmas.{cons-append, nil-append}
use shade.Shared.{◌≡◌, refl, Bool, false, ◌||◌, arith, nat_eq, if◌then◌else◌}

unfoldable pub pair_key : String → String → String
pair_key input output = input ++ ("|" ++ output)

-- The text before the first bar, and the text behind it.
unfoldable pub before_bar : String → String
before_bar [] = []
before_bar (c ∷ s) = if nat_eq (code c) 124 then [] else c ∷ before_bar s

unfoldable pub after_bar : String → String
after_bar [] = []
after_bar (c ∷ s) = if nat_eq (code c) 124 then s else after_bar s

-- `const [inAsset, outAsset] = key.split("|")`
unfoldable pub split_key : String → String × String
unfolding before_bar after_bar
split_key key = (before_bar key, before_bar (after_bar key))

unfoldable pub has_bar : String → Bool
has_bar [] = false
has_bar (c ∷ s) = nat_eq (code c) 124 || has_bar s

before_bar-all : (s : String) → has_bar s ≡ false → before_bar s ≡ s
unfolding before_bar has_bar
before_bar-all [] h = refl
before_bar-all (c ∷ s) h = ground (arith, before_bar-all s)

before_bar-key : (a b : String) → has_bar a ≡ false → before_bar (a ++ ("|" ++ b)) ≡ a
unfolding before_bar has_bar
before_bar-key [] b h = rw (nil-append, cons-append)
before_bar-key (c ∷ s) b h = rw cons-append (ground (arith, before_bar-key s b))

after_bar-key : (a b : String) → has_bar a ≡ false → after_bar (a ++ ("|" ++ b)) ≡ b
unfolding after_bar has_bar
after_bar-key [] b h = rw (nil-append, cons-append, nil-append)
after_bar-key (c ∷ s) b h = rw cons-append (ground (arith, after_bar-key s b))

-- Where no asset name holds a bar, the key gives back the two names.
pub split_key-pair_key :
    (a b : String) → has_bar a ≡ false → has_bar b ≡ false → split_key (pair_key a b) ≡ (a, b)
unfolding split_key pair_key
split_key-pair_key a b ha hb = rw (before_bar-key a b ha, after_bar-key a b ha, before_bar-all b hb)
