-- ===== src/Swap/Binding.antt =====
-- What the signed bytes say of the terms.
use shade.Shared.{
  ℕ, zero, suc, ◌+◌, ◌*◌, ◌/◌, ◌%◌, ◌^◌, ◌<◌, String, ◌≡◌, refl, sym, ap, ◌∙◌, List, [], ◌∷◌, ◌++◌,
  arith, length,
}
use shade.Swap.{be_bytes_from, i128_be_bytes, AtomicSwapTerms, swap_bytes}

-- The number that bytes stand for, after those that stand for `a`.
abbrev pub from_be : ℕ → List ℕ → ℕ
from_be a [] = a
from_be a (b ∷ bytes) = from_be (a * 256 + b) bytes

one_byte : (a p v : ℕ) → v < p * 256 → (a * p + v / 256) * 256 + v % 256 ≡ a * (p * 256) + v
one_byte a p v h = omega arith

below : (p v : ℕ) → v < p * 256 → v / 256 < p
below p v h = omega arith

from_be-bytes :
    (a w v : ℕ) (bytes : List ℕ)
    → v < 256 ^ w
    → from_be a (be_bytes_from w v bytes) ≡ from_be (a * 256 ^ w + v) bytes
unfolding be_bytes_from
from_be-bytes a zero v bytes h = ap (λ n. from_be n bytes) (omega arith)
from_be-bytes a (suc w) v bytes h =
    let high : v < 256 ^ w * 256 = omega arith in
    let power : 256 ^ suc w ≡ 256 ^ w * 256 = omega arith in
    from_be-bytes a w (v / 256) (v % 256 ∷ bytes) (below (256 ^ w) v high)
    ∙ ap (λ n. from_be n bytes) (one_byte a (256 ^ w) v high ∙ ap (λ k. a * k + v) (sym power))

-- A number that 16 bytes can hold comes back from its bytes.
from_be-i128 : (v : ℕ) → v < 256 ^ 16 → from_be 0 (i128_be_bytes v) ≡ v
unfolding i128_be_bytes
from_be-i128 v h = from_be-bytes 0 16 v [] h ∙ omega arith

length-be_bytes_from :
    (w v : ℕ) (bytes : List ℕ) → length (be_bytes_from w v bytes) ≡ w + length bytes
unfolding be_bytes_from
length-be_bytes_from zero v bytes = omega arith
length-be_bytes_from (suc w) v bytes =
    omega (arith, length-be_bytes_from w (v / 256) (v % 256 ∷ bytes))

length-i128 : (v : ℕ) → length (i128_be_bytes v) ≡ 16
unfolding i128_be_bytes
length-i128 v = length-be_bytes_from 16 v []

-- Parts of one length in front of equal texts are equal, and so are the rests.
split :
    (xs xs' ys ys' : List ℕ)
    → length xs ≡ length xs'
    → xs ++ ys ≡ xs' ++ ys'
    → (xs ≡ xs') × (ys ≡ ys')
split [] [] ys ys' n e = (refl, e)
split [] (x ∷ xs') ys ys' n e = absurd (omega arith)
split (x ∷ xs) [] ys ys' n e = absurd (omega arith)
split (x ∷ xs) (x' ∷ xs') ys ys' n e =
    let heads : x ≡ x' = cc e in
    let (tails, rest) = split xs xs' ys ys' (omega arith) (cc e) in (cc (heads, tails), rest)

same_amount :
    (v v' : ℕ) → v < 256 ^ 16 → v' < 256 ^ 16 → i128_be_bytes v ≡ i128_be_bytes v' → v ≡ v'
same_amount v v' h h' e = sym (from_be-i128 v h) ∙ (ap (λ b. from_be 0 b) e ∙ from_be-i128 v' h')

-- The hashes of the terms have one length, and the amounts fit 16 bytes.
pub record Fits (t u : AtomicSwapTerms) : Type 0 where
  pub quote_length : length t.quote_hash ≡ length u.quote_hash
  pub asset_length : length t.output_asset_id ≡ length u.output_asset_id
  pub quoted : t.quoted_output < 256 ^ 16
  pub quoted' : u.quoted_output < 256 ^ 16
  pub least : t.min_output < 256 ^ 16
  pub least' : u.min_output < 256 ^ 16
  pub price : t.price_scaled < 256 ^ 16
  pub price' : u.price_scaled < 256 ^ 16

-- The signed bytes bind every term of the swap: two offers with the same bytes have the same quote, asset,
-- output, minimum and price, and recipients with one hash, if the hashes have the same lengths and the
-- amounts fit 16 bytes.
pub swap_bytes-binding :
    (recipient_hash : String → List ℕ) (t u : AtomicSwapTerms)
    → Fits t u
    → swap_bytes recipient_hash t ≡ swap_bytes recipient_hash u
    → (t.quote_hash ≡ u.quote_hash)
      × (t.output_asset_id ≡ u.output_asset_id)
      × (t.quoted_output ≡ u.quoted_output)
      × (t.min_output ≡ u.min_output)
      × (t.price_scaled ≡ u.price_scaled)
      × (recipient_hash t.recipient ≡ recipient_hash u.recipient)
unfolding swap_bytes
swap_bytes-binding recipient_hash t u fits e =
    let (quote, e1) = split _ _ _ _ fits.quote_length e in
    let (asset, e2) = split _ _ _ _ fits.asset_length e1 in
    let (out, e3) = split _ _ _ _ (both t.quoted_output u.quoted_output) e2 in
    let (least, e4) = split _ _ _ _ (both t.min_output u.min_output) e3 in
    let (price, recipient) = split _ _ _ _ (both t.price_scaled u.price_scaled) e4 in
    (
      quote,
      asset,
      same_amount _ _ fits.quoted fits.quoted' out,
      same_amount _ _ fits.least fits.least' least,
      same_amount _ _ fits.price fits.price' price,
      recipient,
    )
  where
    both : (v v' : ℕ) → length (i128_be_bytes v) ≡ length (i128_be_bytes v')
    both v v' = length-i128 v ∙ sym (length-i128 v')
