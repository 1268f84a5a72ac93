-- ===== src/Proving/Fields.antt =====
-- The field elements that stand for hashes lie below the moduli of both curves.
use native.Mathlib.Nat.{pow-suc, pow-succ', mul-le-mul_right, mul-le-mul_left, mul_assoc}
use Prim.Native.String.{String}
use shade.Shared.{
  ℕ, zero, suc, ◌+◌, ◌*◌, ◌^◌, ◌<◌, ◌≤◌, ◌≡◌, refl, sym, ap, ◌∙◌, List, [], ◌∷◌, none, some, arith,
  length, ◌==◌, Bool-cases, Option-cases, inl, inr,
}
use shade.Shared.Texts.{codes, clip, hex_digit, and_digit, hex_value, parse_hex, strip_hex}
use shade.Shared.Results.{ok}
use shade.Mpc.Shamir.{field_prime}
use shade.Proving.{hash_to_field}

hex_digit-lt : (c d : ℕ) → hex_digit c ≡ some d → d < 16
hex_digit-lt c d h = ground arith

pow_pos : (w : ℕ) → 0 < 16 ^ w
pow_pos zero = omega arith
pow_pos (suc w) = omega (arith, pow-suc 16 w, pow_pos w)

hex_value-none : (cs : List ℕ) → hex_value none cs ≡ none
unfolding hex_value
hex_value-none [] = refl
hex_value-none (c ∷ cs) = hex_value-none cs

-- At most `w` digits after `a`.
hex_value-lt :
    (cs : List ℕ) (w a n : ℕ)
    → length cs ≤ w
    → hex_value (some a) cs ≡ some n
    → n < (a + 1) * 16 ^ w
unfolding hex_value
hex_value-lt [] w a n h e =
    let same : a ≡ n = cc in omega (arith, mul-le-mul_left (a + 1) (pow_pos w))
hex_value-lt (c ∷ cs) zero a n h e = absurd (omega arith)
hex_value-lt (c ∷ cs) (suc w) a n h e = elim (Option-cases (hex_digit c)) [
  | inl bad ↦ absurd (cc (hex_value-none cs, rw (bad, and_digit) at e))
  | inr (d, good) ↦
      let small : d < 16 = hex_digit-lt c d good in
      let below : n < (16 * a + d + 1) * 16 ^ w =
        hex_value-lt cs w (16 * a + d) n (omega arith) (rw (good, and_digit) at e) in
      let more : (16 * a + d + 1) * 16 ^ w ≤ ((a + 1) * 16) * 16 ^ w =
        mul-le-mul_right (16 ^ w) (omega arith) in
      let regroup : (a + 1) * 16 ^ suc w ≡ ((a + 1) * 16) * 16 ^ w =
        ap (λ (t : ℕ). (a + 1) * t) (pow-succ' 16 w) ∙ sym (mul_assoc (a + 1) 16 (16 ^ w)) in
      omega arith
]

length-clip : (n : ℕ) (s : String) → length (codes (clip n s)) ≤ n
unfolding codes clip
length-clip zero s = omega arith
length-clip (suc n) String.[] = omega arith
length-clip (suc n) (String.◌∷◌ c s) = omega (arith, length-clip n s)

-- The modulus of BLS12-381's scalar field.
abbrev pub bls_prime : ℕ
bls_prime = 52435875175126190479447740508185965837690552500527637822603658699938581184513

parse_hex-lt : (s : String) (w n : ℕ) → length (codes s) ≤ w → parse_hex s ≡ some n → n < 16 ^ w
unfolding parse_hex
parse_hex-lt s w n h e = elim (Bool-cases (s == "")) [
  | inl empty ↦ absurd (cc (rw empty at e))
  | inr there ↦ omega (arith, hex_value-lt (codes s) w 0 n h (rw there at e))
]

-- The field element that hashToField gives for a text, whatever the text, lies below the moduli of both
-- curves.
pub hash_to_field-lt :
    (hex32 : String) (n : ℕ) → hash_to_field hex32 ≡ ok n → (n < field_prime) × (n < bls_prime)
unfolding hash_to_field
hash_to_field-lt hex32 n e = elim (Option-cases (parse_hex (clip 62 (strip_hex hex32)))) [
  | inl bad ↦ absurd (cc (rw bad at e))
  | inr (m, good) ↦
      let same : m ≡ n = cc (rw good at e) in
      let below : m < 16 ^ 62 =
        parse_hex-lt (clip 62 (strip_hex hex32)) 62 m (length-clip 62 (strip_hex hex32)) good in
      (omega arith, omega arith)
]
