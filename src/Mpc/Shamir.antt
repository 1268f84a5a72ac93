-- ===== src/Mpc/Shamir.antt =====
-- packages/mpc-crypto/src/shamir.ts: secret sharing over the field of the circuits. A share is
-- kept decoded, as two numbers; random draws are an argument.
pub mod Committee
pub mod Tests
use mathlib.Core.WellFounded.{Acc, WellFounded}
use shade.Shared.{
  ℕ, zero, suc, ◌+◌, ◌-◌, ◌*◌, ◌/◌, ◌%◌, ◌^◌, ◌<◌, Bool, true, false, ◌||◌, List, [], ◌∷◌, Option,
  none, some, arith, nat_eq, ltb, leb, if◌then◌else◌, length, dec_lt, dite,
}
use shade.Shared.Int.{ℤ, pos, negsuc, ◌-ℤ◌, ◌*ℤ◌}

abbrev pub field_prime : ℕ
field_prime = 21888242871839275222246405745257275088548364400416034343698204186575808495617

pub record Share : Type 0 where
  pub x : ℕ
  pub y : ℕ

-- `((x % P) + P) % P`, with the sign of `x` on the remainder.
unfoldable pub modp : ℤ → ℕ
modp (pos n) = (n % field_prime + field_prime) % field_prime
modp (negsuc n) = (field_prime - suc n % field_prime) % field_prime

Acc-below : (k n : ℕ) → n < k → Acc ◌<◌ n
Acc-below zero n h = elim h [ ]
Acc-below (suc k) n h = Acc.intro n (λ m hm. Acc-below k m (omega arith))

lt_wf : WellFounded ◌<◌
unfolding Acc-below
lt_wf = record { apply = λ n. Acc-below (suc n) n (omega arith) }

-- The extended Euclidean loop. `oldR - q * r` is never negative, so it stays a number.
modinv_loop : (old_r r : ℕ) → ℤ → ℤ → Acc ◌<◌ r → ℤ
modinv_loop old_r r old_s s (Acc.intro _ smaller) =
    dite (dec_lt 0 r)
      (λ h.
        modinv_loop r (old_r - old_r / r * r) s (old_s -ℤ pos (old_r / r) *ℤ s)
          (smaller (old_r - old_r / r * r) (grind arith)))
      (λ _. old_s)

pub modinv : ℤ → ℕ
unfolding modinv_loop modp lt_wf dec_lt
modinv a = modp (modinv_loop (modp a) field_prime (pos 1) (pos 0) (lt_wf.apply field_prime))

-- The largest multiple of the prime below 2 ^ 256.
abbrev pub rejection_limit : ℕ
rejection_limit = 2 ^ 256 / field_prime * field_prime

-- The `do … while` over the draws that `randomBytes` makes; `none` if they are used up.
pub random_field_element : List ℕ → Option (ℕ × List ℕ)
random_field_element [] = none
random_field_element (raw ∷ draws) =
    let again = random_field_element draws in
    if leb rejection_limit raw then again else some (raw % field_prime, draws)

-- Horner's loop from the highest coefficient down; the list is in the order of `coeffs`.
unfoldable pub evaluate : List ℕ → ℕ → ℕ
evaluate [] x = 0
evaluate (c ∷ coeffs) x = modp (pos (evaluate coeffs x * x + c))

unfoldable pub shares_from : List ℕ → ℕ → ℕ → List Share
shares_from coeffs zero x = []
shares_from coeffs (suc left) x =
    record { x = x; y = evaluate coeffs x } ∷ shares_from coeffs left (x + 1)

-- `shamirSplit`, where `random` are the `threshold - 1` random coefficients; `none` is the throw.
unfoldable pub shamir_split : ℤ → List ℕ → ℕ → ℕ → Option (List Share)
unfolding evaluate shares_from modp
shamir_split secret random threshold total =
    if ltb threshold 2 || ltb total threshold
    then none
    else some (shares_from (modp secret ∷ random) total 1)

-- The inner loop over `j`: `k` is the index of the head of the list.
pub lagrange : ℕ → ℕ → ℕ → ℕ → ℕ → List Share → ℕ × ℕ
lagrange i xi k num den [] = (num, den)
lagrange i xi k num den (s ∷ shares) =
    let skip = nat_eq i k in
    lagrange i xi (k + 1) (if skip then num else modp (pos (num * modp (pos 0 -ℤ pos s.x))))
      (if skip then den else modp (pos den *ℤ (pos xi -ℤ pos s.x))) shares

pub reconstruct_from : List Share → ℕ → ℕ → List Share → ℕ
reconstruct_from whole i secret [] = secret
reconstruct_from whole i secret (s ∷ shares) =
    let (num, den) = lagrange i s.x 0 1 1 whole in
    reconstruct_from whole (i + 1)
      (modp (pos (secret + modp (pos (s.y * modp (pos (num * modinv (pos den)))))))) shares

unfoldable pub shamir_reconstruct : List Share → ℕ
unfolding modp modinv lagrange reconstruct_from
shamir_reconstruct shares = reconstruct_from shares 0 0 shares
