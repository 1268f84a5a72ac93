-- ===== src/Mpc/Shamir/Committee.antt =====
-- The 2-of-3 sharing of the committee: any two of the three shares give the amount back.
use shade.Shared.{
  ℕ, zero, suc, ◌+◌, ◌-◌, ◌*◌, ◌%◌, ◌<◌, ◌≡◌, ◌≢◌, refl, ap, ◌∙◌, List, [], ◌∷◌, some, arith,
  get_elem?,
}
use shade.Shared.Int.{pos, ◌-ℤ◌, ◌*ℤ◌}
use shade.Mpc.Shamir.{Share, field_prime, modp, modinv, evaluate, shamir_split, shamir_reconstruct}

abbrev share_at : ℕ → ℕ → ℕ → Share
share_at s a x = record { x = x; y = evaluate (s ∷ a ∷ []) x }

abbrev three : ℕ → ℕ → List Share
three s a = share_at s a 1 ∷ share_at s a 2 ∷ share_at s a 3 ∷ []

both :
    {s : ℕ} {x y : Share} (p q : Share)
    → some x ≡ some p
    → some y ≡ some q
    → shamir_reconstruct (x ∷ y ∷ []) ≡ s
    → shamir_reconstruct (p ∷ q ∷ []) ≡ s
both p q ep eq e = cc

modp_small : (s : ℕ) → s < field_prime → modp (pos s) ≡ s
unfolding modp
modp_small s h = omega arith

module _ (s a : ℕ) (h : s < field_prime) where
  shares_1_2 : shamir_reconstruct (share_at s a 1 ∷ share_at s a 2 ∷ []) ≡ s
  unfolding shamir_reconstruct evaluate ◌-ℤ◌ ◌*ℤ◌
  shares_1_2 = omega arith

  shares_1_3 : shamir_reconstruct (share_at s a 1 ∷ share_at s a 3 ∷ []) ≡ s
  unfolding shamir_reconstruct evaluate ◌-ℤ◌ ◌*ℤ◌
  shares_1_3 = omega arith

  shares_2_1 : shamir_reconstruct (share_at s a 2 ∷ share_at s a 1 ∷ []) ≡ s
  unfolding shamir_reconstruct evaluate ◌-ℤ◌ ◌*ℤ◌
  shares_2_1 = omega arith

  shares_2_3 : shamir_reconstruct (share_at s a 2 ∷ share_at s a 3 ∷ []) ≡ s
  unfolding shamir_reconstruct evaluate ◌-ℤ◌ ◌*ℤ◌
  shares_2_3 = omega arith

  shares_3_1 : shamir_reconstruct (share_at s a 3 ∷ share_at s a 1 ∷ []) ≡ s
  unfolding shamir_reconstruct evaluate ◌-ℤ◌ ◌*ℤ◌
  shares_3_1 = omega arith

  shares_3_2 : shamir_reconstruct (share_at s a 3 ∷ share_at s a 2 ∷ []) ≡ s
  unfolding shamir_reconstruct evaluate ◌-ℤ◌ ◌*ℤ◌
  shares_3_2 = omega arith

  any_two :
      (i j : ℕ) (p q : Share)
      → get_elem? (three s a) i ≡ some p
      → get_elem? (three s a) j ≡ some q
      → i ≢ j
      → shamir_reconstruct (p ∷ q ∷ []) ≡ s
  any_two zero zero p q ep eq ne = absurd (ne refl)
  any_two zero (suc zero) p q ep eq ne = both p q ep eq shares_1_2
  any_two zero (suc (suc zero)) p q ep eq ne = both p q ep eq shares_1_3
  any_two zero (suc (suc (suc j))) p q ep eq ne = cc
  any_two (suc zero) zero p q ep eq ne = both p q ep eq shares_2_1
  any_two (suc zero) (suc zero) p q ep eq ne = absurd (ne refl)
  any_two (suc zero) (suc (suc zero)) p q ep eq ne = both p q ep eq shares_2_3
  any_two (suc zero) (suc (suc (suc j))) p q ep eq ne = cc
  any_two (suc (suc zero)) zero p q ep eq ne = both p q ep eq shares_3_1
  any_two (suc (suc zero)) (suc zero) p q ep eq ne = both p q ep eq shares_3_2
  any_two (suc (suc zero)) (suc (suc zero)) p q ep eq ne = absurd (ne refl)
  any_two (suc (suc zero)) (suc (suc (suc j))) p q ep eq ne = cc
  any_two (suc (suc (suc i))) j p q ep eq ne = cc

split_three : (s a : ℕ) → s < field_prime → shamir_split (pos s) (a ∷ []) 2 3 ≡ some (three s a)
unfolding shamir_split
split_three s a h = ground (arith, modp_small s h)

-- An amount below the field prime, shared by `shamirSplit` with threshold 2 among three nodes, comes
-- back from `shamirReconstruct` on any two different shares, in either order, whatever the random
-- coefficient was.
pub shamir_reconstruct-split :
    (s a i j : ℕ) (shares : List Share) (p q : Share)
    → s < field_prime
    → shamir_split (pos s) (a ∷ []) 2 3 ≡ some shares
    → get_elem? shares i ≡ some p
    → get_elem? shares j ≡ some q
    → i ≢ j
    → shamir_reconstruct (p ∷ q ∷ []) ≡ s
shamir_reconstruct-split s a i j shares p q h split ep eq ne =
    let same : three s a ≡ shares = cc (split_three s a h) in
    any_two s a h i j p q (ap (λ l. get_elem? l i) same ∙ ep) (ap (λ l. get_elem? l j) same ∙ eq) ne

-- The coefficient with which the secret `t` has the value `y` at `x`.
mask : ℕ → ℕ → ℕ → ℕ
mask t y x = (y + (field_prime - t)) * modinv (pos x) % field_prime

mask_lt : (t y x : ℕ) → mask t y x < field_prime
unfolding mask
mask_lt t y x = omega arith

hide_1 : (s t a : ℕ) → t < field_prime → share_at t (mask t (share_at s a 1).y 1) 1 ≡ share_at s a 1
unfolding mask evaluate modp modinv ◌-ℤ◌ ◌*ℤ◌
hide_1 s t a h = ground arith

hide_2 : (s t a : ℕ) → t < field_prime → share_at t (mask t (share_at s a 2).y 2) 2 ≡ share_at s a 2
unfolding mask evaluate modp modinv ◌-ℤ◌ ◌*ℤ◌
hide_2 s t a h = ground arith

hide_3 : (s t a : ℕ) → t < field_prime → share_at t (mask t (share_at s a 3).y 3) 3 ≡ share_at s a 3
unfolding mask evaluate modp modinv ◌-ℤ◌ ◌*ℤ◌
hide_3 s t a h = ground arith

-- One share says nothing about the amount: whatever share a node holds, and whatever other amount
-- below the prime one thinks of, some coefficient below the prime gives that amount the same share
-- at that node.
pub shamir_split-hides :
    (s t a i : ℕ) (shares : List Share) (p : Share)
    → s < field_prime
    → t < field_prime
    → shamir_split (pos s) (a ∷ []) 2 3 ≡ some shares
    → get_elem? shares i ≡ some p
    → (b : ℕ) × (b < field_prime)
      × (others : List Share) × (shamir_split (pos t) (b ∷ []) 2 3 ≡ some others)
      × (get_elem? others i ≡ some p)
shamir_split-hides s t a i shares p hs ht split e =
    let same : three s a ≡ shares = cc (split_three s a hs) in
    hidden i (ap (λ l. get_elem? l i) same ∙ e)
  where
    hidden :
        (k : ℕ)
        → get_elem? (three s a) k ≡ some p
        → (b : ℕ) × (b < field_prime)
          × (others : List Share) × (shamir_split (pos t) (b ∷ []) 2 3 ≡ some others)
          × (get_elem? others k ≡ some p)
    hidden zero e' = (
      mask t (share_at s a 1).y 1,
      mask_lt t _ 1,
      three t _,
      split_three t _ ht,
      ap (λ (q : Share). some q) (hide_1 s t a ht) ∙ e',
    )
    hidden (suc zero) e' = (
      mask t (share_at s a 2).y 2,
      mask_lt t _ 2,
      three t _,
      split_three t _ ht,
      ap (λ (q : Share). some q) (hide_2 s t a ht) ∙ e',
    )
    hidden (suc (suc zero)) e' = (
      mask t (share_at s a 3).y 3,
      mask_lt t _ 3,
      three t _,
      split_three t _ ht,
      ap (λ (q : Share). some q) (hide_3 s t a ht) ∙ e',
    )
    hidden (suc (suc (suc k))) e' = cc
