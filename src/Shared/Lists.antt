-- ===== src/Shared/Lists.antt =====
-- Lists measured by native numbers, sets of texts as lists, and predicates by recursion.
use Prim.Native.Nat.{ℕ, zero, suc, ◌+◌}
use Prim.Native.String.{String}
use mathlib.Core.Path.{◌≡◌, sym, subst}
use mathlib.Core.Logic.{inl, inr}
use shade.Shared.Tests.{Bool-cases}
use mathlib.Core.Logic.Or
use mathlib.Core.Bool.{Bool, true, false, ◌||◌}
use mathlib.Core.Option.{Option, none, some}
use mathlib.Core.List.{
  List, [], ◌∷◌, ◌++◌, Mem, mem-cons, not-mem-nil, mem-cons_self, mem-cons_of_mem,
}
use native.Mathlib.Omega.{arith}
use text.Mathlib.Text.{◌==◌}
use text.Mathlib.TextEquality.{eq_iff}

module _ {ℓ} {A : Type ℓ} where
  abbrev pub length : List A → ℕ
  length [] = 0
  length (x ∷ xs) = suc (length xs)

  abbrev pub get_elem? : List A → ℕ → Option A
  get_elem? [] i = none
  get_elem? (x ∷ xs) zero = some x
  get_elem? (x ∷ xs) (suc i) = get_elem? xs i

  pub length-append : (xs ys : List A) → length (xs ++ ys) ≡ length xs + length ys
  length-append [] ys = omega arith
  length-append (x ∷ xs) ys = omega (arith, length-append xs ys)

  -- A predicate by recursion computes to tuples, which the tactics read and build.
  abbrev pub All {κ} : (A → Type κ) → List A → Type κ
  All P [] = Unit
  All P (x ∷ xs) = P x × All P xs

  pub All-append {κ} : (P : A → Type κ) (xs ys : List A) → All P xs → All P ys → All P (xs ++ ys)
  All-append P [] ys h k = k
  All-append P (x ∷ xs) ys h k = (h.0, All-append P xs ys h.1 k)

-- `set.has(x)` on a `Set<string>` that is kept as the list of its elements.
unfoldable pub member : String → List String → Bool
member x [] = false
member x (y ∷ ys) = y == x || member x ys

pub not-Mem_of_member : (x : String) (ys : List String) → member x ys ≡ false → ¬ (Mem x ys)
unfolding member
not-Mem_of_member x [] h m = not-mem-nil m
not-Mem_of_member x (y ∷ ys) h m =
    Or.elim (λ a b. absurd a) (mem-cons.0 m) (λ e. ground (arith, eq_iff y x))
      (not-Mem_of_member x ys (ground arith))

-- What `All` says of every element, said of the elements by membership, and weakened.
module _ {ℓ} {A : Type ℓ} where
  pub All-map {κ μ} :
      (P : A → Type κ) (Q : A → Type μ)
      → ((a : A) → P a → Q a)
      → (xs : List A) → All P xs
      → All Q xs
  All-map P Q f [] h = tt
  All-map P Q f (x ∷ xs) h = (f x h.0, All-map P Q f xs h.1)

  pub All-Mem : (xs : List A) → All (λ x. Mem x xs) xs
  All-Mem [] = tt
  All-Mem (x ∷ xs) = (
    mem-cons_self,
    All-map (λ y. Mem y xs) (λ y. Mem y (x ∷ xs)) (λ y m. mem-cons_of_mem x m) xs (All-Mem xs),
  )

  pub All-× {κ μ} :
      (P : A → Type κ) (Q : A → Type μ) (xs : List A)
      → All P xs
      → All Q xs
      → All (λ x. P x × Q x) xs
  All-× P Q [] h k = tt
  All-× P Q (x ∷ xs) h k = ((h.0, k.0), All-× P Q xs h.1 k.1)

pub Mem_of_member : (x : String) (ys : List String) → member x ys ≡ true → Mem x ys
unfolding member
Mem_of_member x [] h = absurd (ground arith)
Mem_of_member x (y ∷ ys) h = elim (Bool-cases (y == x)) [
  | inl hit ↦ subst (λ z. Mem x (z ∷ ys)) (sym ((eq_iff y x).0 hit)) mem-cons_self
  | inr miss ↦ mem-cons_of_mem y (Mem_of_member x ys (ground arith))
]

pub member_of_Mem : (x : String) (ys : List String) → Mem x ys → member x ys ≡ true
member_of_Mem x ys m = elim (Bool-cases (member x ys)) [
  | inl e ↦ e
  | inr e ↦ absurd (not-Mem_of_member x ys e m)
]

pub member_of_not-Mem : (x : String) (ys : List String) → ¬ (Mem x ys) → member x ys ≡ false
member_of_not-Mem x ys n = elim (Bool-cases (member x ys)) [
  | inl e ↦ absurd (n (Mem_of_member x ys e))
  | inr e ↦ e
]
