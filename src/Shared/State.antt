-- ===== src/Shared/State.antt =====
-- Code that changes a state and may throw: what it changed before it threw stays changed.
use Prim.Native.String.{String}
use mathlib.Core.Bool.{Bool, true, false}
use mathlib.Core.Path.{◌≡◌, refl}
use shade.Shared.Results.{Result, ok, err, running, guard}

abbrev pub Action : Type 0 → Type 0 → Type 0
Action S A = S → Result A × S

infixl 5 ◌>>=◌ ◌>>◌
unfoldable pub ◌>>=◌ : {S A B : Type 0} → Action S A → (A → Action S B) → Action S B
◌>>=◌ m f s =
    let (r, s') = m s in elim r [ ok a ↦ f a s' | err e ↦ (err e, s') | running ↦ (running, s') ]

abbrev pub ◌>>◌ : {S B : Type 0} → Action S (Unit {0}) → Action S B → Action S B
m >> k = m >>= λ _. k

abbrev pub lift : {S A : Type 0} → Result A → Action S A
lift r s = (r, s)

abbrev pub pure : {S A : Type 0} → A → Action S A
pure a s = (ok a, s)

abbrev pub modify : {S : Type 0} → (S → S) → Action S (Unit {0})
modify f s = (ok tt, f s)

-- `Q` holds of the value and the state after it, if there is a value.
abbrev pub Holds : {S A : Type 0} → (A → S → Type 0) → Result A × S → Type 0
Holds Q (ok a, s) = Q a s
Holds Q (err e, s) = Unit {0}
Holds Q (running, s) = Unit {0}

-- From a state with `P`, what the code returns and leaves has `Q`.
abbrev pub Triple : {S A : Type 0} → (S → Type 0) → Action S A → (A → S → Type 0) → Type 0
Triple {S} P m Q = (s : S) → P s → Holds Q (m s)

module _ {S A B : Type 0} (P : S → Type 0) (Q : A → S → Type 0) (R : B → S → Type 0) where
  continued :
      (f : A → Action S B) (r : Result A) (s : S)
      → Holds Q (r, s)
      → ((a : A) → Triple (Q a) (f a) R)
      → Holds R (elim r as (λ _. Result B × S) [
        | ok a ↦ f a s
        | err e ↦ (err e, s)
        | running ↦ (running, s)
      ])
  continued f (ok a) s h k = k a s h
  continued f (err e) s h k = tt
  continued f running s h k = tt

  pub >>=-Triple :
      (m : Action S A) (f : A → Action S B)
      → Triple P m Q
      → ((a : A) → Triple (Q a) (f a) R)
      → Triple P (m >>= f) R
  unfolding ◌>>=◌
  >>=-Triple m f h k s p = continued f (m s).0 (m s).1 (h s p) k

-- Whatever the state was, `Q` holds of the value.
abbrev pub Returns : {S A : Type 0} → (A → Type 0) → Action S A → Type 0
Returns {S} Q m = (s : S) → Holds (λ a _. Q a) (m s)

module _ {S A B : Type 0} (Q : A → Type 0) (R : B → Type 0) where
  then-Returns :
      (f : A → Action S B) (r : Result A) (s : S)
      → Holds (λ a _. Q a) (r, s)
      → ((a : A) → Q a → Returns R (f a))
      → Holds
          (λ b _. R b)
          (elim r as (λ _. Result B × S) [
            | ok a ↦ f a s
            | err e ↦ (err e, s)
            | running ↦ (running, s)
          ])
  then-Returns f (ok a) s h k = k a h s
  then-Returns f (err e) s h k = tt
  then-Returns f running s h k = tt

  pub >>=-Returns :
      (m : Action S A) (f : A → Action S B)
      → Returns Q m
      → ((a : A) → Q a → Returns R (f a))
      → Returns R (m >>= f)
  unfolding ◌>>=◌
  >>=-Returns m f h k s = then-Returns f (m s).0 (m s).1 (h s) k

module _ {S A B : Type 0} (R : B → Type 0) where
  nothing : (m : Action S A) → Returns (λ _. Unit {0}) m
  nothing m s = trivial (m s).0 (m s).1
    where
      trivial : (r : Result A) (s' : S) → Holds (λ a _. Unit {0}) (r, s')
      trivial (ok a) s' = tt
      trivial (err e) s' = tt
      trivial running s' = tt

  -- A step of which nothing is to be known.
  pub >>=-skip :
      (m : Action S A) (f : A → Action S B) → ((a : A) → Returns R (f a)) → Returns R (m >>= f)
  >>=-skip m f k = >>=-Returns (λ _. Unit {0}) R m f (nothing m) (λ a _. k a)

module _ {S A : Type 0} where
  pub lift-Returns : (r : Result A) → Returns {S = S} (λ a. r ≡ ok a) (lift r)
  lift-Returns (ok a) s = refl
  lift-Returns (err e) s = tt
  lift-Returns running s = tt

pub guard-Returns :
    {S : Type 0} (b : Bool) (e : String) → Returns {S = S} (λ _. b ≡ true) (lift (guard b e))
guard-Returns true e s = refl
guard-Returns false e s = tt

-- Whatever the state was, `Q` holds of the value and the state after it.
abbrev pub Ensures : {S A : Type 0} → (A → S → Type 0) → Action S A → Type 0
Ensures {S} Q m = Triple {S = S} (λ _. Unit {0}) m Q

module _ {S A B : Type 0} (Q : A → Type 0) (R : B → S → Type 0) where
  then-Ensures :
      (f : A → Action S B) (r : Result A) (s : S)
      → Holds (λ a _. Q a) (r, s)
      → ((a : A) → Q a → Ensures R (f a))
      → Holds R (elim r as (λ _. Result B × S) [
        | ok a ↦ f a s
        | err e ↦ (err e, s)
        | running ↦ (running, s)
      ])
  then-Ensures f (ok a) s h k = k a h s tt
  then-Ensures f (err e) s h k = tt
  then-Ensures f running s h k = tt

  -- Only what the first part returns matters for what follows.
  pub >>=-Ensures :
      (m : Action S A) (f : A → Action S B)
      → Returns Q m
      → ((a : A) → Q a → Ensures R (f a))
      → Ensures R (m >>= f)
  unfolding ◌>>=◌
  >>=-Ensures m f h k s _ = then-Ensures f (m s).0 (m s).1 (h s) k

Returns-any : {S A : Type 0} (m : Action S A) → Returns (λ _. Unit {0}) m
Returns-any m = nothing {B = Unit {0}} (λ _. Unit {0}) m

-- A step of which nothing is to be known.
pub >>=-after :
    {S A B : Type 0} (R : B → S → Type 0) (m : Action S A) (f : A → Action S B)
    → ((a : A) → Ensures R (f a))
    → Ensures R (m >>= f)
>>=-after R m f k = >>=-Ensures (λ _. Unit {0}) R m f (Returns-any m) (λ a _. k a)
