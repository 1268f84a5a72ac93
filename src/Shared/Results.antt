-- ===== src/Shared/Results.antt =====
-- The outcome of code that may throw: a value, an error with its message, or, where the code waits on
-- others without a bound, no end within the steps that are looked at.
use Prim.Native.String.{String}
use mathlib.Core.Bool.{Bool, true, false}
use mathlib.Core.Option.{Option, none, some}
use mathlib.Core.Path.{◌≡◌, refl}

pub data Result (A : Type 0) : Type 0 where
  ok : A → Result A
  err : String → Result A
  running : Result A

-- `if (!test) throw new Error(message)`
abbrev pub guard : Bool → String → Result (Unit {0})
guard false message = err message
guard true _ = ok tt

abbrev pub or_throw : {A : Type 0} → Option A → String → Result A
or_throw none message = err message
or_throw (some value) _ = ok value

module _ {X Y : Type 0} where
  infixl 5 ◌>>=◌
  abbrev pub ◌>>=◌ : Result X → (X → Result Y) → Result Y
  running >>= _ = running
  err message >>= _ = err message
  ok value >>= next = next value

  -- A run of two parts that gives a value has one from each part.
  pub >>=-eq-ok :
      (first : Result X) (next : X → Result Y) {y : Y}
      → (first >>= next) ≡ ok y
      → (value : X) × (first ≡ ok value) × (next value ≡ ok y)
  >>=-eq-ok running next same = cc
  >>=-eq-ok (err message) next same = cc
  >>=-eq-ok (ok value) next same = (value, refl, same)

infixl 5 ◌>>◌
abbrev pub ◌>>◌ : {Y : Type 0} → Result (Unit {0}) → Result Y → Result Y
first >> second = first >>= λ _. second
