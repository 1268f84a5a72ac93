-- ===== src/Shared/Texts.antt =====
-- Texts as their code units: the comparison `<` of JavaScript strings, and printed numbers.
use Prim.Native.Char.{code}
use Prim.Native.Nat.{ℕ, zero, suc, ◌+◌, ◌-◌, ◌*◌, ◌/◌, ◌%◌}
use Prim.Native.String.{String, ◌++◌, slice}
use mathlib.Core.Bool.{Bool, true, false, ◌&&◌, ◌||◌}
use mathlib.Core.Option.{Option, none, some}
use text.Mathlib.Text.{◌==◌}
use mathlib.Core.List.{List, [], ◌∷◌}
use shade.Shared.Tests.{ltb, nat_eq, if◌then◌else◌}

unfoldable pub codes : String → List ℕ
codes String.[] = []
codes (String.◌∷◌ c s) = code c ∷ codes s

-- `a < b` on strings: the first unit that differs decides, and a proper prefix is smaller.
unfoldable pub text_lt : List ℕ → List ℕ → Bool
text_lt xs [] = false
text_lt [] (y ∷ ys) = true
text_lt (x ∷ xs) (y ∷ ys) = if nat_eq x y then text_lt xs ys else ltb x y

-- `n.toString()`; a number has fewer digits than `n + 1`, which is the fuel.
unfoldable pub digits : ℕ → ℕ → List ℕ → List ℕ
digits zero n acc = acc
digits (suc fuel) n acc = elim (ltb n 10) [
  | true ↦ (48 + n) ∷ acc
  | false ↦ digits fuel (n / 10) ((48 + n % 10) ∷ acc)
]

unfoldable pub decimal : ℕ → List ℕ
unfolding digits
decimal n = digits (n + 1) n []

-- `s.slice(0, n)`
unfoldable pub clip : ℕ → String → String
clip zero s = ""
clip (suc n) String.[] = ""
clip (suc n) (String.◌∷◌ c s) = String.◌∷◌ c (clip n s)

abbrev digit : ℕ → String
digit n = slice "0123456789" n (n + 1)

unfoldable pub print_digits : ℕ → ℕ → String
print_digits zero n = ""
print_digits (suc fuel) n =
    let rest = print_digits fuel (n / 10) in if ltb n 10 then digit n else rest ++ digit (n % 10)

-- A number in a template string.
unfoldable pub printed : ℕ → String
unfolding print_digits
printed n = print_digits (n + 1) n

-- `s.toLowerCase()` on the letters of ASCII.
unfoldable pub lower : String → String
lower String.[] = ""
lower (String.◌∷◌ c s) =
    let rest = lower s in
    let n = code c in
    if ltb n 65 || ltb 90 n
    then String.◌∷◌ c rest
    else slice "abcdefghijklmnopqrstuvwxyz" (n - 65) (n - 64) ++ rest

-- `s.startsWith("0x") ? s.slice(2) : s`
unfoldable pub strip_hex : String → String
strip_hex String.[] = ""
strip_hex (String.◌∷◌ c String.[]) = String.◌∷◌ c String.[]
strip_hex (String.◌∷◌ c (String.◌∷◌ d s)) =
    if nat_eq (code c) 48 && nat_eq (code d) 120 then s else String.◌∷◌ c (String.◌∷◌ d s)

abbrev pub hex_digit : ℕ → Option ℕ
hex_digit n =
    if ltb n 48
    then none
    else if ltb n 58
    then some (n - 48)
    else if ltb n 65
    then none
    else if ltb n 71
    then some (n - 55)
    else if ltb n 97
    then none
    else if ltb n 103
    then some (n - 87)
    else none

abbrev pub and_digit : Option ℕ → Option ℕ → Option ℕ
and_digit (some n) (some d) = some (16 * n + d)
and_digit _ _ = none

unfoldable pub hex_value : Option ℕ → List ℕ → Option ℕ
hex_value n [] = n
hex_value n (c ∷ cs) = hex_value (and_digit n (hex_digit c)) cs

-- `BigInt("0x" + s)`, which throws on anything but hexadecimal digits, and on no digit at all.
unfoldable pub parse_hex : String → Option ℕ
unfolding hex_value codes
parse_hex s = if s == "" then none else hex_value (some 0) (codes s)

unfoldable pub hex_digits : ℕ → ℕ → String
hex_digits zero n = ""
hex_digits (suc width) n =
    hex_digits width (n / 16) ++ slice "0123456789abcdef" (n % 16) (n % 16 + 1)

-- A template string by its parts.
unfoldable pub joined : List String → String
joined [] = ""
joined (s ∷ parts) = s ++ joined parts
