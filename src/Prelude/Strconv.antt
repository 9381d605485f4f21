-- ===== src/Prelude/Strconv.antt =====
-- strconv.Atoi and strconv.ParseBool of Go; none is their error. An int has 64 bits.
use Prim.Native.Nat.{ℕ, zero, suc, ◌+◌, ◌-◌, ◌*◌}
use Prim.Native.Char.{Char, code}
use Prim.Native.String.{String, [], ◌∷◌}
use mathlib.Core.Bool.{Bool, true, false, ◌&&◌, ◌||◌}
use mathlib.Core.Option.{Option, none, some}
use text.Mathlib.Text.{◌==◌ as str_eq}
use trading_platform_backend.Prelude.Tests.{leb, ◌==◌, if◌then◌else◌}
use trading_platform_backend.Prelude.Int.{ℤ, pos, negsuc}

abbrev is_digit : Char → Bool
is_digit c = leb 48 (code c) && leb (code c) 57

abbrev pub digits : ℕ → String → Option ℕ
digits n [] = some n
digits n (c ∷ s) = let rest = digits (n * 10 + (code c - 48)) s in if is_digit c then rest else none

-- one digit at least
abbrev pub number : String → Option ℕ
number [] = none
number (c ∷ s) = digits 0 (c ∷ s)

abbrev negated : ℕ → ℤ
negated zero = pos 0
negated (suc n) = negsuc n

abbrev in_range : ℕ → (ℕ → ℤ) → Option ℕ → Option ℤ
in_range most f none = none
in_range most f (some n) = if leb n most then some (f n) else none

abbrev pub max_int : ℕ
max_int = 9223372036854775807

abbrev pub atoi : String → Option ℤ
atoi [] = none
atoi (c ∷ s) =
    if code c == 45
    then in_range (max_int + 1) negated (number s)
    else if code c == 43
    then in_range max_int pos (number s)
    else in_range max_int pos (number (c ∷ s))

abbrev pub parse_bool : String → Option Bool
parse_bool s =
    if str_eq s "1"
      || str_eq s "t"
      || str_eq s "T"
      || str_eq s "TRUE"
      || str_eq s "true"
      || str_eq s "True"
    then some true
    else if str_eq s "0"
        || str_eq s "f"
        || str_eq s "F"
        || str_eq s "FALSE"
        || str_eq s "false"
        || str_eq s "False"
    then some false
    else none
