-- ===== src/Prelude/Paths.antt =====
-- filepath.Base and strings.TrimSuffix of Go, the former for a path that ends with a file's name.
use Prim.Native.Nat.{◌-◌}
use Prim.Native.Char.{Char, code}
use Prim.Native.String.{String, [], ◌∷◌, len, slice}
use mathlib.Core.Bool.{Bool, false, ◌&&◌, ◌||◌}
use text.Mathlib.Text.{◌==◌ as str_eq}
use trading_platform_backend.Prelude.Tests.{leb, ◌==◌, if◌then◌else◌}

abbrev is_slash : Char → Bool
is_slash c = code c == 47

abbrev has_slash : String → Bool
has_slash [] = false
has_slash (c ∷ s) = is_slash c || has_slash s

abbrev pub base : String → String
base [] = []
base (c ∷ s) = let rest = base s in if has_slash s then rest else if is_slash c then s else c ∷ s

abbrev pub has_suffix : String → String → Bool
has_suffix s suffix =
    leb (len suffix) (len s) && str_eq (slice s (len s - len suffix) (len s)) suffix

abbrev pub trim_suffix : String → String → String
trim_suffix s suffix = if has_suffix s suffix then slice s 0 (len s - len suffix) else s
