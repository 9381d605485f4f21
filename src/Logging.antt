-- ===== src/Logging.antt =====
-- internal/logger/logger.go: New and parseLevel, and what log/slog does with the level.
use Prim.Native.String.{[], ◌∷◌}
use Prim.Native.Char.{code}
use trading_platform_backend.Prelude.{
  ℕ, ◌+◌, String, ◌≡◌, refl, Bool, true, false, ◌&&◌, List, leb, ◌==◌, if◌then◌else◌,
}
use trading_platform_backend.Middleware.{trim_space}

-- slog.Level
pub data Level : Type 0 where
  debug info warn error : Level

-- unicode.ToLower, as far as ASCII shows: the two letters outside ASCII with a lower case in it are
-- U+0130 and U+212A.
abbrev lower_code : ℕ → ℕ
lower_code c =
    if leb b'A' c && leb c b'Z'
    then c + 32
    else if c == 304
    then b'i'
    else if c == 8490
    then b'k'
    else c

-- the code points of strings.ToLower(s)
abbrev lower_codes : String → List ℕ
lower_codes [] = List.[]
lower_codes (c ∷ s) = List.◌∷◌ (lower_code (code c)) (lower_codes s)

abbrev same_codes : List ℕ → List ℕ → Bool
same_codes List.[] List.[] = true
same_codes List.[] (List.◌∷◌ b bs) = false
same_codes (List.◌∷◌ a as') List.[] = false
same_codes (List.◌∷◌ a as') (List.◌∷◌ b bs) = a == b && same_codes as' bs

abbrev level_of : List ℕ → Level
level_of name =
    if same_codes name (lower_codes "debug")
    then debug
    else if same_codes name (lower_codes "warn")
    then warn
    else if same_codes name (lower_codes "warning")
    then warn
    else if same_codes name (lower_codes "error")
    then error
    else info

-- parseLevel
unfoldable pub parse_level : String → Level
parse_level s = level_of (lower_codes (trim_space s))

-- slog's numbers of the levels, plus 4
abbrev pub severity : Level → ℕ
severity debug = 0
severity info = 4
severity warn = 8
severity error = 12

-- The logger of New(level) writes a line of this level.
unfoldable pub is_enabled : String → Level → Bool
is_enabled log_level level = leb (severity (parse_level log_level)) (severity level)

warning_shouted : parse_level "  WARNING " ≡ warn
unfolding parse_level trim_space
warning_shouted = refl
