-- ===== src/Middleware.antt =====
-- internal/middleware/auth.go and trace.go. A handler acts on a state S and answers.
pub mod Guard
pub mod Log
pub mod Recover
pub mod Tracing
use Prim.Native.String.{[], ◌∷◌, len, slice}
use Prim.Native.Char.{Char, code}
use trading_platform_backend.Prelude.{
  ℕ, String, Bool, true, false, not, ◌&&◌, ◌||◌, Option, none, some, leb, ◌==◌, if◌then◌else◌,
  str_eq,
}
use trading_platform_backend.External.Uuid.{UuidText}
use trading_platform_backend.External.Jwt.{JwtLibrary}
use trading_platform_backend.Httpx.{
  Context, Response, with_trace_id, with_user_id, user_id, write_error,
}
use trading_platform_backend.Trades.Types.{Uuid}
use trading_platform_backend.Auth.{Claims, parse_token}

-- unicode.IsSpace
abbrev is_space : Char → Bool
is_space c =
    let n = code c in
    (leb 9 n && leb n 13)
    || n == 32
    || n == 133
    || n == 160
    || n == 5760
    || (leb 8192 n && leb n 8202)
    || n == 8232
    || n == 8233
    || n == 8239
    || n == 8287
    || n == 12288

unfoldable trim_left : String → String
trim_left [] = []
trim_left (c ∷ s) = let rest = trim_left s in if is_space c then rest else c ∷ s

abbrev keep_char : Char → String → String
keep_char c [] = if is_space c then [] else c ∷ []
keep_char c (d ∷ s) = c ∷ d ∷ s

unfoldable trim_right : String → String
trim_right [] = []
trim_right (c ∷ s) = keep_char c (trim_right s)

-- strings.TrimSpace
unfoldable pub trim_space : String → String
unfolding trim_left trim_right
trim_space s = trim_right (trim_left s)

-- strings.HasPrefix(h, "Bearer ")
abbrev pub has_bearer : String → Bool
has_bearer h = str_eq (slice h 0 7) "Bearer "

-- strings.TrimSpace(h[len(prefix):])
abbrev pub bearer_token : String → String
bearer_token h = trim_space (slice h 7 (len h))

abbrev pub HttpHandler : Type 0 → Type 0 → Type 0
HttpHandler S A = Context → S → Response A × S

-- Trace: the id that the response carries too, and what comes of the handler. `fresh` is
-- uuid.NewString().
unfoldable pub trace :
    {S T : Type 0} → String → String → (Context → S → T) → Context → S → String × T
trace fresh header next ctx s =
    let id = if str_eq header "" then fresh else header in (id, next (with_trace_id ctx id) s)

module _ {S A : Type 0} where
  abbrev refuse : Context → ℕ → String → String → S → Response A × S
  refuse ctx status code message s = (write_error ctx status code message, s)

  abbrev pub with_claims : HttpHandler S A → Option Claims → HttpHandler S A
  with_claims next none ctx s = refuse ctx 401 "UNAUTHORIZED" "Invalid or expired token." s
  with_claims next (some c) ctx s = next (with_user_id ctx c.user_id) s

  -- Authenticator; `header` is the Authorization header, "" where there is none
  unfoldable pub authenticate :
      JwtLibrary → UuidText → String → String → HttpHandler S A → HttpHandler S A
  authenticate jwt uuids secret header next ctx s =
      if str_eq header ""
      then refuse ctx 401 "UNAUTHORIZED" "Missing Authorization header." s
      else if not (has_bearer header)
      then refuse ctx 401 "UNAUTHORIZED" "Authorization header must use Bearer scheme." s
      else with_claims next (parse_token jwt uuids secret (bearer_token header)) ctx s

  abbrev pub match_path : Uuid → HttpHandler S A → Option Uuid → HttpHandler S A
  match_path token_uid next none ctx s =
      refuse ctx 400 "BAD_REQUEST" "userId path parameter must be a UUID." s
  match_path token_uid next (some path_uid) ctx s =
      if token_uid == path_uid
      then next ctx s
      else refuse ctx 403 "FORBIDDEN" "Cross-tenant access denied." s

  abbrev pub match_token : UuidText → String → HttpHandler S A → Option Uuid → HttpHandler S A
  match_token uuids path next none ctx s =
      refuse ctx 401 "UNAUTHORIZED" "Missing authenticated user." s
  match_token uuids path next (some token_uid) ctx s =
      match_path token_uid next (uuids.parse path) ctx s

  -- RequireUserMatch; `path` is the path parameter
  unfoldable pub require_user_match : UuidText → String → HttpHandler S A → HttpHandler S A
  require_user_match uuids path next ctx s = match_token uuids path next (user_id ctx) ctx s
