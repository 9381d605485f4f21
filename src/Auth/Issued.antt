-- ===== src/Auth/Issued.antt =====
-- A token of IssueToken (internal/auth/token.go) at Parse (internal/auth/jwt.go).
use trading_platform_backend.Prelude.{String, ◌≡◌, refl, true, Option, none, some, [], ◌∷◌}
use trading_platform_backend.External.Redis.{Values}
use trading_platform_backend.External.Uuid.{UuidText}
use trading_platform_backend.External.Jwt.{hmac, SigningMethod, map_claims, JwtLibrary}
use trading_platform_backend.Trades.Types.{Uuid}
use trading_platform_backend.Auth.{
  Claims, key_function, parse_token, claims_at, issued_claims, issue_token,
}

-- The token verifies under the secret that it was signed with, and its claims are read back; the
-- library's clock is before its expiry.
abbrev pub IsVerified : JwtLibrary → Values → String → String → Type 0
IsVerified jwt claims secret token =
    (key : SigningMethod → Option String)
    → key hmac ≡ some secret
    → jwt.parse key ("HS256" ∷ []) true token ≡ some (map_claims claims)

abbrev pub trader_claims : String → Option Uuid → Option Claims
trader_claims name none = none
trader_claims name (some id) = some (record { user_id = id; role = "trader"; name = name })

claims_at-issued :
    (sub name : String) (o : Option Uuid)
    → claims_at (issued_claims sub name) o ≡ trader_claims name o
claims_at-issued sub name none = refl
claims_at-issued sub name (some id) = refl

module _ (jwt : JwtLibrary) (uuids : UuidText) (sign : Values → String → Option String) where
  -- Parse takes a token that IssueToken has signed with the same secret, before its expiry, exactly
  -- where its subject is a UUID: the claims are that user, the role trader and the name.
  pub parse-issue_token :
      (secret sub name token : String)
      → issue_token sign secret sub name ≡ some token
      → ((claims : Values) → sign claims secret ≡ some token → IsVerified jwt claims secret token)
      → parse_token jwt uuids secret token ≡ trader_claims name (uuids.parse sub)
  unfolding issue_token parse_token
  parse-issue_token secret sub name token issued verifies =
      rw (verifies (issued_claims sub name) issued (key_function secret) refl)
        (claims_at-issued sub name (uuids.parse sub))
