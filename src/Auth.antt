-- ===== src/Auth.antt =====
-- internal/auth/jwt.go: Verifier.Parse, and internal/auth/token.go: IssueToken.
pub mod Accepts
pub mod Issued
use trading_platform_backend.Prelude.{
  String, Bool, true, Option, none, some, List, [], ◌∷◌, if◌then◌else◌, str_eq,
}
use trading_platform_backend.External.Redis.{Values, text, not_text}
use trading_platform_backend.External.Uuid.{UuidText}
use trading_platform_backend.External.Jwt.{
  SigningMethod, hmac, not_hmac, TokenClaims, map_claims, other_claims, JwtLibrary,
}
use trading_platform_backend.Trades.Types.{Uuid}
use trading_platform_backend.Queue.Codec.{get}

pub record Claims : Type 0 where
  pub user_id : Uuid
  pub role : String
  pub name : String

-- the function that gives jwt.Parse its key: only an HMAC method has one
abbrev pub key_function : String → SigningMethod → Option String
key_function secret hmac = some secret
key_function secret not_hmac = none

-- the role test and the result; none is ErrInvalidToken
abbrev pub claims_at : Values → Option Uuid → Option Claims
claims_at mc none = none
claims_at mc (some id) =
    if str_eq (get mc "role") ""
    then none
    else some (record { user_id = id; role = get mc "role"; name = get mc "name" })

module _ (jwt : JwtLibrary) (uuids : UuidText) where
  abbrev pub claims_of : Option TokenClaims → Option Claims
  claims_of none = none
  claims_of (some other_claims) = none
  claims_of (some (map_claims mc)) = claims_at mc (uuids.parse (get mc "sub"))

  -- Parse
  unfoldable pub parse_token : String → String → Option Claims
  parse_token secret token = claims_of (jwt.parse (key_function secret) ("HS256" ∷ []) true token)

-- the claims that IssueToken signs; iat and exp are numbers
abbrev pub issued_claims : String → String → Values
issued_claims sub name =
    ("sub", text sub)
    ∷ ("iat", not_text)
    ∷ ("exp", not_text)
    ∷ ("role", text "trader")
    ∷ ("name", text name)
    ∷ []

-- IssueToken; `sign` is SignedString of a token with HS256 and these claims
unfoldable pub issue_token :
    (Values → String → Option String) → String → String → String → Option String
issue_token sign secret sub name = sign (issued_claims sub name) secret
