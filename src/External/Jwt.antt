-- ===== src/External/Jwt.antt =====
-- jwt.Parse of github.com/golang-jwt/jwt: the signature and the time claims are checked there.
use trading_platform_backend.Prelude.{String, Bool, Option, List}
use trading_platform_backend.External.Redis.{Values}

-- the type of t.Method, as far as the code tests it
pub data SigningMethod : Type 0 where
  hmac not_hmac : SigningMethod

-- tok.Claims: a jwt.MapClaims, or a value of another type
pub data TokenClaims : Type 0 where
  map_claims : Values → TokenClaims
  other_claims : TokenClaims

pub record JwtLibrary : Type 0 where
  -- the key function, WithValidMethods, WithExpirationRequired, the token; none where it returns an
  -- error or the token is not valid
  pub parse : (SigningMethod → Option String) → List String → Bool → String → Option TokenClaims
