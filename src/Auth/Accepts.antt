-- ===== src/Auth/Accepts.antt =====
-- Which tokens Verifier.Parse of internal/auth/jwt.go accepts.
use trading_platform_backend.Prelude.{
  String, ◌≡◌, ◌≢◌, Bool, true, false, ◌&&◌, ◌||◌, not, Option, none, some, List, [], ◌∷◌, str_eq,
  if◌then◌else◌,
}
use trading_platform_backend.External.Redis.{Values}
use trading_platform_backend.External.Uuid.{UuidText}
use trading_platform_backend.External.Jwt.{SigningMethod, hmac, TokenClaims, map_claims, JwtLibrary}
use trading_platform_backend.Queue.Codec.{get}
use trading_platform_backend.Auth.{Claims, key_function}

abbrev pub is_listed : String → List String → Bool
is_listed s [] = false
is_listed s (m ∷ ms) = str_eq m s || is_listed s ms

abbrev pub signed_by : (String → String → Bool) → Option String → String → Bool
signed_by is_signed none token = false
signed_by is_signed (some key) token = is_signed key token

-- What jwt.Parse documents: the token's header names an algorithm, which stands for a signing method;
-- the algorithm is one of WithValidMethods, the key function gives a key for the method, the
-- signature is valid under that key, there is an expiry where WithExpirationRequired asks for one, and
-- the times of the token hold now. Otherwise it returns an error.
pub record Checks (jwt : JwtLibrary) : Type 0 where
  pub alg : String → String
  pub method : String → SigningMethod
  pub is_signed : String → String → Bool
  pub has_expiry : String → Bool
  pub in_time : String → Bool
  pub claims : String → TokenClaims
  pub parse_lem :
      (key : SigningMethod → Option String) (methods : List String) (expires : Bool)
      (token : String)
      → jwt.parse key methods expires token ≡ (
          if is_listed (alg token) methods
            && signed_by is_signed (key (method token)) token
            && (not expires || has_expiry token)
            && in_time token
          then some (claims token)
          else none)

module _ (jwt : JwtLibrary) (uuids : UuidText) (checks : Checks jwt) where
  open checks use {alg, method, is_signed, has_expiry, in_time, claims, parse_lem}

  -- A token of an HMAC method named HS256, signed with the secret, with an expiry and at a time within
  -- its times, whose subject is a UUID and whose role is not empty; the claims are those it states.
  pub record IsAccepted (secret token : String) (c : Claims) : Type 0 where
    pub algorithm : alg token ≡ "HS256"
    pub is_hmac : method token ≡ hmac
    pub signature : is_signed secret token ≡ true
    pub expires : has_expiry token ≡ true
    pub live : in_time token ≡ true
    pub stated : Values
    pub is_stated : claims token ≡ map_claims stated
    pub subject : uuids.parse (get stated "sub") ≡ some c.user_id
    pub has_role : c.role ≢ ""
    pub role_stated : get stated "role" ≡ c.role
    pub name_stated : get stated "name" ≡ c.name

  -- The library's part of it, as a test.
  abbrev is_verified : String → String → Bool
  is_verified secret token =
      is_listed (alg token) ("HS256" ∷ [])
      && signed_by is_signed (key_function secret (method token)) token
      && (not true || has_expiry token)
      && in_time token

  record IsVerified (secret token : String) : Type 0 where
    algorithm : alg token ≡ "HS256"
    is_hmac : method token ≡ hmac
    signature : is_signed secret token ≡ true
    expires : has_expiry token ≡ true
    live : in_time token ≡ true
