-- ===== src/Examples/AccessExamples.antt =====
-- Concrete instances of the theorems on tokens, the middleware, the worker's loop and the backfill.
use Prim.Native.String.{◌++◌}
use trading_platform_backend.Prelude.{
  ℕ, suc, String, ◌≡◌, ◌⊎◌, refl, Bool, true, false, not, ◌&&◌, ◌||◌, none, some, List, [], ◌∷◌,
  arith, str_eq, if◌then◌else◌,
}
use trading_platform_backend.External.Redis.{text, canceled}
use trading_platform_backend.External.Jwt.{
  SigningMethod, hmac, not_hmac, TokenClaims, map_claims, JwtLibrary,
}
use trading_platform_backend.Httpx.{write_json}
use trading_platform_backend.Auth.{Claims, parse_token}
use trading_platform_backend.Auth.Accepts.{is_listed, signed_by, Checks}
use trading_platform_backend.Middleware.{HttpHandler, authenticate, require_user_match}
use trading_platform_backend.Middleware.Guard.{Refusal, Admitted, guarded}
use trading_platform_backend.Trades.Types.{Time}
use trading_platform_backend.Metrics.Backfill.{walk}
use trading_platform_backend.Metrics.Backfill.Recount.{recount, walk-recount}
use trading_platform_backend.Worker.Loop.{Turn, recovery_tick, context_done, run}
use trading_platform_backend.Worker.Posted.{SamePosted, run-SamePosted}
use trading_platform_backend.Examples.{ones, unary_ids, as_trader}
use trading_platform_backend.Examples.QueueExamples.{worker, world, group}

-- Every token is one of user 7.
abbrev pub any_token : JwtLibrary
any_token = record {
  parse = λ key methods expires token.
      some (
        map_claims
          (("sub", text "1111111") ∷ ("role", text "trader") ∷ ("name", text "Alex") ∷ []));
}

abbrev alex : Claims
alex = record { user_id = 7; role = "trader"; name = "Alex" }

-- A token is signed with the key that it starts with, and one that ends in "none" has no HMAC method.
abbrev signed_methods : String → SigningMethod
signed_methods token = if str_eq token "secret.none" then not_hmac else hmac

abbrev sevens_claims : TokenClaims
sevens_claims =
    map_claims (("sub", text "1111111") ∷ ("role", text "trader") ∷ ("name", text "Alex") ∷ [])

abbrev is_signed_with : String → String → Bool
is_signed_with key token = str_eq token (key ++ ".ok") || str_eq token (key ++ ".none")

abbrev checking_library : JwtLibrary
checking_library = record {
  parse = λ key methods expires token.
      if is_listed "HS256" methods
        && signed_by is_signed_with (key (signed_methods token)) token
        && (not expires || true)
        && true
      then some sevens_claims
      else none;
}

abbrev checking_library-Checks : Checks checking_library
checking_library-Checks = record {
  alg = λ token. "HS256";
  method = signed_methods;
  is_signed = is_signed_with;
  has_expiry = λ token. true;
  in_time = λ token. true;
  claims = λ token. sevens_claims;
  parse_lem = λ key methods expires token. refl;
}

-- It is accepted under the secret that it is signed with, and under no other, and not where its method
-- has no key.
secret_accepted :
    (parse_token checking_library unary_ids "secret" "secret.ok" ≡ some alex)
    × (parse_token checking_library unary_ids "public" "secret.ok" ≡ none)
    × (parse_token checking_library unary_ids "secret" "secret.none" ≡ none)
unfolding parse_token ones
secret_accepted = (refl, refl, refl)

abbrev pub say_seven : HttpHandler ℕ ℕ
say_seven ctx s = (write_json 200 7, suc s)

guarded_example :
    let out =
      authenticate any_token unary_ids "secret" "Bearer a.b.c"
        (require_user_match unary_ids "1111111" say_seven)
        as_trader
        0 in
    Refusal any_token unary_ids "secret" "Bearer a.b.c" "1111111" say_seven 0 out
    ⊎ Admitted any_token unary_ids "secret" "Bearer a.b.c" "1111111" say_seven as_trader 0 out
guarded_example =
    guarded any_token unary_ids "secret" "Bearer a.b.c" "1111111" say_seven as_trader 0

-- Twelve trades within a second.
abbrev entry_times : List Time
entry_times = 1 ∷ 2 ∷ 3 ∷ 4 ∷ 5 ∷ 6 ∷ 7 ∷ 8 ∷ 9 ∷ 10 ∷ 11 ∷ 12 ∷ []

walk-recount_example : walk [] false entry_times ≡ recount [] false entry_times
walk-recount_example = walk-recount entry_times (omega arith)

abbrev pub turn_at_tick : Turn
turn_at_tick = record { top = recovery_tick; done_in_sleep = false; cause = canceled }

abbrev pub turn_at_end : Turn
turn_at_end = record { top = context_done; done_in_sleep = false; cause = canceled }

run-SamePosted_example :
    SamePosted worker world (run worker group (turn_at_tick ∷ turn_at_end ∷ []) world).1
run-SamePosted_example = run-SamePosted worker group (turn_at_tick ∷ turn_at_end ∷ []) world
