-- ===== src/Middleware/Tracing.antt =====
-- The trace id in the error bodies that the middleware writes (internal/middleware/auth.go, trace.go).
use trading_platform_backend.Prelude.{
  String, ◌≡◌, refl, ◌∙◌, Option, none, some, Bool-cases, inl, inr, ◌==◌, str_eq,
}
use trading_platform_backend.External.Uuid.{UuidText}
use trading_platform_backend.External.Jwt.{JwtLibrary}
use trading_platform_backend.Httpx.{
  Context, Body, error_body, json, Response, with_trace_id, with_user_id, trace_id, user_id,
}
use trading_platform_backend.Auth.{Claims, parse_token}
use trading_platform_backend.Middleware.{
  HttpHandler, has_bearer, bearer_token, with_claims, match_path, match_token, authenticate,
  require_user_match,
}
use trading_platform_backend.Trades.Types.{Uuid}

user-trace_id : (ctx : Context) (user : Uuid) → trace_id (with_user_id ctx user) ≡ trace_id ctx
unfolding trace_id with_user_id
user-trace_id ctx user = refl

pub new-trace_id : (ctx : Context) (id : String) → trace_id (with_trace_id ctx id) ≡ id
unfolding trace_id with_trace_id
new-trace_id ctx id = refl

module _ {A : Type 0} where
  -- An error body has the trace id.
  abbrev pub IsTracedBody : String → Body A → Type 0
  IsTracedBody id (error_body e) = e.trace ≡ id
  IsTracedBody id (json a) = Unit {0}

  abbrev pub IsTraced : String → Response A → Type 0
  IsTraced id r = IsTracedBody id r.body

module _ {S A : Type 0} (id : String) where
  -- The handler's error bodies have the trace id of its context.
  abbrev pub IsTracing : HttpHandler S A → Type 0
  IsTracing next = (ctx : Context) (s : S) → trace_id ctx ≡ id → IsTraced id (next ctx s).0

  IsTraced-with_claims :
      (next : HttpHandler S A) (o : Option Claims) → IsTracing next → IsTracing (with_claims next o)
  IsTraced-with_claims next none traced ctx s h = h
  IsTraced-with_claims next (some c) traced ctx s h =
      traced (with_user_id ctx c.user_id) s (user-trace_id ctx c.user_id ∙ h)

  pub IsTraced-authenticate :
      (jwt : JwtLibrary) (uuids : UuidText) (secret header : String) (next : HttpHandler S A)
      → IsTracing next
      → IsTracing (authenticate jwt uuids secret header next)
  unfolding authenticate
  IsTraced-authenticate jwt uuids secret header next traced ctx s h =
      elim (Bool-cases (str_eq header "")) [
        | inl missing ↦ rw missing h
        | inr present ↦ elim (Bool-cases (has_bearer header)) [
          | inr scheme ↦ rw (present, scheme) h
          | inl bearer ↦
              rw (present, bearer)
                (IsTraced-with_claims next (parse_token jwt uuids secret (bearer_token header))
                  traced ctx s h)
        ]
      ]

  IsTraced-match_path :
      (token_uid : Uuid) (next : HttpHandler S A) (o : Option Uuid)
      → IsTracing next
      → IsTracing (match_path token_uid next o)
  IsTraced-match_path token_uid next none traced ctx s h = h
  IsTraced-match_path token_uid next (some path_uid) traced ctx s h =
      elim (Bool-cases (token_uid == path_uid)) [
        | inl same ↦ rw same (traced ctx s h)
        | inr other ↦ rw other h
      ]

  IsTraced-match_token :
      (uuids : UuidText) (path : String) (next : HttpHandler S A) (o : Option Uuid)
      → IsTracing next
      → IsTracing (match_token uuids path next o)
  IsTraced-match_token uuids path next none traced ctx s h = h
  IsTraced-match_token uuids path next (some token_uid) traced ctx s h =
      IsTraced-match_path token_uid next (uuids.parse path) traced ctx s h

  pub IsTraced-require_user_match :
      (uuids : UuidText) (path : String) (next : HttpHandler S A)
      → IsTracing next
      → IsTracing (require_user_match uuids path next)
  unfolding require_user_match
  IsTraced-require_user_match uuids path next traced ctx s h =
      IsTraced-match_token uuids path next (user_id ctx) traced ctx s h
