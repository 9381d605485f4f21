-- ===== src/Middleware/Guard.antt =====
-- Who gets through the chain of Authenticator and RequireUserMatch of internal/middleware/auth.go.
use trading_platform_backend.Prelude.{
  String, ◌≡◌, ◌⊎◌, inl, inr, refl, true, false, some, arith, ◌==◌, str_eq, Bool-cases,
  Option-cases,
}
use trading_platform_backend.External.Uuid.{UuidText}
use trading_platform_backend.External.Jwt.{JwtLibrary}
use trading_platform_backend.Httpx.{Context, Response, with_user_id}
use trading_platform_backend.Auth.{Claims, parse_token}
use trading_platform_backend.Middleware.{
  HttpHandler, has_bearer, bearer_token, authenticate, require_user_match,
}

module _ {S A : Type 0} (jwt : JwtLibrary) (uuids : UuidText) (secret header path : String)
    (next : HttpHandler S A) where
  -- A refused request: the status is one of three, and the state is as it was.
  abbrev pub Refusal : S → Response A × S → Type 0
  Refusal s (r, s') = ((r.status ≡ 401) ⊎ (r.status ≡ 400) ⊎ (r.status ≡ 403)) × (s' ≡ s)

  -- The handler ran, for a user whose token was accepted and whose id the path names.
  abbrev pub Admitted : Context → S → Response A × S → Type 0
  Admitted ctx s out =
      (c : Claims) × (has_bearer header ≡ true)
      × (parse_token jwt uuids secret (bearer_token header) ≡ some c)
      × (uuids.parse path ≡ some c.user_id)
      × (out ≡ next (with_user_id ctx c.user_id) s)

  matched :
      (ctx : Context) (s : S) (c : Claims)
      → has_bearer header ≡ true
      → parse_token jwt uuids secret (bearer_token header) ≡ some c
      → let out = require_user_match uuids path next (with_user_id ctx c.user_id) s in
        Refusal s out ⊎ Admitted ctx s out
  unfolding require_user_match with_user_id
  matched ctx s c bearer token = elim (Option-cases (uuids.parse path)) [
    | inl e ↦ rw e (inl (inr (inl refl), refl))
    | inr (p, e) ↦ elim (Bool-cases (c.user_id == p)) [
      | inl same ↦ rw (e, same) (inr (c, bearer, token, ground arith, refl))
      | inr other ↦ rw (e, other) (inl (inr (inr refl), refl))
    ]
  ]

  authenticated :
      (ctx : Context) (s : S) (c : Claims)
      → str_eq header "" ≡ false
      → has_bearer header ≡ true
      → parse_token jwt uuids secret (bearer_token header) ≡ some c
      → authenticate jwt uuids secret header (require_user_match uuids path next) ctx s
        ≡ require_user_match uuids path next (with_user_id ctx c.user_id) s
  unfolding authenticate
  authenticated ctx s c present bearer good = rw (present, bearer, good) refl

  -- A request passes Authenticator and RequireUserMatch in one of two ways: it is refused with 401,
  -- 400 or 403 and the handler does not run; or its bearer token was accepted, the path names the
  -- token's user, and the handler runs with that user in its context.
  pub guarded :
      (ctx : Context) (s : S)
      → let out = authenticate jwt uuids secret header (require_user_match uuids path next) ctx s in
        Refusal s out ⊎ Admitted ctx s out
  guarded ctx s = elim (Bool-cases (str_eq header "")) [
    | inl missing ↦ unfold authenticate in rw missing (inl (inl refl, refl))
    | inr present ↦ elim (Bool-cases (has_bearer header)) [
      | inr scheme ↦ unfold authenticate in rw (present, scheme) (inl (inl refl, refl))
      | inl bearer ↦ elim (Option-cases (parse_token jwt uuids secret (bearer_token header))) [
        | inl bad ↦ unfold authenticate in rw (present, bearer, bad) (inl (inl refl, refl))
        | inr (c, good) ↦
            rw (authenticated ctx s c present bearer good) (matched ctx s c bearer good)
      ]
    ]
  ]
