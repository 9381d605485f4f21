-- ===== src/Config/Required.antt =====
-- When Load (internal/config/config.go) accepts the environment.
use Prim.Native.String.{◌++◌ as ◌+++◌}
use trading_platform_backend.Prelude.{
  String, ◌≡◌, ◌≢◌, ◌⊎◌, inl, inr, refl, ap, Option, none, some, List, [], ◌∷◌, ◌++◌, arith, eq_iff,
  str_eq, Bool-cases,
}
use trading_platform_backend.Prelude.Int.{ℤ, pos}
use trading_platform_backend.Prelude.Strconv.{atoi}
use trading_platform_backend.Config.{
  Config, Environment, Loaded, loaded, rejected, atoi_default, atoi_checked, required, join, finish,
  config_of, load,
}

-- The variable has a number, or its default.
abbrev pub HasPort : Environment → ℤ → Type 0
HasPort env port =
    ((env "PORT" ≡ "") × (port ≡ pos 8080)) ⊎ ((env "PORT" ≢ "") × (atoi (env "PORT") ≡ some port))

pub record IsComplete (env : Environment) (port : ℤ) : Type 0 where
  pub database : env "DATABASE_URL" ≢ ""
  pub redis : env "REDIS_URL" ≢ ""
  pub secret : env "JWT_SECRET" ≢ ""
  pub number : HasPort env port

-- The two results, by whether the environment is complete.
abbrev pub IsLoad : Environment → Loaded → Type 0
IsLoad env out =
    ((port : ℤ) × IsComplete env port × (out ≡ loaded (config_of env port)))
    ⊎ (((port : ℤ) → ¬ (IsComplete env port)) × ((m : String) × (out ≡ rejected m)))

abbrev IsFilled : List String → Type 0
IsFilled xs = (e : String) × (es : List String) × (xs ≡ e ∷ es)

IsFilled-left : (xs ys : List String) → IsFilled xs → IsFilled (xs ++ ys)
IsFilled-left xs ys (e, es, h) = (e, es ++ ys, ap (λ zs. zs ++ ys) h)

IsFilled-right : (xs ys : List String) → IsFilled ys → IsFilled (xs ++ ys)
IsFilled-right [] ys h = h
IsFilled-right (x ∷ xs) ys h = (x, xs ++ ys, refl)

rejected_of :
    (cfg : Config) (errs : List String)
    → IsFilled errs
    → (m : String) × (finish cfg errs ≡ rejected m)
rejected_of cfg errs (e, es, h) = ("config: " +++ join (e ∷ es), ap (finish cfg) h)

required-cases :
    (env : Environment) (key : String)
    → ((env key ≢ "") × (required env key ≡ [])) ⊎ ((env key ≡ "") × IsFilled (required env key))
required-cases env key = elim (Bool-cases (str_eq (env key) "")) [
  | inl h ↦ inr ((eq_iff (env key) "").0 h, (key +++ " is required", [], rw h refl))
  | inr h ↦ inl (ground (arith, eq_iff (env key) ""), rw h refl)
]

abbrev IsPort : Environment → ℤ × List String → Type 0
IsPort env (port, errs) =
    (HasPort env port × (errs ≡ [])) ⊎ (((n : ℤ) → ¬ (HasPort env n)) × IsFilled errs)

IsPort-checked :
    (env : Environment) (o : Option ℤ)
    → env "PORT" ≢ ""
    → atoi (env "PORT") ≡ o
    → IsPort env (atoi_checked "PORT" (env "PORT") o)
IsPort-checked env (some n) given number = inl (inr (given, number), refl)
IsPort-checked env none given bad = inr (
  (λ n has. elim has [
    | inl (unset, same) ↦ given unset
    | inr (there, number) ↦ absurd (cc (number, bad))
  ]),
  ("PORT" +++ (" must be an integer, got " +++ env "PORT"), [], refl),
)

IsPort-cases : (env : Environment) → IsPort env (atoi_default env "PORT" (pos 8080))
unfolding atoi_default
IsPort-cases env = elim (Bool-cases (str_eq (env "PORT") "")) [
  | inl unset ↦ rw unset (inl (inl ((eq_iff (env "PORT") "").0 unset, refl), refl))
  | inr set ↦
      let given : env "PORT" ≢ "" = ground (arith, eq_iff (env "PORT") "") in
      rw set (IsPort-checked env (atoi (env "PORT")) given refl)
]

abbrev all_errors : Environment → List String → List String
all_errors env errs =
    ((errs ++ required env "DATABASE_URL") ++ required env "REDIS_URL") ++ required env "JWT_SECRET"

IsLoad-database :
    (env : Environment) (port : ℤ) (errs : List String)
    → IsFilled (errs ++ required env "DATABASE_URL")
    → (m : String) × (finish (config_of env port) (all_errors env errs) ≡ rejected m)
IsLoad-database env port errs filled =
    let a = errs ++ required env "DATABASE_URL" in
    let b = required env "REDIS_URL" in
    rejected_of (config_of env port) (all_errors env errs)
      (IsFilled-left (a ++ b) (required env "JWT_SECRET") (IsFilled-left a b filled))

IsLoad-finish :
    (env : Environment) (r : ℤ × List String)
    → IsPort env r
    → IsLoad env (finish (config_of env r.0) (all_errors env r.1))
IsLoad-finish env (port, errs) (inr (bad, filled)) = inr (
  (λ n v. bad n v.number),
  IsLoad-database env port errs (IsFilled-left errs (required env "DATABASE_URL") filled),
)
IsLoad-finish env (port, errs) (inl (has, none_yet)) =
    let a = errs ++ required env "DATABASE_URL" in
    let b = required env "REDIS_URL" in
    let c = required env "JWT_SECRET" in
    let cfg = config_of env port in
    elim (required-cases env "DATABASE_URL") [
      | inr (unset, filled) ↦ inr (
        (λ n v. v.database unset),
        IsLoad-database env port errs (IsFilled-right errs (required env "DATABASE_URL") filled),
      )
      | inl (database, no_a) ↦ elim (required-cases env "REDIS_URL") [
        | inr (unset, filled) ↦ inr (
          (λ n v. v.redis unset),
          rejected_of cfg (all_errors env errs)
              (IsFilled-left (a ++ b) c (IsFilled-right a b filled)),
        )
        | inl (redis, no_b) ↦ elim (required-cases env "JWT_SECRET") [
          | inr (unset, filled) ↦ inr (
            (λ n v. v.secret unset),
            rejected_of cfg (all_errors env errs) (IsFilled-right (a ++ b) c filled),
          )
          | inl (secret, no_c) ↦ inl (
            port,
            record { database = database; redis = redis; secret = secret; number = has },
            simp (none_yet, no_a, no_b, no_c),
          )
        ]
      ]
    ]

-- Load returns a configuration exactly where DATABASE_URL, REDIS_URL and JWT_SECRET are set and PORT is
-- an integer or not set, with that port or 8080; otherwise it returns an error.
pub load-IsLoad : (env : Environment) → IsLoad env (load env)
unfolding load
load-IsLoad env = IsLoad-finish env (atoi_default env "PORT" (pos 8080)) (IsPort-cases env)
