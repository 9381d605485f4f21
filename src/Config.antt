-- ===== src/Config.antt =====
-- internal/config/config.go. The environment is a function: os.Getenv gives "" for a variable that is
-- not set. The bytes of the secret are its text.
pub mod Required
use Prim.Native.String.{◌++◌ as ◌+++◌}
use trading_platform_backend.Prelude.{
  String, Bool, Option, none, some, List, [], ◌∷◌, ◌++◌, if◌then◌else◌, str_eq,
}
use trading_platform_backend.Prelude.Int.{ℤ, pos}
use trading_platform_backend.Prelude.Strconv.{atoi}

-- Config
pub record Config : Type 0 where
  pub port : ℤ
  pub database_url : String
  pub redis_url : String
  pub jwt_secret : String
  pub log_level : String
  pub seed_on_start : Bool
  pub seed_file_path : String
  pub migrations_dir : String
  pub stream_name : String
  pub consumer_group : String
  pub consumer_name : String

-- the two results of Load
pub data Loaded : Type 0 where
  loaded : Config → Loaded
  rejected : String → Loaded

abbrev pub Environment : Type 0
Environment = String → String

-- getenv
abbrev pub getenv : Environment → String → String → String
getenv env key fallback = if str_eq (env key) "" then fallback else env key

-- a number with the texts of the errors
abbrev pub atoi_checked : String → String → Option ℤ → ℤ × List String
atoi_checked key v none = (pos 0, (key +++ (" must be an integer, got " +++ v)) ∷ [])
atoi_checked key v (some n) = (n, [])

-- atoiDefault
unfoldable pub atoi_default : Environment → String → ℤ → ℤ × List String
atoi_default env key fallback =
    if str_eq (env key) "" then (fallback, []) else atoi_checked key (env key) (atoi (env key))

-- the error of a variable that has to be set
abbrev pub required : Environment → String → List String
required env key = if str_eq (env key) "" then (key +++ " is required") ∷ [] else []

-- strings.Join(errs, "; ")
abbrev pub join : List String → String
join [] = ""
join (e ∷ []) = e
join (e ∷ f ∷ es) = e +++ ("; " +++ join (f ∷ es))

abbrev pub finish : Config → List String → Loaded
finish cfg [] = loaded cfg
finish cfg (e ∷ es) = rejected ("config: " +++ join (e ∷ es))

abbrev pub config_of : Environment → ℤ → Config
config_of env port = record {
  port = port;
  database_url = env "DATABASE_URL";
  redis_url = env "REDIS_URL";
  jwt_secret = env "JWT_SECRET";
  log_level = getenv env "LOG_LEVEL" "info";
  seed_on_start = str_eq (getenv env "SEED_ON_START" "true") "true";
  seed_file_path = getenv env "SEED_FILE_PATH" "./nevup_seed_dataset.csv";
  migrations_dir = getenv env "MIGRATIONS_DIR" "./migrations";
  stream_name = getenv env "STREAM_NAME" "trade-events";
  consumer_group = getenv env "CONSUMER_GROUP" "metrics-workers";
  consumer_name = getenv env "CONSUMER_NAME" "worker-1";
}

-- Load
unfoldable pub load : Environment → Loaded
load env =
    let (port, errs) = atoi_default env "PORT" (pos 8080) in
    finish (config_of env port) (
      ((errs ++ required env "DATABASE_URL") ++ required env "REDIS_URL")
      ++ required env "JWT_SECRET")
