-- ===== src/Api.antt =====
-- cmd/api/main.go: what run does to the data before it serves, and the routes of the router with the
-- middleware around each handler. chi matches the path and gives its parameter; the files, the
-- signals and the shutdown are in Programs. Mount is of each handler's file.
pub mod Traced
pub mod Prepared
pub mod Logged
use Prim.Native.String.{◌++◌}
use trading_platform_backend.Prelude.{
  ℕ, String, Bool, true, false, Option, none, some, List, [], ◌∷◌, if◌then◌else◌, str_eq,
}
use trading_platform_backend.External.Float.{FloatOps}
use trading_platform_backend.External.Postgres.{NumericOps}
use trading_platform_backend.External.Uuid.{UuidText}
use trading_platform_backend.External.TimeText.{TimeText}
use trading_platform_backend.External.SeedText.{SeedText}
use trading_platform_backend.External.Jwt.{JwtLibrary}
use trading_platform_backend.Config.{Config}
use trading_platform_backend.Database.{Db}
use trading_platform_backend.Database.Exec.{Exec, pure, ◌>>=◌, ◌>>◌}
use trading_platform_backend.Httpx.{Context, Body, Response, write_error}
use trading_platform_backend.Middleware.{HttpHandler, trace, authenticate, require_user_match}
use trading_platform_backend.Middleware.Recover.{Ran, recoverer}
use trading_platform_backend.Middleware.Log.{Writer, Call, Request, LogLine, logger, calls_of}
use trading_platform_backend.Queue.Event.{Event}
use trading_platform_backend.Trades.Types.{Uuid, Trade}
use trading_platform_backend.Trades.Handler.{Decoded, Reply, get_trade, create}
use trading_platform_backend.Metrics.Query.{MetricsResponse, QueryValues, get_metrics}
use trading_platform_backend.Metrics.Backfill.Flags.{has_snapshots}
use trading_platform_backend.Metrics.Backfill.Events.{backfill_from_trades}
use trading_platform_backend.Seed.{seed_from_csv}

module _ {F : Type 0} (ops : FloatOps F) (numeric : NumericOps F) (times : TimeText)
    (texts : SeedText F) (users counted : List Uuid → List Uuid) where
  -- the backfill, unless there are snapshots
  abbrev pub backfill_unless : Bool → Exec F (Unit {0})
  backfill_unless true = pure tt
  backfill_unless false = backfill_from_trades numeric users counted

  -- the block under cfg.SeedOnStart
  unfoldable pub seed_on_start : Option (List (Option (List String))) → Exec F (Unit {0})
  seed_on_start file = do
    seed_from_csv ops numeric texts times file
    has_snap ← has_snapshots
    backfill_unless has_snap

  -- the work on the tables between the migrations and the Redis client
  unfoldable pub prepare : Config → Option (List (Option (List String))) → Exec F (Unit {0})
  prepare cfg file = if cfg.seed_on_start then seed_on_start file else pure tt

-- The three r.Use of run, around a handler that writes or panics: Trace, then Logger, then Recoverer.
module _ {W S A : Type 0} (to : Writer W) (log_level : String) (encode : Body A → String)
    (req : Request) (start end : ℕ) where
  abbrev pub recovered : (Context → S → Ran × S) → Context → S → List Call × S
  recovered next ctx s = let (ran, s') = next ctx s in (recoverer encode ctx ran, s')

  abbrev pub logged :
      (Context → S → Ran × S) → Context → W × List LogLine × S → W × List LogLine × S
  logged next = logger log_level req start end to (recovered next)

  unfoldable pub serve :
      String
      → String
      → (Context → S → Ran × S)
      → Context
      → W × List LogLine × S
      → String × (W × List LogLine × S)
  unfolding recoverer
  serve fresh trace_header next = trace fresh trace_header (logged next)

-- serveStatic: the path that is served, none for 404; `is_file` is os.Stat without an error, of no
-- directory
abbrev first_file : (String → Bool) → List String → Option String
first_file is_file [] = none
first_file is_file (p ∷ ps) = if is_file p then some p else first_file is_file ps

unfoldable serve_static : (String → Bool) → String → Option String
serve_static is_file rel = first_file is_file (rel ∷ ("/app/" ++ rel) ∷ ("./" ++ rel) ∷ [])

module _ {F : Type 0} (ops : FloatOps F) (numeric : NumericOps F) (uuids : UuidText)
    (times : TimeText) (jwt : JwtLibrary) (quote : String → String) (secret : String) where
  abbrev events_with : Option Event → List Event → List Event
  events_with none es = es
  events_with (some e) es = e ∷ es

  abbrev pub answered : List Event → Reply F × Db F → Response (Trade F) × (Db F × List Event)
  answered sent (r, db) = (r.response, (db, events_with r.publishes sent))

  -- the state is the tables and the events handed to the producer
  abbrev pub create_handler : Decoded F → HttpHandler (Db F × List Event) (Trade F)
  create_handler body ctx (db, sent) = answered sent (create ops numeric uuids true ctx body db)

  -- POST /trades; `fresh` and `trace_header` are the arguments of Trace, `header` is Authorization
  unfoldable pub post_trades :
      String
      → String
      → String
      → Decoded F
      → Context
      → Db F × List Event
      → String × (Response (Trade F) × (Db F × List Event))
  post_trades fresh trace_header header body =
      trace fresh trace_header (authenticate jwt uuids secret header (create_handler body))

  -- GET /trades/{tradeId}
  unfoldable pub get_trades :
      String → String → String → String → Context → Db F → String × (Response (Trade F) × Db F)
  get_trades fresh trace_header header path =
      trace fresh trace_header
        (authenticate jwt uuids secret header (λ ctx db. get_trade uuids ctx path db))

  -- GET /users/{userId}/metrics
  unfoldable pub get_user_metrics :
      String
      → String
      → String
      → String
      → QueryValues
      → Context
      → Db F
      → String × (Response (MetricsResponse F) × Db F)
  get_user_metrics fresh trace_header header path q = trace fresh trace_header (
      authenticate jwt uuids secret header (
        require_user_match uuids path
          (λ ctx db. get_metrics ops numeric uuids times quote ctx path q db)))
