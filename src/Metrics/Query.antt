-- ===== src/Metrics/Query.antt =====
-- internal/metrics/handler.go: GET /users/{userId}/metrics. The query's values and the path parameter
-- are arguments; `quote` is the %q of fmt.
pub mod Answers
use Prim.Native.String.{◌++◌}
use trading_platform_backend.Prelude.{
  ℕ, String, Option, none, some, List, ltb, if◌then◌else◌, str_eq,
}
use trading_platform_backend.External.Float.{FloatOps}
use trading_platform_backend.External.Postgres.{NumericOps}
use trading_platform_backend.External.Uuid.{UuidText}
use trading_platform_backend.External.TimeText.{TimeText}
use trading_platform_backend.Database.{Db}
use trading_platform_backend.Database.Exec.{Result, ok, err}
use trading_platform_backend.Httpx.{Context, Response, write_error, write_json}
use trading_platform_backend.Trades.Types.{Uuid, Time}
use trading_platform_backend.Metrics.Snapshot.{EmotionStats, UserMetrics, load_snapshot}
use trading_platform_backend.Metrics.Buckets.{
  Bucket, gran_hourly, gran_daily, gran_rolling30, load_buckets,
}

-- MetricsResponse
pub record MetricsResponse (F : Type 0) : Type 0 where
  pub user_id : Uuid
  pub granularity : String
  pub from : Time
  pub to : Time
  pub plan_adherence_score : Option F
  pub session_tilt_index : Option F
  pub win_rate_by_emotion : List (String × EmotionStats F)
  pub revenge_trades : ℕ
  pub overtrading_events : ℕ
  pub timeseries : List (Bucket F)

-- the values of the query
pub record QueryValues : Type 0 where
  pub from_text : String
  pub to_text : String
  pub granularity_text : String

-- the granularity, or the text of the error
pub data Granularity : Type 0 where
  granularity : String → Granularity
  refused : String → Granularity

-- parseGranularity
unfoldable pub parse_granularity : (String → String) → String → Granularity
parse_granularity quote s =
    if str_eq s gran_hourly
    then granularity s
    else if str_eq s gran_daily
    then granularity s
    else if str_eq s gran_rolling30
    then granularity s
    else if str_eq s ""
    then refused "granularity is required (hourly|daily|rolling30d)"
    else refused ("granularity " ++ (quote s ++ " invalid; want hourly|daily|rolling30d"))

-- parseRFC3339; none is its error
unfoldable pub parse_time : TimeText → String → Option Time
parse_time times s = if str_eq s "" then none else times.parse_rfc3339 s

abbrev pub bad_request :
    {F : Type 0} → Context → String → Db F → Response (MetricsResponse F) × Db F
bad_request ctx message db = (write_error ctx 400 "BAD_REQUEST" message, db)

module _ {F : Type 0} (ops : FloatOps F) (numeric : NumericOps F) (uuids : UuidText)
    (times : TimeText) where
  abbrev pub response_of :
      Uuid → Time → Time → String → UserMetrics F → List (Bucket F) → MetricsResponse F
  response_of id from to gran snap bs = record {
    user_id = id;
    granularity = gran;
    from = from;
    to = to;
    plan_adherence_score = snap.plan_adherence_score;
    session_tilt_index = snap.session_tilt_index;
    win_rate_by_emotion = snap.win_rate_by_emotion;
    revenge_trades = snap.revenge_trades;
    overtrading_events = snap.overtrading_events;
    timeseries = bs;
  }

  abbrev pub after_buckets :
      Context
      → Uuid
      → Time
      → Time
      → String
      → UserMetrics F
      → Result (List (Bucket F)) × Db F
      → Response (MetricsResponse F) × Db F
  after_buckets ctx id from to gran snap (err e, db) =
      (write_error ctx 500 "INTERNAL_ERROR" "Could not load timeseries.", db)
  after_buckets ctx id from to gran snap (ok bs, db) =
      (write_json 200 (response_of id from to gran snap bs), db)

  abbrev pub after_snapshot :
      Context
      → Uuid
      → Time
      → Time
      → String
      → Result (UserMetrics F) × Db F
      → Response (MetricsResponse F) × Db F
  after_snapshot ctx id from to gran (err e, db) =
      (write_error ctx 500 "INTERNAL_ERROR" "Could not load metrics.", db)
  after_snapshot ctx id from to gran (ok snap, db) =
      after_buckets ctx id from to gran snap (load_buckets ops numeric id from to gran db)

  -- from the parsed granularity on
  abbrev pub with_granularity :
      Context → Uuid → Time → Time → Granularity → Db F → Response (MetricsResponse F) × Db F
  with_granularity ctx id from to (refused message) db = bad_request ctx message db
  with_granularity ctx id from to (granularity gran) db =
      after_snapshot ctx id from to gran (load_snapshot ops numeric id db)

  -- from the parsed times on
  abbrev pub with_times :
      (String → String)
      → Context
      → Uuid
      → QueryValues
      → Option Time
      → Option Time
      → Db F
      → Response (MetricsResponse F) × Db F
  with_times quote ctx id q (some from) (some to) db =
      if ltb from to
      then with_granularity ctx id from to (parse_granularity quote q.granularity_text) db
      else bad_request ctx "from must be earlier than to." db
  with_times quote ctx id q (some from) none db =
      bad_request ctx "from/to must be ISO-8601 / RFC3339." db
  with_times quote ctx id q none to db = bad_request ctx "from/to must be ISO-8601 / RFC3339." db

  abbrev pub with_user :
      (String → String)
      → Context
      → QueryValues
      → Option Uuid
      → Db F
      → Response (MetricsResponse F) × Db F
  with_user quote ctx q none db = bad_request ctx "userId path parameter must be a UUID." db
  with_user quote ctx q (some id) db =
      with_times quote ctx id q (parse_time times q.from_text) (parse_time times q.to_text) db

  -- getMetrics
  unfoldable pub get_metrics :
      (String → String)
      → Context
      → String
      → QueryValues
      → Db F
      → Response (MetricsResponse F) × Db F
  get_metrics quote ctx path q db = with_user quote ctx q (uuids.parse path) db
