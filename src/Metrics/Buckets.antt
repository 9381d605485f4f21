-- ===== src/Metrics/Buckets.antt =====
-- internal/metrics/repo.go: LoadBuckets and bucketExpression, with Bucket and Granularity of types.go.
-- date_trunc works in the session's time zone, which is UTC; the origin of the times is midnight.
pub mod Partition
use trading_platform_backend.Prelude.{
  ℕ, ◌+◌, ◌*◌, ◌/◌, String, Bool, false, ◌&&◌, Option, none, some, List, [], ◌∷◌, ltb, leb, ◌==◌,
  if◌then◌else◌, str_eq, map, where_rows, count_rows, length,
}
use trading_platform_backend.Prelude.Groups.{group_keys}
use trading_platform_backend.Prelude.Int.{ℤ, pos}
use trading_platform_backend.External.Float.{FloatOps}
use trading_platform_backend.External.Postgres.{NumericOps}
use trading_platform_backend.Database.Exec.{failed, ok, Exec, statement, raise}
use trading_platform_backend.Trades.Types.{Uuid, Time, minute, outcome_win, outcome_loss, Trade}

-- Bucket
pub record Bucket (F : Type 0) : Type 0 where
  pub bucket_at : Time
  pub trade_count : ℕ
  pub win_rate : F
  pub pnl : F
  pub avg_plan_adherence : F

abbrev pub gran_hourly : String
gran_hourly = "hourly"

abbrev pub gran_daily : String
gran_daily = "daily"

abbrev pub gran_rolling30 : String
gran_rolling30 = "rolling30d"

abbrev pub hour : ℕ
hour = 60 * minute

abbrev pub day : ℕ
day = 24 * hour

-- bucketExpression: the unit of date_trunc; none is its error
unfoldable pub bucket_unit : String → Option ℕ
bucket_unit g =
    if str_eq g gran_hourly
    then some hour
    else if str_eq g gran_daily
    then some day
    else if str_eq g gran_rolling30
    then some day
    else none

-- date_trunc(unit, at)
abbrev pub date_trunc : ℕ → Time → Time
date_trunc unit at = at / unit * unit

abbrev pub has_outcome : String → Option String → Bool
has_outcome o none = false
has_outcome o (some p) = str_eq p o

module _ {F : Type 0} where
  -- WHERE user_id = $1 AND entry_at >= $2 AND entry_at < $3
  abbrev pub in_range : Uuid → Time → Time → Trade F → Bool
  in_range id from to t = t.user_id == id && leb from t.entry_at && ltb t.entry_at to

  -- GROUP BY bucket ORDER BY bucket
  abbrev pub keys : ℕ → List (Trade F) → List Time
  keys unit ts = group_keys (λ (t : Trade F). date_trunc unit t.entry_at) ts

  abbrev pub in_bucket : ℕ → Time → Trade F → Bool
  in_bucket unit k t = date_trunc unit t.entry_at == k

  -- the values of a column that are not NULL
  abbrev pnls : List (Trade F) → List F
  pnls [] = []
  pnls (t ∷ ts) = elim t.pnl [ none ↦ pnls ts | some p ↦ p ∷ pnls ts ]

  abbrev plans : List (Trade F) → List ℤ
  plans [] = []
  plans (t ∷ ts) = elim t.plan_adherence [ none ↦ plans ts | some p ↦ p ∷ plans ts ]

module _ {F : Type 0} (ops : FloatOps F) (numeric : NumericOps F) where
  open ops use {div, of_int}
  open numeric use {sum_18_8, average_smallint}

  -- wins::FLOAT8 / NULLIF(wins and losses, 0); the scan leaves 0 where it is NULL
  abbrev win_rate_of : ℕ → ℕ → F
  win_rate_of wins total =
      if total == 0 then of_int (pos 0) else div (of_int (pos wins)) (of_int (pos total))

  abbrev sum_or_zero : List F → F
  sum_or_zero [] = of_int (pos 0)
  sum_or_zero (x ∷ xs) = sum_18_8 (x ∷ xs)

  abbrev average_or_zero : List ℤ → F
  average_or_zero [] = of_int (pos 0)
  average_or_zero (x ∷ xs) = average_smallint (x ∷ xs)

  -- the row of one group
  abbrev pub bucket_of : Time → List (Trade F) → Bucket F
  bucket_of k ts =
      let wins = count_rows (λ (t : Trade F). has_outcome outcome_win t.outcome) ts in
      let losses = count_rows (λ (t : Trade F). has_outcome outcome_loss t.outcome) ts in
      record {
        bucket_at = k;
        trade_count = length ts;
        win_rate = win_rate_of wins (wins + losses);
        pnl = sum_or_zero (pnls ts);
        avg_plan_adherence = average_or_zero (plans ts);
      }

  abbrev pub buckets : ℕ → List (Trade F) → List (Bucket F)
  buckets unit ts = map (λ k. bucket_of k (where_rows (in_bucket unit k) ts)) (keys unit ts)

  abbrev pub query_buckets : Uuid → Time → Time → Option ℕ → Exec F (List (Bucket F))
  query_buckets id from to none = raise failed
  query_buckets id from to (some unit) =
      statement λ db. (ok (buckets unit (where_rows (in_range id from to) db.trades)), db)

  -- LoadBuckets
  unfoldable pub load_buckets : Uuid → Time → Time → String → Exec F (List (Bucket F))
  load_buckets id from to gran = query_buckets id from to (bucket_unit gran)
