-- ===== src/Metrics/Snapshot.antt =====
-- internal/metrics/repo.go: LoadSnapshot, and the types of internal/metrics/types.go that it fills.
-- The map by emotion is a list with a key for each row, since user and emotion are the primary key.
pub mod Counters
use trading_platform_backend.Prelude.{
  ℕ, ◌+◌, String, Bool, Option, none, some, List, [], ◌∷◌, ltb, ◌==◌, if◌then◌else◌, map, find_row,
  where_rows,
}
use trading_platform_backend.Prelude.Int.{pos}
use trading_platform_backend.External.Float.{FloatOps}
use trading_platform_backend.External.Postgres.{NumericOps}
use trading_platform_backend.Database.{UserMetricsRow, EmotionRow, SessionRow, Db}
use trading_platform_backend.Database.Exec.{ok, Exec, statement, pure, ◌>>=◌}
use trading_platform_backend.Trades.Types.{Uuid}
use trading_platform_backend.Metrics.Repo.{of_user}

-- EmotionStats
pub record EmotionStats (F : Type 0) : Type 0 where
  pub wins : ℕ
  pub losses : ℕ
  pub win_rate : F

-- UserMetrics
pub record UserMetrics (F : Type 0) : Type 0 where
  pub user_id : Uuid
  pub plan_adherence_score : Option F
  pub session_tilt_index : Option F
  pub win_rate_by_emotion : List (String × EmotionStats F)
  pub revenge_trades : ℕ
  pub overtrading_events : ℕ

module _ {F : Type 0} (ops : FloatOps F) (numeric : NumericOps F) where
  open ops use {div, of_int}
  open numeric use {average_5_4}

  -- out after the first query; without a row its fields keep their zero values
  abbrev pub of_row : Uuid → Option (UserMetricsRow F) → UserMetrics F
  of_row id none = record {
    user_id = id;
    plan_adherence_score = none;
    session_tilt_index = none;
    win_rate_by_emotion = [];
    revenge_trades = 0;
    overtrading_events = 0;
  }
  of_row id (some r) = record {
    user_id = id;
    plan_adherence_score = r.plan_adherence_score;
    session_tilt_index = none;
    win_rate_by_emotion = [];
    revenge_trades = r.revenge_trades_count;
    overtrading_events = r.overtrading_events_count;
  }

  -- float64(wins) / float64(total), or 0
  abbrev pub rate : ℕ → ℕ → F
  rate wins losses =
      if ltb 0 (wins + losses)
      then div (of_int (pos wins)) (of_int (pos (wins + losses)))
      else of_int (pos 0)

  abbrev pub stats_of : EmotionRow → String × EmotionStats F
  stats_of r = (
    r.emotional_state,
    record { wins = r.wins; losses = r.losses; win_rate = rate r.wins r.losses },
  )

  -- AVG over the rows: NULL where there is none
  abbrev average : List ℕ → Option F
  average [] = none
  average (x ∷ xs) = some (average_5_4 (x ∷ xs))

  -- LoadSnapshot
  unfoldable pub load_snapshot : Uuid → Exec F (UserMetrics F)
  load_snapshot id = do
    out ← statement (λ db. (ok (of_row id (find_row (of_user id) db.user_metrics)), db))
    rows ←
        statement
          (λ db. (ok (where_rows (λ (r : EmotionRow). r.user_id == id) db.emotion_metrics), db))
    tilt ← statement λ db. (
      ok (
          average (
            map (λ (r : SessionRow). r.tilt_index)
              (where_rows (λ (r : SessionRow). r.user_id == id) db.session_metrics))),
      db,
    )
    pure (record out { win_rate_by_emotion = map stats_of rows; session_tilt_index = tilt })
