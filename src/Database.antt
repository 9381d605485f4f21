-- ===== src/Database.antt =====
-- The tables that the Go code reads and writes (migrations/0001_init.up.sql,
-- migrations/0002_metrics_tables.up.sql), and the actions on them.
-- The SQL texts of the Go files are translated to functions on lists of rows. The server itself is
-- not modelled: whether a statement fails is the environment's choice, one Boolean of `faults` for
-- each statement; an empty list lets all that follow pass. A statement that fails changes nothing.
pub mod Exec
pub mod Runs
pub mod Transaction
pub mod Migrations
use trading_platform_backend.Prelude.{ℕ, String, Bool, Option, List}
use trading_platform_backend.Trades.Types.{Uuid, Time, Trade}

-- user_metrics
pub record UserMetricsRow (F : Type 0) : Type 0 where
  pub user_id : Uuid
  pub plan_adherence_score : Option F
  pub plan_adherence_window : ℕ
  pub revenge_trades_count : ℕ
  pub overtrading_events_count : ℕ
  pub updated_at : Time

-- user_emotion_metrics
pub record EmotionRow : Type 0 where
  pub user_id : Uuid
  pub emotional_state : String
  pub wins : ℕ
  pub losses : ℕ
  pub updated_at : Time

-- session_metrics; tilt_index is NUMERIC(5, 4), here in ten-thousandths. last_outcome and
-- last_exit_at are never written.
pub record SessionRow : Type 0 where
  pub session_id : Uuid
  pub user_id : Uuid
  pub total_trades : ℕ
  pub loss_following_trades : ℕ
  pub tilt_index : ℕ
  pub updated_at : Time

-- overtrading_events; event_id, a fresh random id, and detected_at are left out: the worker reads
-- neither
pub record OvertradingRow : Type 0 where
  pub user_id : Uuid
  pub window_start : Time
  pub window_end : Time
  pub trade_count : ℕ

pub record Db (F : Type 0) : Type 0 where
  pub trades : List (Trade F)
  pub user_metrics : List (UserMetricsRow F)
  pub emotion_metrics : List EmotionRow
  pub session_metrics : List SessionRow
  pub overtrading_events : List OvertradingRow
  -- NOW()
  pub now : Time
  pub faults : List Bool
