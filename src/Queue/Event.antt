-- ===== src/Queue/Event.antt =====
-- internal/queue/queue.go: the events.
use trading_platform_backend.Prelude.{ℕ, String}

abbrev pub trade_opened : String
trade_opened = "trade.opened"

abbrev pub trade_closed : String
trade_closed = "trade.closed"

abbrev pub overtrading_detected : String
overtrading_detected = "overtrading.detected"

pub record Event : Type 0 where
  pub event_type : String
  pub trade_id : String
  pub user_id : String
  pub session_id : String
  pub occurred_at : ℕ
