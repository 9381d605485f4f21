-- ===== src/External/TimeText.antt =====
-- time.Format and time.Parse of Go with the layout "2006-01-02T15:04:05.000Z07:00", which keeps
-- milliseconds and drops the rest. Times are in microseconds.
use trading_platform_backend.Prelude.{ℕ, ◌*◌, ◌/◌, String, ◌≡◌, Option, some}

pub record TimeText : Type 0 where
  -- t.UTC().Format(layout)
  pub format : ℕ → String
  -- time.Parse(layout, s)
  pub parse : String → Option ℕ
  pub parse-format : (t : ℕ) → parse (format t) ≡ some (t / 1000 * 1000)
  -- time.Parse(time.RFC3339Nano, s), cut to microseconds
  pub parse_rfc3339 : String → Option ℕ
