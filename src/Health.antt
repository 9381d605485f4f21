-- ===== src/Health.antt =====
-- internal/health/handler.go: GET /health. Whether the database answers the ping is an argument.
pub mod Probes
use trading_platform_backend.Prelude.{ℕ, String, Bool, true, false, Option, none, some}
use trading_platform_backend.External.Redis.{Reply, reply, fail, Redis}
use trading_platform_backend.External.TimeText.{TimeText}
use trading_platform_backend.Httpx.{Response, write_json}
use trading_platform_backend.Queue.Consumer.{Consumer, queue_lag as read_lag}
use trading_platform_backend.Trades.Types.{Time}

-- Response
pub record HealthResponse : Type 0 where
  pub status : String
  pub db_connection : String
  pub queue_lag : ℕ
  pub timestamp : Time

abbrev pub after_ping : Time → Bool → ℕ × HealthResponse
after_ping now true =
    (200, record { status = "ok"; db_connection = "connected"; queue_lag = 0; timestamp = now })
after_ping now false = (
  503,
  record { status = "degraded"; db_connection = "disconnected"; queue_lag = 0; timestamp = now },
)

abbrev pub with_lag : Reply ℕ → HealthResponse → HealthResponse
with_lag (reply n) h = record h { queue_lag = n }
with_lag (fail e) h = h

module _ {R : Type 0} (redis : Redis R) (times : TimeText) where
  abbrev pub measured : Option Consumer → HealthResponse → R → HealthResponse × R
  measured none h r = (h, r)
  measured (some c) h r = let (lag, r') = read_lag redis times c r in (with_lag lag h, r')

  -- check, at the time `now`
  unfoldable pub check : Option Consumer → Time → Bool → R → Response HealthResponse × R
  check consumer now pinged r =
      let (code, h) = after_ping now pinged in
      let (h', r') = measured consumer h r in (write_json code h', r')
