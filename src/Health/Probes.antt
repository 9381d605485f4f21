-- ===== src/Health/Probes.antt =====
-- What GET /health of internal/health/handler.go tells of the two probes.
use trading_platform_backend.Prelude.{
  ℕ, ◌≡◌, ◌↔◌, refl, Bool, true, false, Option, none, some, arith,
}
use trading_platform_backend.External.Redis.{Reply, reply, fail, Redis}
use trading_platform_backend.External.TimeText.{TimeText}
use trading_platform_backend.Httpx.{json}
use trading_platform_backend.Queue.Consumer.{Consumer, queue_lag as read_lag}
use trading_platform_backend.Trades.Types.{Time}
use trading_platform_backend.Health.{HealthResponse, after_ping, with_lag, measured, check}

module _ {R : Type 0} (redis : Redis R) (times : TimeText) where
  connection-with_lag :
      (lag : Reply ℕ) (h : HealthResponse) → (with_lag lag h).db_connection ≡ h.db_connection
  connection-with_lag (reply n) h = refl
  connection-with_lag (fail e) h = refl

  connection-measured :
      (consumer : Option Consumer) (h : HealthResponse) (r : R)
      → (measured redis times consumer h r).0.db_connection ≡ h.db_connection
  connection-measured none h r = refl
  connection-measured (some c) h r = connection-with_lag (read_lag redis times c r).0 h

  -- The status of GET /health is 200 or 503, and 200 exactly where the database answered the ping;
  -- the body, whatever the Redis server replies, says "connected" or "disconnected" accordingly.
  pub check-pinged :
      (consumer : Option Consumer) (now : Time) (pinged : Bool) (r : R)
      → let answer = (check redis times consumer now pinged r).0 in
        ((answer.status ≡ 200) ↔ (pinged ≡ true))
        × ((answer.status ≡ 503) ↔ (pinged ≡ false))
        × ((h : HealthResponse) × (answer.body ≡ json h)
            × ((h.db_connection ≡ "connected") ↔ (pinged ≡ true)))
  unfolding check
  check-pinged consumer now true r =
      let same = connection-measured consumer (after_ping now true).1 r in
      (
        ((λ e. refl), λ e. refl),
        ((λ e. absurd (omega (arith, e))), λ e. absurd (cc e)),
        (
          (measured redis times consumer (after_ping now true).1 r).0,
          refl,
          ((λ e. refl), λ e. same),
        ),
      )
  check-pinged consumer now false r =
      let same = connection-measured consumer (after_ping now false).1 r in
      (
        ((λ e. absurd (omega (arith, e))), λ e. absurd (cc e)),
        ((λ e. refl), λ e. refl),
        (
          (measured redis times consumer (after_ping now false).1 r).0,
          refl,
          ((λ e. absurd (cc (e, same))), λ e. absurd (cc e)),
        ),
      )
