-- ===== src/Metrics/Overtrading/OwnTrade.antt =====
-- The trade that triggers the check of internal/metrics/overtrading.go, after its event went through
-- the stream (internal/trades/handler.go, internal/queue/producer.go, internal/queue/consumer.go).
use trading_platform_backend.Prelude.{ℕ, ◌-◌, ◌*◌, ◌/◌, ◌≡◌, ◌≢◌, ◌<◌, false, some, arith, eq_iff}
use trading_platform_backend.External.Uuid.{UuidText}
use trading_platform_backend.External.TimeText.{TimeText}
use trading_platform_backend.Queue.Event.{Event}
use trading_platform_backend.Queue.Codec.{encode_values, decode_values, decode-encode_values}
use trading_platform_backend.Trades.Types.{status_closed, Trade}
use trading_platform_backend.Trades.Handler.{event_for}
use trading_platform_backend.Metrics.Overtrading.{window, opened_within}

module _ {F : Type 0} (uuids : UuidText) (times : TimeText) where
  occurred_at-event_for :
      (t : Trade F) → t.status ≢ status_closed → (event_for uuids t).occurred_at ≡ t.entry_at
  unfolding event_for
  occurred_at-event_for t h = ground (arith, eq_iff t.status status_closed)

  cut_short :
      (t : Trade F) (n : ℕ) → n < t.entry_at → opened_within t.user_id (n - window) n t ≡ false
  cut_short t n h = ground arith

  -- An open trade whose entry time is no whole number of milliseconds is not counted in the window
  -- that its own event anchors: the time that the consumer decodes lies before the entry.
  pub opened_within-decoded :
      (t : Trade F) (ev : Event)
      → t.status ≢ status_closed
      → t.entry_at / 1000 * 1000 ≢ t.entry_at
      → decode_values times (encode_values times (event_for uuids t)) ≡ some ev
      → opened_within t.user_id (ev.occurred_at - window) ev.occurred_at t ≡ false
  opened_within-decoded t ev open_trade uneven h =
      let sent = decode-encode_values times (event_for uuids t) in
      let at = occurred_at-event_for t open_trade in
      let same : (event_for uuids t).occurred_at / 1000 * 1000 ≡ ev.occurred_at = cc (sent, h) in
      cut_short t ev.occurred_at (omega (arith, same, at, uneven))
