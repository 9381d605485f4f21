-- ===== src/Queue/Producer.antt =====
-- internal/queue/producer.go. The context is the environment's: whether ctx.Err() is set when the
-- first attempt has failed, and whether the context ends before the 20 ms of backoff.
pub mod Retry
use trading_platform_backend.Prelude.{String, Bool, true, false, if◌then◌else◌}
use trading_platform_backend.External.Redis.{
  RedisError, redis_nil, canceled, deadline_exceeded, other, Reply, reply, fail, Redis,
}
use trading_platform_backend.External.TimeText.{TimeText}
use trading_platform_backend.Queue.Event.{Event}
use trading_platform_backend.Queue.Codec.{encode_values}

pub record Deadline : Type 0 where
  -- ctx.Err() != nil at the test
  pub expired : Bool
  -- the case <-ctx.Done() of the select is taken
  pub ends_in_backoff : Bool
  -- ctx.Err(): context.Canceled or context.DeadlineExceeded
  pub cause : RedisError

-- shouldRetry
unfoldable pub should_retry : Deadline → RedisError → Bool
should_retry ctx canceled = false
should_retry ctx deadline_exceeded = false
should_retry ctx redis_nil = if ctx.expired then false else true
should_retry ctx other = if ctx.expired then false else true

module _ {R : Type 0} (redis : Redis R) (times : TimeText) where
  -- publishOnce
  unfoldable pub publish_once : String → Event → R → Reply String × R
  publish_once stream ev r = redis.xadd stream (encode_values times ev) r

  abbrev retry_publish : Deadline → String → Event → R → Reply String × R
  retry_publish ctx stream ev r =
      if ctx.ends_in_backoff then (fail ctx.cause, r) else publish_once stream ev r

  abbrev after_first : Deadline → String → Event → Reply String → R → Reply String × R
  after_first ctx stream ev (reply id) r = (reply id, r)
  after_first ctx stream ev (fail e) r =
      if should_retry ctx e then retry_publish ctx stream ev r else (fail e, r)

  -- Publish
  unfoldable pub publish : Deadline → String → Event → R → Reply String × R
  publish ctx stream ev r =
      let (first, r') = publish_once stream ev r in after_first ctx stream ev first r'
