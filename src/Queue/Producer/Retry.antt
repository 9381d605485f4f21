-- ===== src/Queue/Producer/Retry.antt =====
-- The one retry of Publish in internal/queue/producer.go.
use trading_platform_backend.Prelude.{
  String, ◌≡◌, ◌≢◌, ◌⊎◌, inl, inr, refl, true, false, Bool-cases, if◌then◌else◌,
}
use trading_platform_backend.External.Redis.{
  RedisError, redis_nil, canceled, deadline_exceeded, other, Reply, reply, fail, Redis,
}
use trading_platform_backend.External.TimeText.{TimeText}
use trading_platform_backend.Queue.Event.{Event}
use trading_platform_backend.Queue.Producer.{
  Deadline, should_retry, publish_once, after_first, publish,
}

-- The errors with which a context ends.
abbrev pub IsContextError : RedisError → Type 0
IsContextError e = (e ≡ canceled) ⊎ (e ≡ deadline_exceeded)

module _ {R : Type 0} (redis : Redis R) (times : TimeText) (ctx : Deadline) (stream : String)
    (ev : Event) where
  -- What Publish returns when its first XADD gave `first` and left the server at `r`: the three cases
  -- of a failure exclude one another.
  abbrev pub Published : Reply String → R → Reply String × R → Type 0
  Published (reply id) r out = out ≡ (reply id, r)
  Published (fail e) r out =
      ((IsContextError e ⊎ (ctx.expired ≡ true)) × (out ≡ (fail e, r)))
      ⊎ ((e ≢ canceled)
          × (e ≢ deadline_exceeded)
          × (ctx.expired ≡ false)
          × (ctx.ends_in_backoff ≡ true)
          × (out ≡ (fail ctx.cause, r)))
      ⊎ ((e ≢ canceled)
          × (e ≢ deadline_exceeded)
          × (ctx.expired ≡ false)
          × (ctx.ends_in_backoff ≡ false)
          × (out ≡ publish_once redis times stream ev r))

  -- A failure that is no context error, by what the context does.
  after_other-Published :
      (e : RedisError) (r : R)
      → e ≢ canceled
      → e ≢ deadline_exceeded
      → should_retry ctx e ≡ (if ctx.expired then false else true)
      → Published (fail e) r (after_first redis times ctx stream ev (fail e) r)
  after_other-Published e r alive in_time retried = elim (Bool-cases ctx.expired) [
    | inl expired ↦ rw (retried, expired) (inl (inr refl, refl))
    | inr going ↦ elim (Bool-cases ctx.ends_in_backoff) [
      | inl ends ↦ rw (retried, going, ends) (inr (inl (alive, in_time, refl, refl, refl)))
      | inr waits ↦ rw (retried, going, waits) (inr (inr (alive, in_time, refl, refl, refl)))
    ]
  ]

  after_first-Published :
      (first : Reply String) (r : R)
      → Published first r (after_first redis times ctx stream ev first r)
  unfolding should_retry
  after_first-Published (reply id) r = refl
  after_first-Published (fail canceled) r = inl (inl (inl refl), refl)
  after_first-Published (fail deadline_exceeded) r = inl (inl (inr refl), refl)
  after_first-Published (fail redis_nil) r =
      after_other-Published redis_nil r (λ e. cc e) (λ e. cc e) refl
  after_first-Published (fail other) r = after_other-Published other r (λ e. cc e) (λ e. cc e) refl

  -- Publish sends one XADD or two. The first one's success is the result, and no second is sent. A
  -- failure that is a context error, or with which the context has ended, is the result, and no second
  -- is sent. After any other failure the context's error is the result where it ends in the backoff,
  -- and no second is sent; else the second XADD's result is, success or failure.
  pub publish-Published :
      (r : R)
      → let (first, r') = publish_once redis times stream ev r in
        Published first r' (publish redis times ctx stream ev r)
  unfolding publish
  publish-Published r =
      after_first-Published (publish_once redis times stream ev r).0
        (publish_once redis times stream ev r).1
