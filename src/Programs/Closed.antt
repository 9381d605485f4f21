-- ===== src/Programs/Closed.antt =====
-- What NewPool (internal/db/db.go) and the deferred Close of the two programs leave open.
use trading_platform_backend.Prelude.{
  String, ◌≡◌, ◌≢◌, ◌⊎◌, inl, inr, refl, ap, Option, none, some, arith,
}
use trading_platform_backend.External.Redis.{RedisError}
use trading_platform_backend.Programs.{
  Held, open_pool, close_pool, open_client, close_client, PoolDriver, pool_config, pinged,
  connected, parsed, new_pool, new_client, Ending, running, finished, Program, opened,
  unless_failed,
}

pub close-open_pool : (h : Held) → close_pool (open_pool h) ≡ h
close-open_pool h = ground arith

pub close-open_client : (h : Held) → close_client (open_client h) ≡ h
close-open_client h = ground arith

-- Some call of NewPool fails on this DSN.
abbrev pub IsUnreachable : PoolDriver → String → Type 0
IsUnreachable driver dsn =
    (driver.parse_config dsn ≢ none)
    ⊎ (driver.new_with_config (pool_config dsn) ≢ none)
    ⊎ (driver.ping (pool_config dsn) ≢ none)

-- What was to be opened is open; or there is an error, for this reason, and nothing more is open.
abbrev pub IsOpened : (Held → Held) → Held → Type 0 → Option RedisError × Held → Type 0
IsOpened acquire h Reason out =
    (out ≡ (none, acquire h)) ⊎ ((e : RedisError) × (out ≡ (some e, h)) × Reason)

module _ (driver : PoolDriver) (dsn : String) (h : Held) where
  IsOpened-pinged :
      (o : Option RedisError)
      → driver.ping (pool_config dsn) ≡ o
      → IsOpened open_pool h (IsUnreachable driver dsn) (pinged o (open_pool h))
  IsOpened-pinged none p = inl refl
  IsOpened-pinged (some e) p =
      inr (e, ap (λ k. (some e, k)) (close-open_pool h), inr (inr (λ q. absurd (cc (p, q)))))

  IsOpened-connected :
      (o : Option RedisError)
      → driver.new_with_config (pool_config dsn) ≡ o
      → IsOpened open_pool h (IsUnreachable driver dsn) (connected driver (pool_config dsn) o h)
  IsOpened-connected none p = IsOpened-pinged (driver.ping (pool_config dsn)) refl
  IsOpened-connected (some e) p = inr (e, refl, inr (inl (λ q. absurd (cc (p, q)))))

  IsOpened-parsed :
      (o : Option RedisError)
      → driver.parse_config dsn ≡ o
      → IsOpened open_pool h (IsUnreachable driver dsn) (parsed driver (pool_config dsn) o h)
  IsOpened-parsed none p = IsOpened-connected (driver.new_with_config (pool_config dsn)) refl
  IsOpened-parsed (some e) p = inr (e, refl, inl (λ q. absurd (cc (p, q))))

  pub new_pool-IsOpened : IsOpened open_pool h (IsUnreachable driver dsn) (new_pool driver dsn h)
  unfolding new_pool
  new_pool-IsOpened = IsOpened-parsed (driver.parse_config dsn) refl

pub new_client-IsOpened :
    (o : Option RedisError) (h : Held) → IsOpened open_client h (o ≢ none) (new_client o h)
unfolding new_client
new_client-IsOpened none h = inl refl
new_client-IsOpened (some e) h = inr (e, refl, λ q. absurd (cc q))

module _ {T : Type 0} (Failed Goes : T → Type 0) (Returns : Option RedisError → T → Type 0) where
  -- The ways in which a run ends: it returns an error where `Failed` holds, it goes on with `up` open, or
  -- it returns from its work. When it has returned, nothing more is open than before.
  abbrev pub IsEnd : (Held → Held) → Held → Ending × Held × T → Type 0
  IsEnd up h out =
      ((e : RedisError) × (t : T) × (out ≡ (finished (some e), h, t)) × Failed t)
      ⊎ ((t : T) × (out ≡ (running, up h, t)) × Goes t)
      ⊎ ((e : Option RedisError) × (t : T) × (out ≡ (finished e, h, t)) × Returns e t)

  -- What is opened and closed on return.
  pub IsEnd-opened :
      (acquire close up : Held → Held) (h : Held) (o : Option RedisError × Held) (rest : Program T)
      (t : T) {Reason : Type 0}
      → close (acquire h) ≡ h
      → IsOpened acquire h Reason o
      → (Reason → Failed t)
      → IsEnd up (acquire h) (rest (acquire h) t)
      → IsEnd (λ k. up (acquire k)) h (opened close o rest t)
  IsEnd-opened acquire close up h o rest t back (inr (e, failed, reason)) fails inner =
      rw failed (inl (e, t, refl, fails reason))
  IsEnd-opened acquire close up h o rest t back (inl done) fails (inl (e, t', out, why)) =
      rw (done, out) (inl (e, t', ap (λ k. (finished (some e), k, t')) back, why))
  IsEnd-opened acquire close up h o rest t back (inl done) fails (inr (inl (t', out, goes))) =
      rw (done, out) (inr (inl (t', refl, goes)))
  IsEnd-opened acquire close up h o rest t back (inl done) fails (inr (inr (e, t', out, ends))) =
      rw (done, out) (inr (inr (e, t', ap (λ k. (finished e, k, t')) back, ends)))

  -- The test of an error, with the rest behind it.
  pub IsEnd-unless_failed :
      (up : Held → Held) (h : Held) (o : Option RedisError) (rest : Program T) (t : T)
      → (o ≢ none → Failed t)
      → (o ≡ none → IsEnd up h (rest h t))
      → IsEnd up h (unless_failed o rest h t)
  IsEnd-unless_failed up h (some e) rest t fails goes = inl (e, t, refl, fails (λ q. absurd (cc q)))
  IsEnd-unless_failed up h none rest t fails goes = goes refl
