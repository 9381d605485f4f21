-- ===== src/Programs/ApiMain/Boots.antt =====
-- How the api's program starts and ends (cmd/api/main.go).
use trading_platform_backend.Prelude.{◌≡◌, ◌≢◌, ◌⊎◌, inl, inr, refl, String, Option, none, some}
use trading_platform_backend.External.Redis.{RedisError, other}
use trading_platform_backend.Config.{Config, Loaded, loaded, rejected, Environment, load}
use trading_platform_backend.Database.{Db}
use trading_platform_backend.Database.Exec.{Result, ok, err}
use trading_platform_backend.Database.Migrations.{Schema, run_migrations}
use trading_platform_backend.Api.{prepare}
use trading_platform_backend.Programs.{
  Libraries, Held, open_pool, close_pool, open_client, close_client, new_pool, new_client,
  ensure_group, Ending, finished, with_config,
}
use trading_platform_backend.Programs.Closed.{
  close-open_pool, close-open_client, IsUnreachable, new_pool-IsOpened, new_client-IsOpened, IsEnd,
  IsEnd-opened, IsEnd-unless_failed,
}
use trading_platform_backend.Programs.ApiMain.{
  Servers, Stop, serving, signalled, listen_failed, ending_of, error_of, Sources, wait, with_group,
  with_client, with_tables, with_schema, with_pool, run_api, api_exit,
}

ok-error_of : (r : Result (Unit {0})) → error_of r ≡ none → r ≡ ok tt
ok-error_of (ok tt) e = refl
ok-error_of (err x) e = absurd (cc e)

ne_ok-error_of : (r : Result (Unit {0})) → error_of r ≢ none → r ≢ ok tt
ne_ok-error_of (ok tt) e = absurd (e refl)
ne_ok-error_of (err x) e = λ q. absurd (cc q)

module _ {S F R : Type 0} (lib : Libraries R) (src : Sources S F) (stop : Stop) (s : Servers S F R)
    (cfg : Config) where
  open src use {
    exec_sql, directory, pattern, seed_file, floats, numeric, times, texts, users, counted,
  }

  abbrev pub migrated : Result (Unit {0}) × Schema S
  migrated = run_migrations exec_sql directory (pattern cfg.migrations_dir) s.schema

  abbrev pub prepared : Result (Unit {0}) × Db F
  prepared =
      prepare floats numeric times texts users counted cfg (seed_file cfg.seed_file_path) s.db

  abbrev pub grouped : Option String × R
  grouped = lib.create_group cfg.stream_name cfg.consumer_group s.redis

  -- Some step before the server starts fails with this configuration.
  abbrev pub IsUnready : Type 0
  IsUnready =
      IsUnreachable lib.pool_driver cfg.database_url
      ⊎ (migrated.0 ≢ ok tt)
      ⊎ (prepared.0 ≢ ok tt)
      ⊎ (lib.parse_url cfg.redis_url ≢ none)
      ⊎ (ensure_group grouped.0 ≢ none)

  -- The tables are as they were, or the migrations have succeeded and the tables were prepared.
  abbrev pub Failed : Servers S F R → Type 0
  Failed t = IsUnready × ((t.db ≡ s.db) ⊎ ((migrated.0 ≡ ok tt) × (t.db ≡ prepared.1)))

  -- Every step has succeeded, and the servers are as the steps left them.
  abbrev pub IsReady : Servers S F R → Type 0
  IsReady t =
      (migrated.0 ≡ ok tt)
      × (prepared.0 ≡ ok tt)
      × (ensure_group grouped.0 ≡ none)
      × (t ≡ record { schema = migrated.1; db = prepared.1; redis = grouped.1 })

  abbrev pub Goes : Servers S F R → Type 0
  Goes t = IsReady t × (stop ≡ serving)

  abbrev pub Returns : Option RedisError → Servers S F R → Type 0
  Returns e t =
      IsReady t
      × (((stop ≡ signalled none) × (api_exit e ≡ 0))
          ⊎ (((x : RedisError) × ((stop ≡ signalled (some x)) ⊎ (stop ≡ listen_failed x)))
              × (api_exit e ≡ 1)))

  IsEnd-wait :
      (h : Held) (t : Servers S F R) (st : Stop)
      → stop ≡ st
      → IsReady t
      → IsEnd Failed Goes Returns (λ k. k) h (ending_of st, h, t)
  unfolding api_exit
  IsEnd-wait h t serving e ready = inr (inl (t, refl, (ready, e)))
  IsEnd-wait h t (signalled none) e ready = inr (inr (none, t, refl, (ready, inl (e, refl))))
  IsEnd-wait h t (signalled (some x)) e ready =
      inr (inr (some x, t, refl, (ready, inr ((x, inl e), refl))))
  IsEnd-wait h t (listen_failed x) e ready =
      inr (inr (some x, t, refl, (ready, inr ((x, inr e), refl))))

  IsEnd-client :
      (h : Held)
      → migrated.0 ≡ ok tt
      → prepared.0 ≡ ok tt
      → IsEnd Failed Goes Returns open_client h (
          with_client lib src stop cfg h
            (record { schema = migrated.1; db = prepared.1; redis = s.redis }))
  IsEnd-client h m p =
      IsEnd-opened Failed Goes Returns open_client close_client (λ k. k) h
        (new_client (lib.parse_url cfg.redis_url) h) (with_group lib src stop cfg)
        (record { schema = migrated.1; db = prepared.1; redis = s.redis }) (close-open_client h)
        (new_client-IsOpened (lib.parse_url cfg.redis_url) h)
        (λ why. (inr (inr (inr (inl why))), inr (m, refl)))
        (IsEnd-unless_failed Failed Goes Returns (λ k. k) (open_client h) (ensure_group grouped.0)
          (wait lib src stop) (record { schema = migrated.1; db = prepared.1; redis = grouped.1 })
          (λ why. (inr (inr (inr (inr why))), inr (m, refl)))
          (λ g.
            IsEnd-wait (open_client h)
              (record { schema = migrated.1; db = prepared.1; redis = grouped.1 }) stop refl
              (m, p, g, refl)))

  IsEnd-schema :
      (h : Held) → IsEnd Failed Goes Returns open_client h (with_schema lib src stop cfg h s)
  IsEnd-schema h =
      IsEnd-unless_failed Failed Goes Returns open_client h (error_of migrated.0)
        (with_tables lib src stop cfg) (record s { schema = migrated.1 })
        (λ why. (inr (inl (ne_ok-error_of migrated.0 why)), inl refl))
        (λ m.
          IsEnd-unless_failed Failed Goes Returns open_client h (error_of prepared.0)
            (with_client lib src stop cfg)
            (record { schema = migrated.1; db = prepared.1; redis = s.redis })
            (λ why. (
              inr (inr (inl (ne_ok-error_of prepared.0 why))),
              inr (ok-error_of migrated.0 m, refl),
            ))
            (λ p. IsEnd-client h (ok-error_of migrated.0 m) (ok-error_of prepared.0 p)))

  IsEnd-pool :
      (h : Held)
      → IsEnd Failed Goes Returns
          (λ k. open_client (open_pool k))
          h
          (with_pool lib src stop cfg h s)
  IsEnd-pool h =
      IsEnd-opened Failed Goes Returns open_pool close_pool open_client h
        (new_pool lib.pool_driver cfg.database_url h) (with_schema lib src stop cfg) s
        (close-open_pool h) (new_pool-IsOpened lib.pool_driver cfg.database_url h)
        (λ why. (inl why, inl refl)) (IsEnd-schema (open_pool h))

module _ {S F R : Type 0} (lib : Libraries R) (src : Sources S F) (stop : Stop) where
  abbrev pub IsApiEnd : Loaded → Held → Servers S F R → Ending × Held × Servers S F R → Type 0
  IsApiEnd (rejected message) h s out = out ≡ (finished (some other), h, s)
  IsApiEnd (loaded cfg) h s out =
      IsEnd (Failed lib src stop s cfg) (Goes lib src stop s cfg) (Returns lib src stop s cfg)
        (λ k. open_client (open_pool k)) h out

  IsApiEnd-config :
      (l : Loaded) (h : Held) (s : Servers S F R)
      → IsApiEnd l h s (with_config l (with_pool lib src stop) h s)
  IsApiEnd-config (rejected message) h s = refl
  IsApiEnd-config (loaded cfg) h s = IsEnd-pool lib src stop s cfg h

  -- The api's program, whatever its libraries answer and whichever statements fail. Without a
  -- configuration it returns an error and touches nothing. With one, it returns an error before the
  -- server starts, which takes a failing step, and the tables are as they were unless the migrations
  -- succeeded; or the migrations, the seed with the backfill, and the consumer group have succeeded, and
  -- it serves with one pool and one client open; or it served and has returned, with the exit status 0
  -- exactly for a signal and a Shutdown without an error. Once it has returned, no more is open than
  -- before.
  pub run_api-IsApiEnd :
      (env : Environment) (h : Held) (s : Servers S F R)
      → IsApiEnd (load env) h s (run_api lib src stop env h s)
  unfolding run_api
  run_api-IsApiEnd env h s = IsApiEnd-config (load env) h s
