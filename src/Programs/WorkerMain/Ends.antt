-- ===== src/Programs/WorkerMain/Ends.antt =====
-- How the worker's program ends (cmd/worker/main.go).
use trading_platform_backend.Prelude.{◌≡◌, ◌≢◌, ◌⊎◌, Option, none, some, List}
use trading_platform_backend.External.Redis.{RedisError, canceled, deadline_exceeded, other}
use trading_platform_backend.Config.{Config, Loaded, loaded, rejected}
use trading_platform_backend.Worker.{World, Worker}
use trading_platform_backend.Worker.Loop.{Turn, RunState, going, returned, run}
use trading_platform_backend.Programs.{
  Libraries, Held, open_pool, open_client, ensure_group, Ending, finished,
}
use trading_platform_backend.Programs.Closed.{IsUnreachable, IsEnd}
use trading_platform_backend.Programs.WorkerMain.{consumer_of, worker_of, worker_exit}

module _ {F R : Type 0} (lib : Libraries R) (w : Worker F R) (turns : List Turn) (s : World F R)
    (cfg : Config) where
  -- Some step before Run fails with this configuration.
  abbrev pub IsUnready : Type 0
  IsUnready =
      IsUnreachable lib.pool_driver cfg.database_url
      ⊎ (lib.parse_url cfg.redis_url ≢ none)
      ⊎ (ensure_group (lib.create_group cfg.stream_name cfg.consumer_group s.redis).0 ≢ none)

  -- What Run does, behind the creation of the group, on the configuration's stream.
  abbrev pub consumed : RunState × World F R
  consumed =
      run (worker_of lib w turns cfg) (consumer_of lib w turns cfg) turns
        (record s { redis = (lib.create_group cfg.stream_name cfg.consumer_group s.redis).1 })

  abbrev pub Failed : World F R → Type 0
  Failed t = (t.db ≡ s.db) × IsUnready

  abbrev pub Goes : World F R → Type 0
  Goes t = consumed ≡ (going, t)

  -- Run has returned: a cancelled context is a success, the end of a deadline is not.
  abbrev pub Returns : Option RedisError → World F R → Type 0
  Returns e t =
      ((consumed ≡ (returned canceled, t)) × (worker_exit e ≡ 0))
      ⊎ ((consumed ≡ (returned deadline_exceeded, t)) × (worker_exit e ≡ 1))

module _ {F R : Type 0} (lib : Libraries R) (w : Worker F R) (turns : List Turn) where
  abbrev pub IsWorkerEnd : Loaded → Held → World F R → Ending × Held × World F R → Type 0
  IsWorkerEnd (rejected message) h s out = out ≡ (finished (some other), h, s)
  IsWorkerEnd (loaded cfg) h s out =
      IsEnd (Failed lib w turns s cfg) (Goes lib w turns s cfg) (Returns lib w turns s cfg)
        (λ k. open_client (open_pool k)) h out
