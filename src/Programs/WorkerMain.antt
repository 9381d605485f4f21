-- ===== src/Programs/WorkerMain.antt =====
-- cmd/worker/main.go: run and main. The signals are the turns of Worker/Loop.
pub mod Ends
use trading_platform_backend.Prelude.{ℕ, String, Option, none, some, List}
use trading_platform_backend.External.Redis.{
  RedisError, redis_nil, canceled, deadline_exceeded, other,
}
use trading_platform_backend.Config.{Config, Environment, load}
use trading_platform_backend.Queue.Consumer.{Consumer}
use trading_platform_backend.Worker.{World, Worker}
use trading_platform_backend.Worker.Loop.{Turn, RunState, going, returned, run}
use trading_platform_backend.Programs.{
  Libraries, Held, close_pool, close_client, new_pool, new_client, ensure_group, Ending, running,
  finished, Program, unless_failed, opened, with_config,
}

module _ {F R : Type 0} (lib : Libraries R) (w : Worker F R) (turns : List Turn) where
  abbrev pub consumer_of : Config → Consumer
  consumer_of cfg = record {
    stream = cfg.stream_name;
    group = cfg.consumer_group;
    consumer_name = cfg.consumer_name;
  }

  -- worker.New, with the producer of the stream
  abbrev pub worker_of : Config → Worker F R
  worker_of cfg = record w { producer = some cfg.stream_name }

  -- errors.Is(err, context.Canceled) becomes nil
  abbrev pub result_of : RunState → Ending
  result_of going = running
  result_of (returned canceled) = finished none
  result_of (returned deadline_exceeded) = finished (some deadline_exceeded)
  result_of (returned redis_nil) = finished (some redis_nil)
  result_of (returned other) = finished (some other)

  abbrev pub consume : Config → Program (World F R)
  consume cfg h s =
      let (state, s') = run (worker_of cfg) (consumer_of cfg) turns s in (result_of state, h, s')

  abbrev pub with_group : Config → Program (World F R)
  with_group cfg h s =
      let (e, r) = lib.create_group cfg.stream_name cfg.consumer_group s.redis in
      unless_failed (ensure_group e) (consume cfg) h (record s { redis = r })

  abbrev pub with_client : Config → Program (World F R)
  with_client cfg h s =
      opened close_client (new_client (lib.parse_url cfg.redis_url) h) (with_group cfg) s

  abbrev pub with_pool : Config → Program (World F R)
  with_pool cfg h s =
      opened close_pool (new_pool lib.pool_driver cfg.database_url h) (with_client cfg) s

  -- run of cmd/worker/main.go
  unfoldable pub run_worker : Environment → Program (World F R)
  run_worker env = with_config (load env) with_pool

-- main of cmd/worker/main.go: the exit status for the error of run
unfoldable pub worker_exit : Option RedisError → ℕ
worker_exit none = 0
worker_exit (some canceled) = 0
worker_exit (some redis_nil) = 1
worker_exit (some deadline_exceeded) = 1
worker_exit (some other) = 1
