-- ===== src/Programs/ApiMain.antt =====
-- cmd/api/main.go: run and main, from the configuration to the end of the server. What the server
-- answers is in Api.
pub mod Boots
use trading_platform_backend.Prelude.{ℕ, String, Option, none, some, List}
use trading_platform_backend.External.Redis.{RedisError, other}
use trading_platform_backend.External.Float.{FloatOps}
use trading_platform_backend.External.Postgres.{NumericOps}
use trading_platform_backend.External.TimeText.{TimeText}
use trading_platform_backend.External.SeedText.{SeedText}
use trading_platform_backend.Config.{Config, Environment, load}
use trading_platform_backend.Database.{Db}
use trading_platform_backend.Database.Exec.{Result, ok, err}
use trading_platform_backend.Database.Migrations.{Directory, Schema, run_migrations}
use trading_platform_backend.Trades.Types.{Uuid}
use trading_platform_backend.Api.{prepare}
use trading_platform_backend.Programs.{
  Libraries, Held, close_pool, close_client, new_pool, new_client, ensure_group, Ending, running,
  finished, Program, unless_failed, opened, with_config,
}

-- the schema that the migrations act on, the tables, and the Redis server
pub record Servers (S F R : Type 0) : Type 0 where
  pub schema : Schema S
  pub db : Db F
  pub redis : R

-- What the select waits for: no more than the server serving so far, a signal with the result of
-- Shutdown behind it, or an error of ListenAndServe other than ErrServerClosed.
pub data Stop : Type 0 where
  serving : Stop
  signalled : Option RedisError → Stop
  listen_failed : RedisError → Stop

abbrev pub ending_of : Stop → Ending
ending_of serving = running
ending_of (signalled e) = finished e
ending_of (listen_failed e) = finished (some e)

abbrev pub error_of : Result (Unit {0}) → Option RedisError
error_of (ok u) = none
error_of (err e) = some other

-- What run reads: the SQL of a text, the directory of the migrations, filepath.Join of it with
-- "*.up.sql", the records of the seed file, and the libraries of the seed and the backfill.
pub record Sources (S F : Type 0) : Type 0 where
  pub exec_sql : String → S → Option S
  pub directory : Directory
  pub pattern : String → String
  pub seed_file : String → Option (List (Option (List String)))
  pub floats : FloatOps F
  pub numeric : NumericOps F
  pub times : TimeText
  pub texts : SeedText F
  pub users : List Uuid → List Uuid
  pub counted : List Uuid → List Uuid

module _ {S F R : Type 0} (lib : Libraries R) (src : Sources S F) (stop : Stop) where
  open src use {
    exec_sql, directory, pattern, seed_file, floats, numeric, times, texts, users, counted,
  }

  abbrev pub wait : Program (Servers S F R)
  wait h s = (ending_of stop, h, s)

  abbrev pub with_group : Config → Program (Servers S F R)
  with_group cfg h s =
      let (e, r) = lib.create_group cfg.stream_name cfg.consumer_group s.redis in
      unless_failed (ensure_group e) wait h (record s { redis = r })

  abbrev pub with_client : Config → Program (Servers S F R)
  with_client cfg h s =
      opened close_client (new_client (lib.parse_url cfg.redis_url) h) (with_group cfg) s

  abbrev pub with_tables : Config → Program (Servers S F R)
  with_tables cfg h s =
      let (r, db) =
        prepare floats numeric times texts users counted cfg (seed_file cfg.seed_file_path) s.db in
      unless_failed (error_of r) (with_client cfg) h (record s { db = db })

  abbrev pub with_schema : Config → Program (Servers S F R)
  with_schema cfg h s =
      let (r, schema) = run_migrations exec_sql directory (pattern cfg.migrations_dir) s.schema in
      unless_failed (error_of r) (with_tables cfg) h (record s { schema = schema })

  abbrev pub with_pool : Config → Program (Servers S F R)
  with_pool cfg h s =
      opened close_pool (new_pool lib.pool_driver cfg.database_url h) (with_schema cfg) s

  -- run of cmd/api/main.go
  unfoldable pub run_api : Environment → Program (Servers S F R)
  run_api env = with_config (load env) with_pool

-- main of cmd/api/main.go: the exit status for the error of run
unfoldable pub api_exit : Option RedisError → ℕ
api_exit none = 0
api_exit (some e) = 1
