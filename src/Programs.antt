-- ===== src/Programs.antt =====
-- What the programs of cmd/api/main.go and cmd/worker/main.go share: how run opens and closes its
-- servers, and how it ends. NewPool is of internal/db/db.go, NewClient and EnsureGroup of
-- internal/queue/queue.go. Of an error the model keeps what errors.Is tells apart, not its text.
pub mod Closed
pub mod WorkerMain
pub mod ApiMain
use trading_platform_backend.Prelude.{
  ℕ, ◌+◌, ◌-◌, ◌*◌, String, Bool, true, false, Option, none, some, if◌then◌else◌, str_eq,
}
use trading_platform_backend.External.Redis.{RedisError, other}
use trading_platform_backend.Config.{Config, Loaded, loaded, rejected}

-- the pools and the Redis clients that are open
pub record Held : Type 0 where
  pub pools : ℕ
  pub clients : ℕ

abbrev pub open_pool : Held → Held
open_pool h = record h { pools = h.pools + 1 }

abbrev pub close_pool : Held → Held
close_pool h = record h { pools = h.pools - 1 }

abbrev pub open_client : Held → Held
open_client h = record h { clients = h.clients + 1 }

abbrev pub close_client : Held → Held
close_client h = record h { clients = h.clients - 1 }

-- pgxpool.Config, with times in seconds
pub record PoolConfig : Type 0 where
  pub dsn : String
  pub max_conns : ℕ
  pub min_conns : ℕ
  pub max_conn_lifetime : ℕ
  pub max_conn_idle_time : ℕ

-- ParseConfig, NewWithConfig and Ping of the pgx pool: none where there is no error
pub record PoolDriver : Type 0 where
  pub parse_config : String → Option RedisError
  pub new_with_config : PoolConfig → Option RedisError
  pub ping : PoolConfig → Option RedisError

abbrev pub pool_config : String → PoolConfig
pool_config dsn = record {
  dsn = dsn;
  max_conns = 25;
  min_conns = 5;
  max_conn_lifetime = 30 * 60;
  max_conn_idle_time = 5 * 60;
}

abbrev pub pinged : Option RedisError → Held → Option RedisError × Held
pinged none h = (none, h)
pinged (some e) h = (some e, close_pool h)

abbrev pub connected : PoolDriver → PoolConfig → Option RedisError → Held → Option RedisError × Held
connected driver cfg none h = pinged (driver.ping cfg) (open_pool h)
connected driver cfg (some e) h = (some e, h)

abbrev pub parsed : PoolDriver → PoolConfig → Option RedisError → Held → Option RedisError × Held
parsed driver cfg none h = connected driver cfg (driver.new_with_config cfg) h
parsed driver cfg (some e) h = (some e, h)

-- NewPool
unfoldable pub new_pool : PoolDriver → String → Held → Option RedisError × Held
new_pool driver dsn h = parsed driver (pool_config dsn) (driver.parse_config dsn) h

-- NewClient, on the error of redis.ParseURL
unfoldable pub new_client : Option RedisError → Held → Option RedisError × Held
new_client none h = (none, open_client h)
new_client (some e) h = (some e, h)

-- EnsureGroup, on the error text of XGROUP CREATE ... $ MKSTREAM
unfoldable pub ensure_group : Option String → Option RedisError
ensure_group none = none
ensure_group (some message) =
    if str_eq message "BUSYGROUP Consumer Group name already exists" then none else some other

-- run goes on, or it has returned: none for nil
pub data Ending : Type 0 where
  running : Ending
  finished : Option RedisError → Ending

-- run, on what is open and on the state of the servers
abbrev pub Program : Type 0 → Type 0
Program T = Held → T → Ending × Held × T

module _ {T : Type 0} where
  -- `if err != nil { return ... }`, with the rest of run behind it
  abbrev pub unless_failed : Option RedisError → Program T → Program T
  unless_failed (some e) rest h t = (finished (some e), h, t)
  unless_failed none rest h t = rest h t

  abbrev pub at_return : (Held → Held) → Ending × Held × T → Ending × Held × T
  at_return close (running, h, t) = (running, h, t)
  at_return close (finished e, h, t) = (finished e, close h, t)

  -- what is opened, with `defer x.Close()` behind the test of its error
  abbrev pub opened : (Held → Held) → Option RedisError × Held → Program T → T → Ending × Held × T
  opened close (some e, h) rest t = (finished (some e), h, t)
  opened close (none, h) rest t = at_return close (rest h t)

  abbrev pub with_config : Loaded → (Config → Program T) → Program T
  with_config (rejected message) rest h t = (finished (some other), h, t)
  with_config (loaded cfg) rest h t = rest cfg h t

-- the libraries that both programs call
pub record Libraries (R : Type 0) : Type 0 where
  pub pool_driver : PoolDriver
  -- redis.ParseURL
  pub parse_url : String → Option RedisError
  -- XGroupCreateMkStream with the stream and the group: the text of its error
  pub create_group : String → String → R → Option String × R
