-- ===== src/External/Redis.antt =====
-- The Redis server as github.com/redis/go-redis reaches it: one function for each command that the
-- code sends. R is the server's state, with all that other clients and time do to it.
use trading_platform_backend.Prelude.{ℕ, String, List}
use trading_platform_backend.Prelude.Int.{ℤ}

pub data RedisError : Type 0 where
  redis_nil canceled deadline_exceeded other : RedisError

pub data Reply (A : Type 0) : Type 0 where
  reply : A → Reply A
  fail : RedisError → Reply A

-- a value of map[string]any
pub data Value : Type 0 where
  text : String → Value
  not_text : Value

abbrev pub Values : Type 0
Values = List (String × Value)

-- redis.XMessage
pub record Entry : Type 0 where
  pub id : String
  pub values : Values

-- redis.XPendingExt, of which the code reads these
pub record Pending : Type 0 where
  pub id : String
  pub retry_count : ℕ

pub record Redis (R : Type 0) : Type 0 where
  -- stream, values
  pub xadd : String → Values → R → Reply String × R
  -- stream, group, id
  pub xack : String → String → String → R → Reply (Unit {0}) × R
  -- group, consumer, stream, count, block in milliseconds; the messages of each stream
  pub xread_group : String → String → String → ℕ → ℤ → R → Reply (List (List Entry)) × R
  -- stream, group, idle in milliseconds, count
  pub xpending_ext : String → String → ℕ → ℕ → R → Reply (List Pending) × R
  -- stream, group, consumer, idle in milliseconds, ids
  pub xclaim : String → String → String → ℕ → List String → R → Reply (List Entry) × R
  -- stream, group; the number of pending messages
  pub xpending : String → String → R → Reply ℕ × R
