-- ===== src/Worker/Loop.antt =====
-- internal/worker/worker.go: Run. The environment's part of one pass is a Turn: which case the select
-- takes, and whether the context ends in the idle sleep.
pub mod Ending
pub mod Done
use trading_platform_backend.Prelude.{Bool, List, [], ◌∷◌, if◌then◌else◌}
use trading_platform_backend.Prelude.Int.{ℤ, negsuc}
use trading_platform_backend.External.Redis.{
  RedisError, redis_nil, canceled, deadline_exceeded, other, Reply, reply, fail,
}
use trading_platform_backend.Queue.Consumer.{Message, Consumer, read}
use trading_platform_backend.Worker.{World, Worker, batch_size, handle_all, recover_stuck}

-- nonBlock, in milliseconds
abbrev pub non_block : ℤ
non_block = negsuc 0

pub data SelectCase : Type 0 where
  context_done recovery_tick default_case : SelectCase

pub record Turn : Type 0 where
  pub top : SelectCase
  pub done_in_sleep : Bool
  -- ctx.Err() once the context is done
  pub cause : RedisError

-- Run goes on, or has returned its error.
pub data RunState : Type 0 where
  going : RunState
  returned : RedisError → RunState

module _ {F R : Type 0} (w : Worker F R) (c : Consumer) where
  abbrev pub after_read : Turn → Reply (List Message) → World F R → RunState × World F R
  after_read turn (fail canceled) s = (returned canceled, s)
  after_read turn (fail deadline_exceeded) s = (returned deadline_exceeded, s)
  after_read turn (fail redis_nil) s = (going, s)
  after_read turn (fail other) s = (going, s)
  after_read turn (reply []) s = if turn.done_in_sleep then (returned turn.cause, s) else (going, s)
  after_read turn (reply (m ∷ ms)) s = (going, handle_all w (m ∷ ms) s)

  abbrev pub poll : Turn → World F R → RunState × World F R
  poll turn s =
      let (msgs, r) = read w.server w.times c batch_size non_block s.redis in
      after_read turn msgs (record s { redis = r })

  -- the body of the loop
  unfoldable pub run_once : Turn → World F R → RunState × World F R
  run_once turn s = elim turn.top [
    | context_done ↦ (returned turn.cause, s)
    | recovery_tick ↦ poll turn (recover_stuck w c s)
    | default_case ↦ poll turn s
  ]

  -- Run over the turns that the environment has given so far.
  unfoldable pub run : List Turn → World F R → RunState × World F R
  run [] s = (going, s)
  run (turn ∷ turns) s =
      let (state, s') = run_once turn s in
      let rest = run turns s' in elim state [ going ↦ rest | returned e ↦ (returned e, s') ]
