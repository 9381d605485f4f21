-- ===== src/Worker/Loop/Ending.antt =====
-- What ends Run of internal/worker/worker.go.
use trading_platform_backend.Prelude.{inl, inr, refl, List, [], ◌∷◌, All, Bool-cases}
use trading_platform_backend.External.Redis.{
  redis_nil, canceled, deadline_exceeded, other, Reply, reply, fail,
}
use trading_platform_backend.Queue.Consumer.{Message, Consumer, read}
use trading_platform_backend.Queue.Producer.Retry.{IsContextError}
use trading_platform_backend.Worker.{World, Worker, batch_size, recover_stuck}
use trading_platform_backend.Worker.Loop.{
  SelectCase, context_done, recovery_tick, default_case, Turn, RunState, going, returned, non_block,
  after_read, poll, run_once, run,
}

-- A state of the loop that is no other end than the context's.
abbrev pub EndsByContext : RunState → Type 0
EndsByContext going = Unit
EndsByContext (returned e) = IsContextError e

module _ {F R : Type 0} (w : Worker F R) (c : Consumer) where
  after_read-EndsByContext :
      (turn : Turn) (r : Reply (List Message)) (s : World F R)
      → IsContextError turn.cause
      → EndsByContext (after_read w c turn r s).0
  after_read-EndsByContext turn (fail canceled) s h = inl refl
  after_read-EndsByContext turn (fail deadline_exceeded) s h = inr refl
  after_read-EndsByContext turn (fail redis_nil) s h = tt
  after_read-EndsByContext turn (fail other) s h = tt
  after_read-EndsByContext turn (reply []) s h = elim (Bool-cases turn.done_in_sleep) [
    | inl done ↦ rw done h
    | inr alive ↦ rw alive tt
  ]
  after_read-EndsByContext turn (reply (m ∷ ms)) s h = tt

  poll-EndsByContext :
      (turn : Turn) (s : World F R) → IsContextError turn.cause → EndsByContext (poll w c turn s).0
  poll-EndsByContext turn s h =
      let (msgs, r) = read w.server w.times c batch_size non_block s.redis in
      after_read-EndsByContext turn msgs (record s { redis = r }) h

  at_top-EndsByContext :
      (turn : Turn) (top : SelectCase) (s : World F R)
      → IsContextError turn.cause
      → EndsByContext (run_once w c (record turn { top = top }) s).0
  unfolding run_once
  at_top-EndsByContext turn context_done s h = h
  at_top-EndsByContext turn recovery_tick s h = poll-EndsByContext turn (recover_stuck w c s) h
  at_top-EndsByContext turn default_case s h = poll-EndsByContext turn s h

  then-EndsByContext :
      (state : RunState) (rest : RunState × World F R) (s' : World F R)
      → EndsByContext state
      → EndsByContext rest.0
      → EndsByContext
          (elim state as (λ _. RunState × World F R) [
            | going ↦ rest
            | returned e ↦ (returned e, s')
          ]).0
  then-EndsByContext going rest s' a b = b
  then-EndsByContext (returned e) rest s' a b = a

  -- However long Run polls, and whatever the calculators, the database and the Redis server answer,
  -- it has not returned, or it returned an error of its context: cancelled or past the deadline.
  pub run-EndsByContext :
      (turns : List Turn) (s : World F R)
      → All (λ turn. IsContextError turn.cause) turns
      → EndsByContext (run w c turns s).0
  unfolding run
  run-EndsByContext [] s h = tt
  run-EndsByContext (turn ∷ turns) s h =
      let (state, s') = run_once w c turn s in
      then-EndsByContext (run_once w c turn s).0 (run w c turns (run_once w c turn s).1)
        (run_once w c turn s).1 (at_top-EndsByContext turn turn.top s h.0)
        (run-EndsByContext turns (run_once w c turn s).1 h.1)
