-- ===== src/Worker/Loop/Done.antt =====
-- Run of internal/worker/worker.go once its context is done.
use trading_platform_backend.Prelude.{ℕ, ◌≡◌, inl, inr, refl, ap, ◌∙◌, String, List, [], ◌∷◌, ◌++◌}
use trading_platform_backend.Prelude.Int.{ℤ}
use trading_platform_backend.External.Redis.{RedisError, fail, Redis}
use trading_platform_backend.Queue.Consumer.{Consumer, claim_stuck, read}
use trading_platform_backend.Queue.Producer.Retry.{IsContextError}
use trading_platform_backend.Worker.{World, Worker, batch_size, stuck_idle_time, recover_stuck}
use trading_platform_backend.Worker.Loop.{
  SelectCase, context_done, recovery_tick, default_case, Turn, RunState, going, returned, non_block,
  poll, run_once, run,
}

-- Under a context that is done, a command of go-redis is not sent: it returns the context's error.
pub record IsDone {R : Type 0} (server : Redis R) (e : RedisError) (r : R) : Type 0 where
  pub is_context_error : IsContextError e
  pub unread :
      (group consumer stream : String) (count : ℕ) (block : ℤ)
      → server.xread_group group consumer stream count block r ≡ (fail e, r)
  pub unclaimed :
      (stream group : String) (idle count : ℕ)
      → server.xpending_ext stream group idle count r ≡ (fail e, r)

module _ {F R : Type 0} (w : Worker F R) (c : Consumer) where
  poll-done :
      (e : RedisError) (turn : Turn) (s : World F R)
      → IsDone w.server e s.redis
      → poll w c turn s ≡ (returned e, s)
  unfolding read
  poll-done e turn s d =
      let unread = d.unread c.group c.consumer_name c.stream batch_size non_block in
      elim d.is_context_error [ inl p ↦ rw (unread, p) refl | inr p ↦ rw (unread, p) refl ]

  claim-done :
      (e : RedisError) (s : World F R)
      → IsDone w.server e s.redis
      → claim_stuck w.server w.times c stuck_idle_time batch_size s.redis ≡ (fail e, s.redis)
  unfolding claim_stuck
  claim-done e s d =
      let unclaimed = d.unclaimed c.stream c.group stuck_idle_time batch_size in
      elim d.is_context_error [ inl p ↦ rw (unclaimed, p) refl | inr p ↦ rw (unclaimed, p) refl ]

  recover-done :
      (e : RedisError) (s : World F R) → IsDone w.server e s.redis → recover_stuck w c s ≡ s
  unfolding recover_stuck
  recover-done e s d = rw (claim-done e s d, recover_stuck, claim-done e s d) refl

  at_top-done :
      (e : RedisError) (turn : Turn) (top : SelectCase) (s : World F R)
      → IsDone w.server e s.redis
      → turn.cause ≡ e
      → run_once w c (record turn { top = top }) s ≡ (returned e, s)
  unfolding run_once
  at_top-done e turn context_done s d cause = rw cause refl
  at_top-done e turn recovery_tick s d cause =
      rw (recover-done e s d) (poll-done e (record turn { top = recovery_tick }) s d)
  at_top-done e turn default_case s d cause = poll-done e (record turn { top = default_case }) s d

  then-going :
      (state : RunState) (s t : World F R) (rest rest' out : RunState × World F R)
      → elim state as (λ _. RunState × World F R) [ going ↦ rest | returned e ↦ (returned e, s) ]
        ≡ (going, t)
      → (rest ≡ (going, t) → rest' ≡ out)
      → elim state as (λ _. RunState × World F R) [ going ↦ rest' | returned e ↦ (returned e, s) ]
        ≡ out
  then-going going s t rest rest' out h k = k h
  then-going (returned e) s t rest rest' out h k = absurd (cc (h))

  run-append :
      (before after : List Turn) (s t : World F R)
      → run w c before s ≡ (going, t)
      → run w c (before ++ after) s ≡ run w c after t
  unfolding run
  run-append [] after s t h = ap (λ out. run w c after out.1) h
  run-append (turn ∷ before) after s t h =
      let (state, s') = run_once w c turn s in
      then-going state s' t (run w c before s') (run w c (before ++ after) s') (run w c after t) h
        (run-append before after s' t)

  -- Whatever Run has done so far: once its context is done, so that no command is sent any more, the
  -- next pass returns the context's error, whichever case its select takes. It handles no message:
  -- the tables and the server are as the pass found them.
  pub run-done :
      (before after : List Turn) (turn : Turn) (s t : World F R) (e : RedisError)
      → run w c before s ≡ (going, t)
      → IsDone w.server e t.redis
      → turn.cause ≡ e
      → run w c (before ++ turn ∷ after) s ≡ (returned e, t)
  unfolding run
  run-done before after turn s t e h d cause =
      run-append before (turn ∷ after) s t h
      ∙ (let last = at_top-done e turn turn.top t d cause in rw (run, last) (rw last refl))
