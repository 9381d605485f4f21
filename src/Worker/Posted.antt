-- ===== src/Worker/Posted.antt =====
-- What the worker may write to the trades table, under handle and Run of internal/worker/worker.go.
use trading_platform_backend.Prelude.{
  ◌≡◌, refl, ◌∙◌, Bool, true, false, not, ◌&&◌, Option, none, some, List, [], ◌∷◌, ltb, leb, str_eq,
  Bool-cases, if◌then◌else◌, inl, inr,
}
use trading_platform_backend.External.Redis.{
  redis_nil, canceled, deadline_exceeded, other, Reply, reply, fail,
}
use trading_platform_backend.Queue.Event.{Event, trade_opened, trade_closed, overtrading_detected}
use trading_platform_backend.Queue.Consumer.{Message, Consumer, claim_stuck, read}
use trading_platform_backend.Trades.Types.{Uuid}
use trading_platform_backend.Metrics.RevengeFlag.{revenge_flag}
use trading_platform_backend.Metrics.PlanAdherence.{plan_adherence}
use trading_platform_backend.Metrics.WinRate.{win_rate_by_emotion}
use trading_platform_backend.Metrics.Posted.{
  posted, revenge_flag-Keeps, overtrading-Keeps, plan_adherence-Keeps, win_rate-Keeps, tilt-Keeps,
}
use trading_platform_backend.Worker.{
  World, Worker, Processed, max_deliveries, batch_size, stuck_idle_time, opened_ids, closed_ids,
  process_opened, process_closed, process, settle, handle, handle_all, recover_stuck,
}
use trading_platform_backend.Worker.Loop.{
  context_done, recovery_tick, default_case, SelectCase, Turn, RunState, going, returned, non_block,
  poll, after_read, run_once, run,
}

module _ {F R : Type 0} (w : Worker F R) where
  open w use {floats, numeric, uuids, server, times}

  -- The second world has the posted trades of the first.
  abbrev pub SamePosted : World F R → World F R → Type 0
  SamePosted s s' = posted s'.db.trades ≡ posted s.db.trades

  opened-SamePosted :
      (trade_id user_id : Uuid) (ev : Event) (s : World F R)
      → SamePosted s (process_opened w trade_id user_id ev s).1
  unfolding process_opened
  opened-SamePosted trade_id user_id ev s =
      overtrading-Keeps user_id ev.occurred_at (revenge_flag trade_id user_id s.db).1
      ∙ revenge_flag-Keeps trade_id user_id s.db

  closed-SamePosted :
      (trade_id user_id session_id : Uuid) (s : World F R)
      → SamePosted s (process_closed w trade_id user_id session_id s).1
  unfolding process_closed
  closed-SamePosted trade_id user_id session_id s =
      let db1 = (plan_adherence floats numeric user_id s.db).1 in
      tilt-Keeps session_id (win_rate_by_emotion trade_id user_id db1).1
      ∙ win_rate-Keeps trade_id user_id db1
      ∙ plan_adherence-Keeps floats numeric user_id s.db

  opened_ids-SamePosted :
      (a b : Option Uuid) (ev : Event) (s : World F R) → SamePosted s (opened_ids w a b ev s).1
  opened_ids-SamePosted (some a) (some b) ev s = opened-SamePosted a b ev s
  opened_ids-SamePosted (some a) none ev s = refl
  opened_ids-SamePosted none b ev s = refl

  closed_ids-SamePosted :
      (a b c : Option Uuid) (s : World F R) → SamePosted s (closed_ids w a b c s).1
  closed_ids-SamePosted (some a) (some b) (some c) s = closed-SamePosted a b c s
  closed_ids-SamePosted (some a) (some b) none s = refl
  closed_ids-SamePosted (some a) none c s = refl
  closed_ids-SamePosted none b c s = refl

  SamePosted-if :
      (b : Bool) (s : World F R) (x y : Processed × World F R)
      → SamePosted s x.1
      → SamePosted s y.1
      → SamePosted s (if b then x else y).1
  SamePosted-if true s x y p q = p
  SamePosted-if false s x y p q = q

  process-SamePosted : (ev : Event) (s : World F R) → SamePosted s (process w ev s).1
  unfolding process
  process-SamePosted ev s =
      SamePosted-if (str_eq ev.event_type trade_opened) s _ _
        (opened_ids-SamePosted (uuids.parse ev.trade_id) (uuids.parse ev.user_id) ev s)
        (SamePosted-if (str_eq ev.event_type trade_closed) s _ _
          (closed_ids-SamePosted (uuids.parse ev.trade_id) (uuids.parse ev.user_id)
            (uuids.parse ev.session_id) s)
          (SamePosted-if (str_eq ev.event_type overtrading_detected) s _ _ refl refl))

  settle-SamePosted :
      (m : Message) (s : World F R) (p : Processed) (s' : World F R)
      → SamePosted s s'
      → SamePosted s (settle w m (p, s'))
  settle-SamePosted m s p s' e = elim (Bool-cases (ltb 0 p.failures && not p.malformed)) [
    | inl kept ↦ rw kept e
    | inr settled ↦ rw settled e
  ]

  handle-SamePosted : (m : Message) (s : World F R) → SamePosted s (handle w m s)
  unfolding handle
  handle-SamePosted m s = elim (Bool-cases (leb max_deliveries m.delivery_count)) [
    | inl dead ↦ rw dead refl
    | inr live ↦ rw live (
        settle-SamePosted m s (process w m.event s).0 (process w m.event s).1
          (process-SamePosted m.event s))
  ]

  handle_all-SamePosted : (ms : List Message) (s : World F R) → SamePosted s (handle_all w ms s)
  unfolding handle_all
  handle_all-SamePosted [] s = refl
  handle_all-SamePosted (m ∷ ms) s = handle_all-SamePosted ms (handle w m s) ∙ handle-SamePosted m s

  claimed-SamePosted :
      (s : World F R) (c : Consumer) (r : R) (claimed : Reply (List Message))
      → SamePosted s (elim claimed [
        | reply msgs ↦ handle_all w msgs (record s { redis = r })
        | fail e ↦ record s { redis = r }
      ])
  claimed-SamePosted s c r (reply msgs) = handle_all-SamePosted msgs (record s { redis = r })
  claimed-SamePosted s c r (fail e) = refl

  recover-SamePosted : (c : Consumer) (s : World F R) → SamePosted s (recover_stuck w c s)
  unfolding recover_stuck
  recover-SamePosted c s =
      let (claimed, r) = claim_stuck server times c stuck_idle_time batch_size s.redis in
      claimed-SamePosted s c r claimed

  after_read-SamePosted :
      (c : Consumer) (turn : Turn) (r : Reply (List Message)) (s : World F R)
      → SamePosted s (after_read w c turn r s).1
  after_read-SamePosted c turn (fail canceled) s = refl
  after_read-SamePosted c turn (fail deadline_exceeded) s = refl
  after_read-SamePosted c turn (fail redis_nil) s = refl
  after_read-SamePosted c turn (fail other) s = refl
  after_read-SamePosted c turn (reply []) s = elim (Bool-cases turn.done_in_sleep) [
    | inl done ↦ rw done refl
    | inr alive ↦ rw alive refl
  ]
  after_read-SamePosted c turn (reply (m ∷ ms)) s = handle_all-SamePosted (m ∷ ms) s

  poll-SamePosted : (c : Consumer) (turn : Turn) (s : World F R) → SamePosted s (poll w c turn s).1
  poll-SamePosted c turn s =
      let (msgs, r) = read server times c batch_size non_block s.redis in
      after_read-SamePosted c turn msgs (record s { redis = r })

  at_top-SamePosted :
      (c : Consumer) (turn : Turn) (top : SelectCase) (s : World F R)
      → SamePosted s (run_once w c (record turn { top = top }) s).1
  unfolding run_once
  at_top-SamePosted c turn context_done s = refl
  at_top-SamePosted c turn recovery_tick s =
      poll-SamePosted c turn (recover_stuck w c s) ∙ recover-SamePosted c s
  at_top-SamePosted c turn default_case s = poll-SamePosted c turn s

  then-SamePosted :
      (s s' : World F R) (state : RunState) (rest : RunState × World F R)
      → SamePosted s s'
      → SamePosted s' rest.1
      → SamePosted s
          (elim state as (λ _. RunState × World F R) [
            | going ↦ rest
            | returned e ↦ (returned e, s')
          ]).1
  then-SamePosted s s' going rest a b = b ∙ a
  then-SamePosted s s' (returned e) rest a b = a

  -- However long Run polls, and whatever events arrive and whatever fails, the trades table keeps its
  -- rows, in their order, with every posted and derived column as it was: the worker writes
  -- revenge_flag and updated_at only.
  pub run-SamePosted :
      (c : Consumer) (turns : List Turn) (s : World F R) → SamePosted s (run w c turns s).1
  unfolding run
  run-SamePosted c [] s = refl
  run-SamePosted c (turn ∷ turns) s =
      then-SamePosted s (run_once w c turn s).1 (run_once w c turn s).0
        (run w c turns (run_once w c turn s).1) (at_top-SamePosted c turn turn.top s)
        (run-SamePosted c turns (run_once w c turn s).1)
