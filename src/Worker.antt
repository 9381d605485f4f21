-- ===== src/Worker.antt =====
-- internal/worker/worker.go: the dispatch of one message.
pub mod Poison
pub mod DeadLetter
pub mod Sessions
pub mod Loop
pub mod Posted
use trading_platform_backend.Prelude.{
  ℕ, ◌+◌, String, Bool, true, false, not, ◌&&◌, Option, none, some, List, [], ◌∷◌, leb, ltb,
  if◌then◌else◌, str_eq,
}
use trading_platform_backend.External.Float.{FloatOps}
use trading_platform_backend.External.Postgres.{NumericOps}
use trading_platform_backend.External.Uuid.{UuidText}
use trading_platform_backend.External.Redis.{Redis, reply, fail}
use trading_platform_backend.External.TimeText.{TimeText}
use trading_platform_backend.Database.{Db, OvertradingRow}
use trading_platform_backend.Database.Exec.{Result, ok, err, Exec}
use trading_platform_backend.Queue.Event.{Event, trade_opened, trade_closed, overtrading_detected}
use trading_platform_backend.Queue.Producer.{Deadline, publish}
use trading_platform_backend.Queue.Consumer.{Message, ack, Consumer, claim_stuck}
use trading_platform_backend.Trades.Types.{Uuid}
use trading_platform_backend.Metrics.Repo.{upsert_session_tilt}
use trading_platform_backend.Metrics.RevengeFlag.{revenge_flag}
use trading_platform_backend.Metrics.Overtrading.{overtrading}
use trading_platform_backend.Metrics.PlanAdherence.{plan_adherence}
use trading_platform_backend.Metrics.WinRate.{win_rate_by_emotion}

abbrev pub batch_size : ℕ
batch_size = 32

-- stuckIdleTime, in milliseconds
abbrev pub stuck_idle_time : ℕ
stuck_idle_time = 30000

abbrev pub max_deliveries : ℕ
max_deliveries = 5

-- What the worker acts on: the database and the Redis server.
pub record World (F R : Type 0) : Type 0 where
  pub db : Db F
  pub redis : R

-- failed, malformed
pub record Processed : Type 0 where
  pub failures : ℕ
  pub malformed : Bool

abbrev pub failures_of {ℓ} : {A : Type ℓ} → Result A → ℕ
failures_of (ok a) = 0
failures_of (err e) = 1

-- The worker's fields: the servers, the libraries, and w.prod, none where it is nil.
pub record Worker (F R : Type 0) : Type 0 where
  pub floats : FloatOps F
  pub numeric : NumericOps F
  pub uuids : UuidText
  pub times : TimeText
  pub server : Redis R
  -- the stream of w.prod
  pub producer : Option String
  -- the context of the publishing calls
  pub deadline : Deadline

module _ {F R : Type 0} (w : Worker F R) where
  open w use {floats, numeric, uuids, times, server, producer, deadline}

  abbrev overtrading_event : OvertradingRow → Event
  overtrading_event row = record {
    event_type = overtrading_detected;
    trade_id = "";
    user_id = uuids.to_string row.user_id;
    session_id = "";
    occurred_at = row.window_end;
  }

  -- publishOvertradingEvent
  abbrev publish_to : Option String → OvertradingRow → R → R
  publish_to none row r = r
  publish_to (some stream) row r =
      (publish server times deadline stream (overtrading_event row) r).1

  abbrev publish_detected : Result (Option OvertradingRow) → R → R
  publish_detected (ok (some row)) r = publish_to producer row r
  publish_detected (ok none) r = r
  publish_detected (err e) r = r

  -- the calculators of trade.opened, with the ids that were parsed
  unfoldable pub process_opened : Uuid → Uuid → Event → World F R → Processed × World F R
  process_opened trade_id user_id ev s =
      let (r1, db1) = revenge_flag trade_id user_id s.db in
      let (r2, db2) = overtrading user_id ev.occurred_at db1 in
      (
        record { failures = failures_of r1 + failures_of r2; malformed = false },
        record { db = db2; redis = publish_detected r2 s.redis },
      )

  -- the calculators of trade.closed
  unfoldable pub process_closed : Uuid → Uuid → Uuid → World F R → Processed × World F R
  process_closed trade_id user_id session_id s =
      let (r1, db1) = plan_adherence floats numeric user_id s.db in
      let (r2, db2) = win_rate_by_emotion trade_id user_id db1 in
      let (r3, db3) = upsert_session_tilt session_id db2 in
      (
        record { failures = failures_of r1 + failures_of r2 + failures_of r3; malformed = false },
        record s { db = db3 },
      )

  abbrev pub dropped : Processed
  dropped = record { failures = 0; malformed = true }

  abbrev pub opened_ids : Option Uuid → Option Uuid → Event → World F R → Processed × World F R
  opened_ids (some trade_id) (some user_id) ev s = process_opened trade_id user_id ev s
  opened_ids (some trade_id) none ev s = (dropped, s)
  opened_ids none user_id ev s = (dropped, s)

  abbrev pub closed_ids :
      Option Uuid → Option Uuid → Option Uuid → World F R → Processed × World F R
  closed_ids (some trade_id) (some user_id) (some session_id) s =
      process_closed trade_id user_id session_id s
  closed_ids (some trade_id) (some user_id) none s = (dropped, s)
  closed_ids (some trade_id) none session_id s = (dropped, s)
  closed_ids none user_id session_id s = (dropped, s)

  -- process
  unfoldable pub process : Event → World F R → Processed × World F R
  process ev s =
      if str_eq ev.event_type trade_opened
      then opened_ids (uuids.parse ev.trade_id) (uuids.parse ev.user_id) ev s
      else if str_eq ev.event_type trade_closed
      then closed_ids (uuids.parse ev.trade_id) (uuids.parse ev.user_id) (uuids.parse ev.session_id)
          s
      else if str_eq ev.event_type overtrading_detected
      then (record { failures = 0; malformed = false }, s)
      else (dropped, s)

  -- m.Ack, whose error is only logged
  abbrev pub acked : Message → World F R → World F R
  acked m s = record s { redis = (ack server times m s.redis).1 }

  abbrev pub settle : Message → Processed × World F R → World F R
  settle m (p, s) = if ltb 0 p.failures && not p.malformed then s else acked m s

  -- handle
  unfoldable pub handle : Message → World F R → World F R
  handle m s =
      if leb max_deliveries m.delivery_count then acked m s else settle m (process m.event s)

  -- `for _, m := range msgs { w.handle(ctx, m) }`
  unfoldable pub handle_all : List Message → World F R → World F R
  handle_all [] s = s
  handle_all (m ∷ ms) s = handle_all ms (handle m s)

  -- recoverStuck
  unfoldable pub recover_stuck : Consumer → World F R → World F R
  recover_stuck c s =
      let (claimed, r) = claim_stuck server times c stuck_idle_time batch_size s.redis in
      elim claimed [
        | reply msgs ↦ handle_all msgs (record s { redis = r })
        | fail e ↦ record s { redis = r }
      ]
