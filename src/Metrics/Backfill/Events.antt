-- ===== src/Metrics/Backfill/Events.antt =====
-- internal/metrics/backfill.go: the statements of backfillOvertrading, and BackfillFromTrades. Go
-- ranges over a map in an order of its own: it is a function from the keys to their sequence.
pub mod Rebuilt
use trading_platform_backend.Prelude.{
  ℕ, Bool, true, false, List, [], ◌∷◌, ◌++◌, map, ltb, ◌==◌, where_rows, update_rows, upsert_rows,
  length,
}
use trading_platform_backend.Prelude.Groups.{group_keys}
use trading_platform_backend.Prelude.Order.{order_by}
use trading_platform_backend.External.Postgres.{NumericOps}
use trading_platform_backend.Database.{OvertradingRow, UserMetricsRow, Db}
use trading_platform_backend.Database.Exec.{ok, Exec, pure, statement, ◌>>=◌, ◌>>◌}
use trading_platform_backend.Database.Transaction.{transaction}
use trading_platform_backend.Trades.Types.{Uuid, Time, Trade}
use trading_platform_backend.Metrics.Repo.{of_user, new_user_row, add_overtrading_event}
use trading_platform_backend.Metrics.Backfill.{Detected, walk}
use trading_platform_backend.Metrics.Backfill.Flags.{backfill_revenge_flag, user_ids}
use trading_platform_backend.Metrics.Backfill.Groups.{backfill_plan_adherence, backfill_win_rate}
use trading_platform_backend.Metrics.Backfill.Sessions.{backfill_session_tilt}

-- the row that VALUES describes
abbrev pub event_row : Uuid → Detected → OvertradingRow
event_row id d = record {
  user_id = id;
  window_start = d.window_start;
  window_end = d.window_end;
  trade_count = d.count;
}

module _ {F : Type 0} where
  -- perUser[id]: the times of entry in their order
  abbrev pub entries_of : Uuid → List (Trade F) → List Time
  entries_of id ts =
      order_by ltb (map (λ (t : Trade F). t.entry_at) (where_rows (λ t. t.user_id == id) ts))

  -- the events of one user
  abbrev pub events_of : List (Trade F) → Uuid → List OvertradingRow
  events_of ts id = map (event_row id) (walk [] false (entries_of id ts))

  -- `events`, over the users in the order of the range
  abbrev pub events_over : List (Trade F) → List Uuid → List OvertradingRow
  events_over ts [] = []
  events_over ts (id ∷ ids) = events_of ts id ++ events_over ts ids

  -- counts[id]
  abbrev pub count_of : List (Trade F) → Uuid → ℕ
  count_of ts id = length (walk [] false (entries_of id ts))

  -- the keys of counts
  abbrev pub counted_users : List (Trade F) → List Uuid
  counted_users ts = where_rows (λ id. ltb 0 (count_of ts id)) (user_ids ts)

  abbrev pub insert_events : List OvertradingRow → Exec F (Unit {0})
  insert_events [] = pure tt
  insert_events (e ∷ es) = do
    statement (λ db. (ok tt, record db { overtrading_events = db.overtrading_events ++ e ∷ [] }))
    insert_events es

  unfoldable pub set_count : Uuid → ℕ → Exec F (Unit {0})
  set_count id n = statement λ db. (
    ok tt,
    record db {
      user_metrics =
          upsert_rows (of_user id)
            (record (new_user_row id db.now) { overtrading_events_count = n })
            (λ r. record r { overtrading_events_count = n; updated_at = db.now }) db.user_metrics;
    },
  )

  abbrev pub set_counts : List (Trade F) → List Uuid → Exec F (Unit {0})
  set_counts ts [] = pure tt
  set_counts ts (id ∷ ids) = do set_count id (count_of ts id); set_counts ts ids

  -- between Begin and Commit
  abbrev pub rebuild : List OvertradingRow → List (Trade F) → List Uuid → Exec F (Unit {0})
  rebuild events ts ids = do
    statement (λ db. (ok tt, record db { overtrading_events = [] }))
    insert_events events
    statement λ db. (
      ok tt,
      record db {
        user_metrics =
            update_rows (λ r. true) (λ r. record r { overtrading_events_count = 0 })
              db.user_metrics;
      },
    )
    set_counts ts ids

  -- backfillOvertrading
  unfoldable pub backfill_overtrading :
      (List Uuid → List Uuid) → (List Uuid → List Uuid) → Exec F (Unit {0})
  backfill_overtrading users counted = do
    ts ← statement (λ db. (ok db.trades, db))
    transaction (rebuild (events_over ts (users (user_ids ts))) ts (counted (counted_users ts)))

  -- BackfillFromTrades
  unfoldable pub backfill_from_trades :
      NumericOps F → (List Uuid → List Uuid) → (List Uuid → List Uuid) → Exec F (Unit {0})
  backfill_from_trades numeric users counted = do
    backfill_revenge_flag
    backfill_plan_adherence numeric
    backfill_win_rate
    backfill_session_tilt
    backfill_overtrading users counted
