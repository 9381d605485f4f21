-- ===== src/Metrics/Backfill/Sessions.antt =====
-- internal/metrics/backfill.go: backfillSessionTilt.
pub mod Settled
pub mod Agreement
use trading_platform_backend.Prelude.{ℕ, Bool, List, [], ◌∷◌, str_eq, where_rows}
use trading_platform_backend.Prelude.Order.{order_by}
use trading_platform_backend.Prelude.Groups.{group_keys}
use trading_platform_backend.Database.{Db}
use trading_platform_backend.Database.Exec.{Error, Result, ok, err, Exec, statement, ◌>>=◌}
use trading_platform_backend.Trades.Types.{Uuid, status_closed, Trade}
use trading_platform_backend.Metrics.Repo.{closed_in_session, entered_before, upsert_groups}

module _ {F : Type 0} where
  abbrev pub is_closed : Trade F → Bool
  is_closed t = str_eq t.status status_closed

  -- PARTITION BY session_id, in the order of the ids
  abbrev pub session_ids : List (Trade F) → List Uuid
  session_ids ts = group_keys (λ (t : Trade F). t.session_id) ts

  abbrev pub group_rows : Uuid → Db F → List (Trade F)
  group_rows id db = order_by entered_before (where_rows (closed_in_session id) db.trades)

  -- The groups of one session are those of UpsertSessionTilt: its closed trades in the order of
  -- entry, one row for each user. The first refused row ends the statement.
  abbrev pub upsert_sessions : List Uuid → Exec F (Unit {0})
  upsert_sessions [] db = (ok tt, db)
  upsert_sessions (id ∷ ids) db =
      (upsert_groups id (group_rows id db) >>= λ u. upsert_sessions ids) db

  -- A statement that fails changes nothing.
  abbrev pub all_or_nothing : Result (Unit {0}) × Db F → Exec F (Unit {0})
  all_or_nothing (ok u, after) db = (ok u, after)
  all_or_nothing (err e, after) db = (err e, db)

  -- backfillSessionTilt
  unfoldable pub backfill_session_tilt : Exec F (Unit {0})
  backfill_session_tilt =
      statement
        λ db. all_or_nothing (upsert_sessions (session_ids (where_rows is_closed db.trades)) db) db
