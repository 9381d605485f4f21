-- ===== src/Metrics/Snapshot/Counters.antt =====
-- What LoadSnapshot reads of what the worker wrote (internal/metrics/repo.go).
use trading_platform_backend.Prelude.{
  ℕ, ◌+◌, ◌≡◌, refl, Option, none, some, List, [], ◌∷◌, arith, ◌==◌, if◌then◌else◌, find_row,
  upsert_rows,
}
use trading_platform_backend.External.Float.{FloatOps}
use trading_platform_backend.External.Postgres.{NumericOps}
use trading_platform_backend.Database.{UserMetricsRow, Db}
use trading_platform_backend.Database.Exec.{ok}
use trading_platform_backend.Trades.Types.{Uuid, Time}
use trading_platform_backend.Metrics.Repo.{of_user, new_user_row, increment_revenge_count}
use trading_platform_backend.Metrics.Snapshot.{UserMetrics, of_row, load_snapshot}

module _ {F : Type 0} where
  abbrev revenge_of : Option (UserMetricsRow F) → ℕ
  revenge_of none = 0
  revenge_of (some r) = r.revenge_trades_count

  abbrev overtrading_of : Option (UserMetricsRow F) → ℕ
  overtrading_of none = 0
  overtrading_of (some r) = r.overtrading_events_count

  abbrev score_of : Option (UserMetricsRow F) → Option F
  score_of none = none
  score_of (some r) = r.plan_adherence_score

  abbrev counted_rows : Uuid → Time → List (UserMetricsRow F) → List (UserMetricsRow F)
  counted_rows u now rows =
      upsert_rows (of_user u) (record (new_user_row u now) { revenge_trades_count = 1 })
        (λ r. record r { revenge_trades_count = r.revenge_trades_count + 1; updated_at = now }) rows

  revenge-counted :
      (u id : Uuid) (now : Time) (rows : List (UserMetricsRow F))
      → revenge_of (find_row (of_user id) (counted_rows u now rows))
        ≡ revenge_of (find_row (of_user id) rows) + (if u == id then 1 else 0)
  revenge-counted u id now [] = ground arith
  revenge-counted u id now (r ∷ rows) = ground (arith, revenge-counted u id now rows)

  others-counted :
      (u id : Uuid) (now : Time) (rows : List (UserMetricsRow F))
      → (overtrading_of (find_row (of_user id) (counted_rows u now rows))
          ≡ overtrading_of (find_row (of_user id) rows))
        × (score_of (find_row (of_user id) (counted_rows u now rows))
            ≡ score_of (find_row (of_user id) rows))
  others-counted u id now [] = ground arith
  others-counted u id now (r ∷ rows) = ground (arith, others-counted u id now rows)

module _ {F : Type 0} (ops : FloatOps F) (numeric : NumericOps F) where
  fields-of_row :
      (id : Uuid) (o : Option (UserMetricsRow F))
      → ((of_row ops numeric id o).revenge_trades ≡ revenge_of o)
        × ((of_row ops numeric id o).overtrading_events ≡ overtrading_of o)
        × ((of_row ops numeric id o).plan_adherence_score ≡ score_of o)
  fields-of_row id none = (refl, refl, refl)
  fields-of_row id (some r) = (refl, refl, refl)

  -- Where no statement fails, LoadSnapshot succeeds before and after IncrementRevengeCount of a user,
  -- and the second snapshot of any user differs from the first by one more revenge trade where it is
  -- of that user, and not in the overtrading events, the score, the emotions or the tilt.
  pub load_snapshot-increment :
      (u id : Uuid) (db : Db F)
      → db.faults ≡ []
      → (before : UserMetrics F) × (after : UserMetrics F) × ((load_snapshot ops numeric id db).0
          ≡ ok before)
        × ((load_snapshot ops numeric id (increment_revenge_count u db).1).0 ≡ ok after)
        × (after.revenge_trades ≡ before.revenge_trades + (if u == id then 1 else 0))
        × (after.overtrading_events ≡ before.overtrading_events)
        × (after.plan_adherence_score ≡ before.plan_adherence_score)
        × (after.win_rate_by_emotion ≡ before.win_rate_by_emotion)
        × (after.session_tilt_index ≡ before.session_tilt_index)
  unfolding load_snapshot increment_revenge_count
  load_snapshot-increment u id db calm =
      let old = fields-of_row id (find_row (of_user id) db.user_metrics) in
      let new = fields-of_row id (find_row (of_user id) (counted_rows u db.now db.user_metrics)) in
      let more = revenge-counted u id db.now db.user_metrics in
      let others = others-counted u id db.now db.user_metrics in
      rw calm (
        _,
        _,
        refl,
        refl,
        omega (arith, old.0, new.0, more),
        omega (arith, old.1, new.1, others.0),
        cc (old.2, new.2, others.1),
        refl,
        refl,
      )
