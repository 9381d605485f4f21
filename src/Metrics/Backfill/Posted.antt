-- ===== src/Metrics/Backfill/Posted.antt =====
-- What BackfillFromTrades (internal/metrics/backfill.go) may write to the trades table.
use trading_platform_backend.Prelude.{
  ◌≡◌, inl, inr, refl, ap, true, false, Option, none, some, List, [], ◌∷◌, where_rows,
}
use trading_platform_backend.External.Postgres.{NumericOps}
use trading_platform_backend.Database.{Db, UserMetricsRow}
use trading_platform_backend.Database.Exec.{Result, ok, err, Exec, statement, ◌>>◌}
use trading_platform_backend.Trades.Types.{Uuid}
use trading_platform_backend.Metrics.Repo.{upsert_groups}
use trading_platform_backend.Metrics.Posted.{
  posted, posted-flagged, Keeps, Keeps-statement, Keeps-bind, groups-Keeps,
}
use trading_platform_backend.Metrics.Backfill.Flags.{
  reset_flags, flag_matching, store_counts, matches_last_loss, backfill_revenge_flag, has_snapshots,
}
use trading_platform_backend.Metrics.Backfill.Groups.{
  store_scores, backfill_plan_adherence, backfill_win_rate,
}
use trading_platform_backend.Metrics.Backfill.Sessions.{
  is_closed, session_ids, group_rows, upsert_sessions, all_or_nothing, backfill_session_tilt,
}
use trading_platform_backend.Metrics.Backfill.Events.{backfill_overtrading, backfill_from_trades}
use trading_platform_backend.Metrics.Backfill.Events.Rebuilt.{
  IsRebuild, backfill_overtrading-IsRebuild,
}

module _ {F : Type 0} where
  Keeps-then : (m n : Exec F (Unit {0})) → Keeps m → Keeps n → Keeps (m >> n)
  Keeps-then m n km kn = Keeps-bind m (λ u. n) km (λ u. kn)

  flags-Keeps : Keeps {F = F} backfill_revenge_flag
  unfolding backfill_revenge_flag reset_flags flag_matching
  flags-Keeps =
      let reset : Exec F (Unit {0}) =
        statement (λ db. (ok tt, record db { trades = reset_flags db.now db.trades })) in
      let flag : Exec F (Unit {0}) =
        statement (λ db. (ok tt, record db { trades = flag_matching db.now db.trades })) in
      let count : Exec F (Unit {0}) = statement (λ db.
        (ok tt, record db { user_metrics = store_counts db.now db.trades db.user_metrics })) in
      Keeps-then reset (flag >> count)
        (Keeps-statement (λ db. (ok tt, record db { trades = reset_flags db.now db.trades }))
          (λ db. posted-flagged (λ t. true) false db.now db.trades))
        (Keeps-then flag count
          (Keeps-statement (λ db. (ok tt, record db { trades = flag_matching db.now db.trades }))
            (λ db. posted-flagged (matches_last_loss db.trades) true db.now db.trades))
          (Keeps-statement
            (λ db.
              (ok tt, record db { user_metrics = store_counts db.now db.trades db.user_metrics }))
            (λ db. refl)))

  scores-Keeps : (o : Option (List (UserMetricsRow F))) → Keeps (store_scores o)
  scores-Keeps none = λ db. refl
  scores-Keeps (some rows) = λ db. refl

  plan_adherence-Keeps : (numeric : NumericOps F) → Keeps (backfill_plan_adherence numeric)
  unfolding backfill_plan_adherence
  plan_adherence-Keeps numeric = Keeps-statement _ (λ db. scores-Keeps _ db)

  win_rate-Keeps : Keeps {F = F} backfill_win_rate
  unfolding backfill_win_rate
  win_rate-Keeps = Keeps-statement _ (λ db. refl)

  sessions-Keeps : (ids : List Uuid) → Keeps {F = F} (upsert_sessions ids)
  sessions-Keeps [] = λ db. refl
  sessions-Keeps (id ∷ ids) = λ db.
      Keeps-bind (upsert_groups id (group_rows id db)) (λ u. upsert_sessions ids)
        (groups-Keeps id (group_rows id db)) (λ u. sessions-Keeps ids) db

  all_or-Keeps :
      (db : Db F) (out : Result (Unit {0}) × Db F)
      → posted out.1.trades ≡ posted db.trades
      → posted (all_or_nothing out db).1.trades ≡ posted db.trades
  all_or-Keeps db (ok u, after) h = h
  all_or-Keeps db (err e, after) h = refl

  tilt-Keeps : Keeps {F = F} backfill_session_tilt
  unfolding backfill_session_tilt
  tilt-Keeps = Keeps-statement _ λ db.
      let ids : List Uuid = session_ids (where_rows is_closed db.trades) in
      all_or-Keeps db (upsert_sessions ids db) (sessions-Keeps ids db)

  rebuild-Keeps :
      (users counted : List Uuid → List Uuid) (db : Db F) (out : Result (Unit {0}) × Db F)
      → IsRebuild users counted db out
      → posted out.1.trades ≡ posted db.trades
  rebuild-Keeps users counted db out (inl (done, rebuilt)) = ap posted rebuilt.same_trades
  rebuild-Keeps users counted db out (inr (e, later, stopped, faulty)) =
      ap (λ (r : Result (Unit {0}) × Db F). posted r.1.trades) stopped

  overtrading-Keeps :
      (users counted : List Uuid → List Uuid) → Keeps {F = F} (backfill_overtrading users counted)
  overtrading-Keeps users counted db =
      rebuild-Keeps users counted db (backfill_overtrading users counted db)
        (backfill_overtrading-IsRebuild users counted db)

  -- Whatever fails, the backfill leaves the posted and derived columns of every trade as they are.
  pub backfill-Keeps :
      (numeric : NumericOps F) (users counted : List Uuid → List Uuid)
      → Keeps (backfill_from_trades numeric users counted)
  unfolding backfill_from_trades
  backfill-Keeps numeric users counted =
      let events : Exec F (Unit {0}) = backfill_overtrading users counted in
      let tilt : Exec F (Unit {0}) = backfill_session_tilt >> events in
      let rates : Exec F (Unit {0}) = backfill_win_rate >> tilt in
      Keeps-then backfill_revenge_flag (backfill_plan_adherence numeric >> rates) flags-Keeps (
        Keeps-then (backfill_plan_adherence numeric) rates (plan_adherence-Keeps numeric) (
          Keeps-then backfill_win_rate tilt win_rate-Keeps
            (Keeps-then backfill_session_tilt events tilt-Keeps (overtrading-Keeps users counted))))

  pub has_snapshots-Keeps : Keeps {F = F} has_snapshots
  unfolding has_snapshots
  has_snapshots-Keeps = Keeps-statement _ (λ db. refl)
