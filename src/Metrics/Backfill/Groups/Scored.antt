-- ===== src/Metrics/Backfill/Groups/Scored.antt =====
-- What backfillPlanAdherence (internal/metrics/backfill.go) leaves in user_metrics.
use trading_platform_backend.Prelude.{
  ◌≡◌, ◌⊎◌, refl, ◌∙◌, ap, sym, true, false, none, List, [], ◌∷◌, arith, ◌==◌, min, All, where_rows,
  count_rows, any_row, find_row, length, inl, inr,
}
use trading_platform_backend.Prelude.Groups.{holds, holds-group_keys}
use trading_platform_backend.Prelude.Keyed.{HasRow}
use trading_platform_backend.External.Float.{FloatOps}
use trading_platform_backend.External.Postgres.{NumericOps}
use trading_platform_backend.Database.{UserMetricsRow, Db}
use trading_platform_backend.Database.Exec.{failed, ok, err, Result, statement_calm}
use trading_platform_backend.Trades.Types.{Uuid, Trade}
use trading_platform_backend.Trades.Repo.{satisfies_checks}
use trading_platform_backend.Trades.Validate.{bad_plan_adherence}
use trading_platform_backend.Metrics.Repo.{of_user}
use trading_platform_backend.Metrics.PlanAdherence.{rated_close, last_ten}
use trading_platform_backend.Metrics.PlanAdherence.Count.{length-last_ten}
use trading_platform_backend.Metrics.Backfill.Groups.Window.{IsChecked, last10-last_ten}
use trading_platform_backend.Metrics.Backfill.Groups.Scores.{
  score, scored_row, set_score, upsert_scores-IsUpserted, kept_row,
}
use trading_platform_backend.Metrics.Backfill.Flags.{user_ids, upsert_users}
use trading_platform_backend.Metrics.Backfill.Flags.Users.{HasRow-upsert_users}
use trading_platform_backend.Metrics.Backfill.Groups.{
  last10, is_rated_close, upsert_scores, store_scores, backfill_plan_adherence,
}

module _ {F : Type 0} where
  -- The users of the groups: those with a rated closed trade.
  holds-rated :
      (id : Uuid) (ts : List (Trade F))
      → holds id (user_ids (where_rows is_rated_close ts)) ≡ any_row (rated_close id) ts
  holds-rated id ts =
      holds-group_keys (λ (t : Trade F). t.user_id) id (where_rows is_rated_close ts)
      ∙ any_rated id ts
    where
      any_rated :
          (id : Uuid) (ts : List (Trade F))
          → any_row (λ (t : Trade F). t.user_id == id) (where_rows is_rated_close ts)
            ≡ any_row (rated_close id) ts
      any_rated id [] = refl
      any_rated id (t ∷ ts) = ground (arith, any_rated id ts)

  module _ (ops : FloatOps F) (numeric : NumericOps F) where
    abbrev user_of : UserMetricsRow F → Uuid
    user_of r = r.user_id

    -- The row has the average and the number of the user's last ten ratings.
    abbrev pub IsAverage : List (Trade F) → Uuid → UserMetricsRow F → Type 0
    IsAverage ts id r =
        (r.plan_adherence_score ≡ numeric.average_to_5_4 (last_ten id ts))
        × (r.plan_adherence_window ≡ min 10 (count_rows (rated_close id) ts))

    -- The result of a backfill from db that wrote.
    pub record IsScored (db out : Db F) : Type 0 where
      pub scores :
          (id : Uuid)
          → any_row (rated_close id) db.trades ≡ true
          → HasRow user_of (IsAverage db.trades) out.user_metrics id
      pub others :
          (id : Uuid)
          → any_row (rated_close id) db.trades ≡ false
          → find_row (of_user id) out.user_metrics ≡ find_row (of_user id) db.user_metrics
      pub rest : out ≡ record db { user_metrics = out.user_metrics }

    abbrev pub IsScoreBackfill : Db F → Result (Unit {0}) × Db F → Type 0
    IsScoreBackfill db out =
        ((out.0 ≡ ok tt) × IsScored db out.1)
        ⊎ ((out ≡ (err failed, db))
            × ((id : Uuid) × (any_row (rated_close id) db.trades ≡ true)
                × (numeric.average_to_5_4 (last_ten id db.trades) ≡ none)))

    module _ (db : Db F) (checked : All (IsChecked ops numeric) db.trades) where
      same_window : (id : Uuid) → last10 id db.trades ≡ last_ten id db.trades
      same_window id = last10-last_ten ops numeric id db.trades checked

      ratings_in_range :
          (ts : List (Trade F))
          → All (IsChecked ops numeric) ts
          → All (λ t. bad_plan_adherence t.plan_adherence ≡ false) ts
      unfolding satisfies_checks
      ratings_in_range [] a = tt
      ratings_in_range (t ∷ ts) a = (ground (arith, a.0), ratings_in_range ts a.1)

      average-IsAverage :
          (id : Uuid)
          → (score numeric db.now db.trades id ≡ numeric.average_to_5_4 (last_ten id db.trades))
            × (length (last10 id db.trades) ≡ min 10 (count_rows (rated_close id) db.trades))
      average-IsAverage id = (
        ap numeric.average_to_5_4 (same_window id),
        ap length (same_window id)
            ∙ length-last_ten id db.trades (ratings_in_range db.trades checked),
      )

      abbrev new : Uuid → UserMetricsRow F
      new id = scored_row numeric db.now db.trades id

      abbrev set : Uuid → UserMetricsRow F → UserMetricsRow F
      set id r = set_score numeric db.now db.trades id r

      abbrev written : List (UserMetricsRow F)
      written =
          upsert_users new set (user_ids (where_rows is_rated_close db.trades)) db.user_metrics

      written-IsScored : IsScored db (record db { user_metrics = written })
      written-IsScored = record {
        scores = λ id h.
            HasRow-upsert_users (IsAverage db.trades) new set (λ i. refl) (λ i r. refl)
              (λ i. average-IsAverage i) (λ i r. average-IsAverage i) id
              (user_ids (where_rows is_rated_close db.trades)) db.user_metrics
              (holds-rated id db.trades ∙ h);
        others = λ id h.
            kept_row numeric db.now db.trades id (user_ids (where_rows is_rated_close db.trades))
              db.user_metrics (holds-rated id db.trades ∙ h);
        rest = refl;
      }

    -- backfillPlanAdherence of trades that satisfy the CHECK clauses, with no failing statement.
    -- Either it succeeds: each user with a rated closed trade has a row with the average of the ratings
    -- that PlanAdherence reads, the last ten, and with the number of the user's rated closed trades,
    -- at most 10; the rows of the other users and the other tables are as they were. Or it fails and
    -- changes nothing, and then the average of such a user does not fit the column.
    pub backfill_plan_adherence-IsScoreBackfill :
        (db : Db F)
        → db.faults ≡ []
        → All (IsChecked ops numeric) db.trades
        → IsScoreBackfill db (backfill_plan_adherence numeric db)
    unfolding backfill_plan_adherence
    backfill_plan_adherence-IsScoreBackfill db calm checked =
        let ids : List Uuid = user_ids (where_rows is_rated_close db.trades) in
        let body : Db F → Result (Unit {0}) × Db F = λ d.
          store_scores
            (upsert_scores numeric d.now d.trades (user_ids (where_rows is_rated_close d.trades))
              d.user_metrics)
            d in
        let ran = statement_calm body db calm in
        elim (upsert_scores-IsUpserted numeric db.now db.trades ids db.user_metrics) [
          | inl (refused, (id, held, unfit)) ↦ inr (
            ran ∙ ap (λ o. store_scores o db) refused,
            (
              id,
              sym (holds-rated id db.trades) ∙ held,
              sym (average-IsAverage db checked id).0 ∙ unfit,
            ),
          )
          | inr done ↦
              let out = ran ∙ ap (λ o. store_scores o db) done in
              rw out (inl (refl, written-IsScored db checked))
        ]
