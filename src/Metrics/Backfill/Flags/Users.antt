-- ===== src/Metrics/Backfill/Flags/Users.antt =====
-- The rows of user_metrics after the upserts of the groups (internal/metrics/backfill.go).
use trading_platform_backend.Prelude.{
  ◌≡◌, true, List, [], ◌∷◌, arith, ◌==◌, upsert_rows, Bool-cases, inl, inr,
}
use trading_platform_backend.Prelude.Groups.{holds}
use trading_platform_backend.Prelude.Keyed.{HasRow, HasRow-upsert, HasRow-step}
use trading_platform_backend.Database.{UserMetricsRow}
use trading_platform_backend.Trades.Types.{Uuid}
use trading_platform_backend.Metrics.Repo.{of_user}
use trading_platform_backend.Metrics.Backfill.Flags.{upsert_users}

module _ {F : Type 0} (Q : Uuid → UserMetricsRow F → Type 0) (new : Uuid → UserMetricsRow F)
    (set : Uuid → UserMetricsRow F → UserMetricsRow F) (named : (id : Uuid) → (new id).user_id ≡ id)
    (keeps : (id : Uuid) (r : UserMetricsRow F) → (set id r).user_id ≡ r.user_id)
    (made : (id : Uuid) → Q id (new id))
    (updated : (id : Uuid) (r : UserMetricsRow F) → Q id (set id r)) where
  abbrev HasUser : List (UserMetricsRow F) → Uuid → Type 0
  HasUser rows id = HasRow (λ (r : UserMetricsRow F). r.user_id) Q rows id

  HasRow-keeps :
      (id : Uuid) (ids : List Uuid) (rows : List (UserMetricsRow F))
      → HasUser rows id
      → HasUser (upsert_users new set ids rows) id
  HasRow-keeps id [] rows row = row
  HasRow-keeps id (other ∷ ids) rows row =
      HasRow-keeps id ids (upsert_rows (of_user other) (new other) (set other) rows) (
        HasRow-step (λ (r : UserMetricsRow F). r.user_id) Q new set named keeps made updated id
          other rows row)

  -- Every user of the groups has a row with what the upsert writes.
  pub HasRow-upsert_users :
      (id : Uuid) (ids : List Uuid) (rows : List (UserMetricsRow F))
      → holds id ids ≡ true
      → HasUser (upsert_users new set ids rows) id
  HasRow-upsert_users id [] rows h = absurd (cc h)
  HasRow-upsert_users id (other ∷ ids) rows h = elim (Bool-cases (id == other)) [
    | inl same ↦
        let e : other ≡ id = ground arith in
        rw e (
          HasRow-keeps id ids (upsert_rows (of_user id) (new id) (set id) rows) (
            HasRow-upsert (λ (r : UserMetricsRow F). r.user_id) Q new set named keeps made updated
              id rows))
    | inr differ ↦
        HasRow-upsert_users id ids (upsert_rows (of_user other) (new other) (set other) rows)
          (rw differ at h)
  ]
