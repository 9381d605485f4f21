-- ===== src/Metrics/Backfill/Groups/Scores.antt =====
-- The upserts of backfillPlanAdherence (internal/metrics/backfill.go), one user after the other.
use trading_platform_backend.Prelude.{
  ℕ, ◌≡◌, ◌⊎◌, refl, ◌∙◌, ap, true, false, Option, none, some, List, [], ◌∷◌, arith, upsert_rows,
  find_row, length, inl, inr,
}
use trading_platform_backend.Prelude.Groups.{holds}
use trading_platform_backend.Prelude.Keyed.{find_other}
use trading_platform_backend.External.Postgres.{NumericOps}
use trading_platform_backend.Database.{UserMetricsRow}
use trading_platform_backend.Trades.Types.{Uuid, Time, Trade}
use trading_platform_backend.Metrics.Repo.{of_user, new_user_row}
use trading_platform_backend.Metrics.Backfill.Flags.{upsert_users}
use trading_platform_backend.Metrics.Backfill.Groups.{
  last10, upsert_score, then_rows, upsert_scores,
}

module _ {F : Type 0} where
  upsert_some :
      (now : Time) (id : Uuid) (n : ℕ) (o : Option F) (s : F) (rows : List (UserMetricsRow F))
      → o ≡ some s
      → upsert_score now id n o rows
        ≡ some (
            upsert_rows
              (of_user id)
              (record (new_user_row id now) { plan_adherence_score = o; plan_adherence_window = n })
              (λ r. record r {
                plan_adherence_score = o;
                plan_adherence_window = n;
                updated_at = now;
              })
              rows)
  upsert_some now id n none s rows e = absurd (cc e)
  upsert_some now id n (some x) s rows e = refl

module _ {F : Type 0} (numeric : NumericOps F) (now : Time) (ts : List (Trade F)) where
  abbrev pub score : Uuid → Option F
  score id = numeric.average_to_5_4 (last10 id ts)

  abbrev pub scored_row : Uuid → UserMetricsRow F
  scored_row id = record (new_user_row id now) {
    plan_adherence_score = score id;
    plan_adherence_window = length (last10 id ts);
  }

  abbrev pub set_score : Uuid → UserMetricsRow F → UserMetricsRow F
  set_score id r = record r {
    plan_adherence_score = score id;
    plan_adherence_window = length (last10 id ts);
    updated_at = now;
  }

  -- Some average does not fit the column, or the groups are upserted one after the other.
  abbrev pub IsUpserted : List Uuid → List (UserMetricsRow F) → Type 0
  IsUpserted ids rows =
      ((upsert_scores numeric now ts ids rows ≡ none)
        × ((id : Uuid) × (holds id ids ≡ true) × (score id ≡ none)))
      ⊎ (upsert_scores numeric now ts ids rows ≡ some (upsert_users scored_row set_score ids rows))

  upsert_fitting :
      (id : Uuid) (ids : List Uuid) (rows : List (UserMetricsRow F)) (s : F)
      → score id ≡ some s
      → upsert_scores numeric now ts (id ∷ ids) rows
        ≡ upsert_scores numeric now ts ids
            (upsert_rows (of_user id) (scored_row id) (set_score id) rows)
  upsert_fitting id ids rows s e =
      ap (λ o. then_rows o (upsert_scores numeric now ts ids))
        (upsert_some now id (length (last10 id ts)) (score id) s rows e)

  IsUpserted-step :
      (id : Uuid) (ids : List Uuid) (rows : List (UserMetricsRow F)) (o : Option F)
      → score id ≡ o
      → IsUpserted ids (upsert_rows (of_user id) (scored_row id) (set_score id) rows)
      → IsUpserted (id ∷ ids) rows
  IsUpserted-step id ids rows none e later = inl (rw e refl, (id, ground arith, e))
  IsUpserted-step id ids rows (some s) e (inl (refused, (x, held, unfit))) =
      inl (upsert_fitting id ids rows s e ∙ refused, (x, ground arith, unfit))
  IsUpserted-step id ids rows (some s) e (inr done) = inr (upsert_fitting id ids rows s e ∙ done)

  pub upsert_scores-IsUpserted :
      (ids : List Uuid) (rows : List (UserMetricsRow F)) → IsUpserted ids rows
  upsert_scores-IsUpserted [] rows = inr refl
  upsert_scores-IsUpserted (id ∷ ids) rows =
      IsUpserted-step id ids rows (score id) refl (
        upsert_scores-IsUpserted ids (upsert_rows (of_user id) (scored_row id) (set_score id) rows))

  abbrev at_user : UserMetricsRow F → Uuid
  at_user r = r.user_id

  -- A user without a group keeps the row.
  pub kept_row :
      (id : Uuid) (ids : List Uuid) (rows : List (UserMetricsRow F))
      → holds id ids ≡ false
      → find_row (of_user id) (upsert_users scored_row set_score ids rows)
        ≡ find_row (of_user id) rows
  kept_row id [] rows h = refl
  kept_row id (other ∷ ids) rows h =
      kept_row id ids (upsert_rows (of_user other) (scored_row other) (set_score other) rows)
        (ground arith)
      ∙ find_other at_user id other (scored_row other) (set_score other) rows (ground arith) refl
          (λ r. refl)
