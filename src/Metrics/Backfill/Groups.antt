-- ===== src/Metrics/Backfill/Groups.antt =====
-- internal/metrics/backfill.go: backfillPlanAdherence and backfillWinRateByEmotion, one
-- statement each. The groups come in the order of their keys.
pub mod Emotions
pub mod Measured
pub mod OneByOne
pub mod Window
pub mod Scores
pub mod Scored
use trading_platform_backend.Prelude.{
  ℕ, String, Bool, true, false, ◌&&◌, Option, none, some, List, [], ◌∷◌, ltb, ◌==◌, if◌then◌else◌,
  str_eq, take, where_rows, upsert_rows, count_rows, length,
}
use trading_platform_backend.Prelude.Int.{ℤ}
use trading_platform_backend.Prelude.Order.{order_by}
use trading_platform_backend.External.Postgres.{NumericOps}
use trading_platform_backend.Database.{UserMetricsRow, EmotionRow}
use trading_platform_backend.Database.Exec.{failed, ok, err, Exec, statement}
use trading_platform_backend.Trades.Types.{
  Uuid, Time, status_closed, outcome_win, outcome_loss, Trade,
}
use trading_platform_backend.Metrics.Repo.{of_user, new_user_row, of_emotion}
use trading_platform_backend.Metrics.PlanAdherence.{is_rated, rated_close, ratings}
use trading_platform_backend.Metrics.Buckets.{has_outcome}
use trading_platform_backend.Metrics.Backfill.Flags.{user_ids}

-- ORDER BY exit_at DESC NULLS LAST
abbrev pub exits_later_nulls_last : Option Time → Option Time → Bool
exits_later_nulls_last none b = false
exits_later_nulls_last (some a) none = true
exits_later_nulls_last (some a) (some b) = ltb b a

abbrev pub has_some : Option String → Bool
has_some none = false
has_some (some s) = true

module _ {F : Type 0} where
  abbrev pub latest_exit_first : Trade F → Trade F → Bool
  latest_exit_first t u = exits_later_nulls_last t.exit_at u.exit_at

  -- last10: the rows of a user with rn <= 10
  unfoldable pub last10 : Uuid → List (Trade F) → List ℤ
  last10 id ts = ratings (take 10 (order_by latest_exit_first (where_rows (rated_close id) ts)))

  -- the rows of last10 before the window: they name the groups
  abbrev pub is_rated_close : Trade F → Bool
  is_rated_close t = str_eq t.status status_closed && is_rated t.plan_adherence

  -- one group; none where the average does not fit the column
  abbrev pub upsert_score :
      Time → Uuid → ℕ → Option F → List (UserMetricsRow F) → Option (List (UserMetricsRow F))
  upsert_score now id count none rows = none
  upsert_score now id count (some score) rows = some (
      upsert_rows (of_user id)
        (record (new_user_row id now) {
          plan_adherence_score = some score;
          plan_adherence_window = count;
        })
        (λ r. record r {
          plan_adherence_score = some score;
          plan_adherence_window = count;
          updated_at = now;
        })
        rows)

  abbrev pub then_rows :
      Option (List (UserMetricsRow F))
      → (List (UserMetricsRow F) → Option (List (UserMetricsRow F)))
      → Option (List (UserMetricsRow F))
  then_rows none f = none
  then_rows (some rows) f = f rows

  abbrev pub upsert_scores :
      NumericOps F
      → Time
      → List (Trade F)
      → List Uuid
      → List (UserMetricsRow F)
      → Option (List (UserMetricsRow F))
  upsert_scores numeric now ts [] rows = some rows
  upsert_scores numeric now ts (id ∷ ids) rows =
      then_rows
        (upsert_score now id (length (last10 id ts)) (numeric.average_to_5_4 (last10 id ts)) rows)
        (upsert_scores numeric now ts ids)

  abbrev pub store_scores : Option (List (UserMetricsRow F)) → Exec F (Unit {0})
  store_scores none db = (err failed, db)
  store_scores (some rows) db = (ok tt, record db { user_metrics = rows })

  -- backfillPlanAdherence
  unfoldable pub backfill_plan_adherence : NumericOps F → Exec F (Unit {0})
  backfill_plan_adherence numeric = statement λ db.
      store_scores
        (upsert_scores numeric db.now db.trades (user_ids (where_rows is_rated_close db.trades))
          db.user_metrics)
        db

  -- the WHERE clause
  abbrev pub is_felt_close : Trade F → Bool
  is_felt_close t =
      str_eq t.status status_closed && has_some t.emotional_state && has_some t.outcome

  abbrev pub felt_by : Uuid → String → Trade F → Bool
  felt_by id emo t = t.user_id == id && has_outcome emo t.emotional_state

  abbrev pub count_emotion : Uuid → String → String → List (Trade F) → ℕ
  count_emotion id emo outcome ts =
      count_rows (λ t. felt_by id emo t && has_outcome outcome t.outcome) ts

  -- the row of one group
  abbrev pub emotion_row : Uuid → String → Time → List (Trade F) → EmotionRow
  emotion_row id emo now ts = record {
    user_id = id;
    emotional_state = emo;
    wins = count_emotion id emo outcome_win ts;
    losses = count_emotion id emo outcome_loss ts;
    updated_at = now;
  }

abbrev pub update_emotion_row : EmotionRow → EmotionRow → EmotionRow
update_emotion_row new r = record r {
  wins = new.wins;
  losses = new.losses;
  updated_at = new.updated_at;
}

abbrev pub add_emotion : Uuid → String → List (Uuid × String) → List (Uuid × String)
add_emotion id emo [] = (id, emo) ∷ []
add_emotion id emo ((i, e) ∷ keys) =
    let rest = add_emotion id emo keys in
    if i == id && str_eq e emo then (i, e) ∷ keys else (i, e) ∷ rest

abbrev pub add_felt : Uuid → Option String → List (Uuid × String) → List (Uuid × String)
add_felt id none keys = keys
add_felt id (some emo) keys = add_emotion id emo keys

module _ {F : Type 0} where
  -- GROUP BY user_id, emotional_state
  abbrev pub emotion_keys : List (Trade F) → List (Uuid × String)
  emotion_keys [] = []
  emotion_keys (t ∷ ts) = add_felt t.user_id t.emotional_state (emotion_keys ts)

  abbrev pub upsert_emotions :
      Time → List (Trade F) → List (Uuid × String) → List EmotionRow → List EmotionRow
  upsert_emotions now ts [] rows = rows
  upsert_emotions now ts ((id, emo) ∷ keys) rows =
      let new = emotion_row id emo now ts in
      upsert_emotions now ts keys
        (upsert_rows (of_emotion id emo) new (update_emotion_row new) rows)

  -- backfillWinRateByEmotion
  unfoldable pub backfill_win_rate : Exec F (Unit {0})
  backfill_win_rate = statement λ db.
      let felt = where_rows is_felt_close db.trades in
      (
        ok tt,
        record db {
          emotion_metrics = upsert_emotions db.now felt (emotion_keys felt) db.emotion_metrics;
        },
      )
