-- ===== src/Metrics/Repo.antt =====
-- internal/metrics/repo.go: the statements on the metric tables that the worker runs.
pub mod Tilt
use trading_platform_backend.Prelude.{
  ℕ, ◌+◌, ◌*◌, ◌/◌, String, Bool, false, ◌&&◌, Option, none, some, List, [], ◌∷◌, ◌++◌, ltb, ◌==◌,
  if◌then◌else◌, str_eq, where_rows, all_rows, upsert_rows, length,
}
use trading_platform_backend.Prelude.Order.{order_by}
use trading_platform_backend.External.Postgres.{NumericOps}
use trading_platform_backend.Database.{UserMetricsRow, EmotionRow, SessionRow, OvertradingRow}
use trading_platform_backend.Database.Exec.{failed, ok, err, Exec, statement}
use trading_platform_backend.Trades.Types.{Uuid, Time, status_closed, outcome_loss, Trade}

module _ {F : Type 0} where
  abbrev pub of_user : Uuid → UserMetricsRow F → Bool
  of_user id r = r.user_id == id

  -- A new row of user_metrics, with the defaults of the table.
  abbrev pub new_user_row : Uuid → Time → UserMetricsRow F
  new_user_row id now = record {
    user_id = id;
    plan_adherence_score = none;
    plan_adherence_window = 0;
    revenge_trades_count = 0;
    overtrading_events_count = 0;
    updated_at = now;
  }

  unfoldable pub set_score : NumericOps F → Uuid → F → ℕ → Option F → Exec F (Unit {0})
  set_score numeric id score window none db = (err failed, db)
  set_score numeric id score window (some stored) db = (
    ok tt,
    record db {
      user_metrics =
          upsert_rows (of_user id)
            (record (new_user_row id db.now) {
              plan_adherence_score = some stored;
              plan_adherence_window = window;
            })
            (λ r. record r {
              plan_adherence_score = some stored;
              plan_adherence_window = window;
              updated_at = db.now;
            })
            db.user_metrics;
    },
  )

  -- SetPlanAdherenceScore
  unfoldable pub set_plan_adherence_score : NumericOps F → Uuid → F → ℕ → Exec F (Unit {0})
  unfolding set_score
  set_plan_adherence_score numeric id score window =
      statement (set_score numeric id score window (numeric.numeric_5_4 score))

  -- IncrementRevengeCount
  unfoldable pub increment_revenge_count : Uuid → Exec F (Unit {0})
  increment_revenge_count id = statement λ db. (
    ok tt,
    record db {
      user_metrics =
          upsert_rows (of_user id) (record (new_user_row id db.now) { revenge_trades_count = 1 })
            (λ r. record r {
              revenge_trades_count = r.revenge_trades_count + 1;
              updated_at = db.now;
            })
            db.user_metrics;
    },
  )

  -- IncrementOvertradingCount
  unfoldable pub increment_overtrading_count : Uuid → Exec F (Unit {0})
  increment_overtrading_count id = statement λ db. (
    ok tt,
    record db {
      user_metrics =
          upsert_rows (of_user id)
            (record (new_user_row id db.now) { overtrading_events_count = 1 })
            (λ r. record r {
              overtrading_events_count = r.overtrading_events_count + 1;
              updated_at = db.now;
            })
            db.user_metrics;
    },
  )

  -- AddOvertradingEvent
  unfoldable pub add_overtrading_event : Uuid → Time → Time → ℕ → Exec F (Unit {0})
  add_overtrading_event id window_start window_end count = statement λ db.
      let event : OvertradingRow = record {
        user_id = id;
        window_start = window_start;
        window_end = window_end;
        trade_count = count;
      } in
      (ok tt, record db { overtrading_events = db.overtrading_events ++ event ∷ [] })

abbrev pub of_emotion : Uuid → String → EmotionRow → Bool
of_emotion id emo r = r.user_id == id && str_eq r.emotional_state emo

-- the row that INSERT ... (user_id, emotional_state, col) VALUES ($1, $2, 1) describes
abbrev pub new_emotion_row : Uuid → String → Bool → Time → EmotionRow
new_emotion_row id emo won now = record {
  user_id = id;
  emotional_state = emo;
  wins = if won then 1 else 0;
  losses = if won then 0 else 1;
  updated_at = now;
}

-- SET col = col + 1
abbrev pub bump_emotion_row : Bool → Time → EmotionRow → EmotionRow
bump_emotion_row won now r = record r {
  wins = if won then r.wins + 1 else r.wins;
  losses = if won then r.losses else r.losses + 1;
  updated_at = now;
}

abbrev pub is_loss : Option String → Bool
is_loss none = false
is_loss (some o) = str_eq o outcome_loss

module _ {F : Type 0} where
  -- UpsertEmotionStat
  unfoldable pub upsert_emotion_stat : Uuid → String → Bool → Exec F (Unit {0})
  upsert_emotion_stat id emo won = statement λ db. (
    ok tt,
    record db {
      emotion_metrics =
          upsert_rows (of_emotion id emo) (new_emotion_row id emo won db.now)
            (bump_emotion_row won db.now) db.emotion_metrics;
    },
  )

  abbrev pub closed_in_session : Uuid → Trade F → Bool
  closed_in_session id t = t.session_id == id && str_eq t.status status_closed

  abbrev pub entered_before : Trade F → Trade F → Bool
  entered_before t u = ltb t.entry_at u.entry_at

  -- COUNT(*) FILTER (WHERE prev_outcome = 'loss'), where LAG gives each row the outcome of the row
  -- before it, and NULL to the first.
  abbrev pub count_loss_following : Option String → List (Trade F) → ℕ
  count_loss_following prev [] = 0
  count_loss_following prev (t ∷ ts) =
      (if is_loss prev then 1 else 0) + count_loss_following t.outcome ts

-- l / t as NUMERIC(5, 4), in ten-thousandths, rounded to the nearest; 0 where t is 0
unfoldable pub tilt_ratio : ℕ → ℕ → ℕ
tilt_ratio l t = if t == 0 then 0 else (20000 * l + t) / (2 * t)

-- DO UPDATE leaves user_id as it is.
abbrev pub update_session_row : SessionRow → SessionRow → SessionRow
update_session_row new r = record r {
  total_trades = new.total_trades;
  loss_following_trades = new.loss_following_trades;
  tilt_index = new.tilt_index;
  updated_at = new.updated_at;
}

module _ {F : Type 0} where
  abbrev pub session_row : Uuid → Uuid → List (Trade F) → Time → SessionRow
  session_row session_id user_id ordered now = record {
    session_id = session_id;
    user_id = user_id;
    total_trades = length ordered;
    loss_following_trades = count_loss_following none ordered;
    tilt_index = tilt_ratio (count_loss_following none ordered) (length ordered);
    updated_at = now;
  }

  -- One group is one row. Two groups, where the session has closed trades of two users, have the
  -- same session_id, and Postgres refuses ON CONFLICT DO UPDATE on one row twice.
  abbrev pub upsert_groups : Uuid → List (Trade F) → Exec F (Unit {0})
  upsert_groups session_id [] db = (ok tt, db)
  upsert_groups session_id (t ∷ ts) db =
      let new = session_row session_id t.user_id (t ∷ ts) db.now in
      if all_rows (λ (u : Trade F). u.user_id == t.user_id) ts
      then (
        ok tt,
        record db {
          session_metrics =
              upsert_rows (λ r. r.session_id == session_id) new (update_session_row new)
                db.session_metrics;
        },
      )
      else (err failed, db)

  -- UpsertSessionTilt, which SessionTilt of session_tilt.go only calls
  unfoldable pub upsert_session_tilt : Uuid → Exec F (Unit {0})
  upsert_session_tilt session_id = statement λ db.
      upsert_groups session_id
        (order_by entered_before (where_rows (closed_in_session session_id) db.trades)) db
