-- ===== src/Pipeline/Counted.antt =====
-- What the worker makes of the event of a closed trade (internal/worker/worker.go).
use trading_platform_backend.Prelude.{
  ◌<◌, ◌≡◌, refl, ap, ◌∙◌, String, false, some, List, [], ◌∷◌, ◌==◌, ◌&&◌, str_eq, find_row,
  where_rows, count_rows, all_rows, All, inl, inr, Bool-cases,
}
use trading_platform_backend.Prelude.Order.{order_by}
use trading_platform_backend.Database.{Db, SessionRow}
use trading_platform_backend.Database.Exec.{ok}
use trading_platform_backend.Trades.Types.{Uuid, Trade, outcome_win}
use trading_platform_backend.Trades.Repo.{has_id}
use trading_platform_backend.Metrics.Repo.{
  closed_in_session, entered_before, upsert_groups, upsert_session_tilt,
}
use trading_platform_backend.Metrics.Repo.Tilt.{
  IsTilt, all_but_last, is_lost, upsert_session_tilt-IsTilt,
}
use trading_platform_backend.Metrics.PlanAdherence.{plan_adherence}
use trading_platform_backend.Metrics.PlanAdherence.Frame.{SameButUsers, plan_adherence-SameButUsers}
use trading_platform_backend.Metrics.WinRate.{win_rate_by_emotion}
use trading_platform_backend.Metrics.WinRate.Counts.{stat, counted, stat-win_rate_by_emotion}
use trading_platform_backend.Worker.{World, Worker, process_closed}

module _ {F : Type 0} where
  -- UpsertSessionTilt writes session_metrics only.
  groups-same :
      (session_id : Uuid) (ts : List (Trade F)) (db : Db F)
      → ((upsert_groups session_id ts db).1.trades ≡ db.trades)
        × ((upsert_groups session_id ts db).1.emotion_metrics ≡ db.emotion_metrics)
  groups-same session_id [] db = (refl, refl)
  groups-same session_id (t ∷ ts) db =
      elim (Bool-cases (all_rows (λ (u : Trade F). u.user_id == t.user_id) ts)) [
        | inl same ↦ rw same (refl, refl)
        | inr mixed ↦ rw mixed (refl, refl)
      ]

  tilt-same :
      (session_id : Uuid) (db : Db F)
      → db.faults ≡ []
      → ((upsert_session_tilt session_id db).1.trades ≡ db.trades)
        × ((upsert_session_tilt session_id db).1.emotion_metrics ≡ db.emotion_metrics)
  unfolding upsert_session_tilt
  tilt-same session_id db calm = rw calm (
      groups-same session_id
        (order_by entered_before (where_rows (closed_in_session session_id) db.trades))
        (record db { faults = [] }))

  abbrev pub closed_of : Uuid → List (Trade F) → List (Trade F)
  closed_of session_id ts = where_rows (closed_in_session session_id) ts

  -- The row of the session after the event, for these trades.
  abbrev pub HasTilt : Uuid → List (Trade F) → List SessionRow → Type 0
  HasTilt session_id ts rows =
      (r : SessionRow) × (find_row (λ x. x.session_id == session_id) rows ≡ some r)
      × IsTilt (count_rows (closed_in_session session_id) ts)
          (count_rows is_lost (all_but_last (order_by entered_before (closed_of session_id ts)))) r

  HasTilt-eq :
      (session_id : Uuid) (ts us : List (Trade F)) (rows : List SessionRow)
      → ts ≡ us
      → HasTilt session_id ts rows
      → HasTilt session_id us rows
  HasTilt-eq session_id ts us rows e h = rw (← e) h

module _ {F R : Type 0} (w : Worker F R) where
  open w use {floats, numeric}

  -- The calculators of trade.closed have succeeded on these tables: one outcome more is counted for the
  -- user and the emotion, and for no others, and the session's row is up to date.
  pub record IsCounted (user_id session_id : Uuid) (emo outcome : String) (s s' : World F R)
      : Type 0 where
    pub trades : s'.db.trades ≡ s.db.trades
    pub stats :
        (v : Uuid) (f : String)
        → stat v f s'.db.emotion_metrics
          ≡ counted
              (user_id == v && str_eq emo f)
              (str_eq outcome outcome_win)
              (stat v f s.db.emotion_metrics)
    pub tilt : HasTilt session_id s.db.trades s'.db.session_metrics

  pub process_closed-IsCounted :
      (trade_id user_id session_id : Uuid) (emo outcome : String) (t : Trade F) (s : World F R)
      → s.db.faults ≡ []
      → find_row (has_id trade_id) s.db.trades ≡ some t
      → t.emotional_state ≡ some emo
      → t.outcome ≡ some outcome
      → All (λ u. u.user_id ≡ user_id) (closed_of session_id s.db.trades)
      → 0 < count_rows (closed_in_session session_id) s.db.trades
      → (plan_adherence floats numeric user_id s.db).0 ≡ ok tt
      → let r = process_closed w trade_id user_id session_id s in
        (r.0 ≡ record { failures = 0; malformed = false })
        × (r.1.redis ≡ s.redis)
        × IsCounted user_id session_id emo outcome s r.1
  unfolding process_closed
  process_closed-IsCounted trade_id user_id session_id emo outcome t s calm found felt ended one
        some_closed scored =
      let db1 : Db F = (plan_adherence floats numeric user_id s.db).1 in
      let frame : SameButUsers db1 s.db =
        plan_adherence-SameButUsers floats numeric user_id s.db calm in
      let calm1 : db1.faults ≡ [] = frame.faults ∙ calm in
      let won = λ (v : Uuid) (f : String).
        stat-win_rate_by_emotion trade_id user_id v f emo outcome db1 t calm1
          (ap (find_row (has_id trade_id)) frame.trades ∙ found) felt ended in
      let any = won user_id emo in
      let db2 : Db F = (win_rate_by_emotion trade_id user_id db1).1 in
      let same2 : db2.trades ≡ s.db.trades = any.2 ∙ frame.trades in
      let kept = tilt-same session_id db2 any.3 in
      let (row, at, exact, done) =
        upsert_session_tilt-IsTilt session_id user_id db2 any.3 (rw same2 one)
          (rw same2 some_closed) in
      (
        rw (scored, any.0, done) refl,
        refl,
        record {
          trades = kept.0 ∙ same2;
          stats = λ v f.
              ap (stat v f) kept.1
              ∙ (won v f).1
              ∙ ap
                  (λ rows.
                    counted (user_id == v && str_eq emo f) (str_eq outcome outcome_win)
                      (stat v f rows))
                  frame.emotion_metrics;
          tilt =
              HasTilt-eq session_id db2.trades s.db.trades
                (upsert_session_tilt session_id db2).1.session_metrics same2 (row, at, exact);
        },
      )
