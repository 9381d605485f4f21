-- ===== src/Metrics/Posted.antt =====
-- What the calculators of internal/metrics may write to the trades table.
use trading_platform_backend.Prelude.{
  ◌≡◌, refl, ap, ◌∙◌, ℕ, ◌-◌, String, Bool, true, false, Option, none, some, List, [], ◌∷◌, ◌==◌,
  ltb, leb, if◌then◌else◌, map, update_rows, where_rows, str_eq, all_rows, Bool-cases, inl, inr,
}
use trading_platform_backend.Prelude.Int.{ℤ, pos}
use trading_platform_backend.Prelude.Order.{order_by}
use trading_platform_backend.External.Float.{FloatOps}
use trading_platform_backend.External.Postgres.{NumericOps}
use trading_platform_backend.Database.{Db}
use trading_platform_backend.Database.Exec.{
  no_rows, not_found, failed, Result, ok, err, Exec, statement, statement_rule, continue, pure,
  ◌>>=◌,
}
use trading_platform_backend.Trades.Types.{Uuid, Time, Trade, outcome_win}
use trading_platform_backend.Trades.Repo.{set_revenge_flag}
use trading_platform_backend.Metrics.Repo.{
  increment_revenge_count, increment_overtrading_count, add_overtrading_event, upsert_groups,
  upsert_emotion_stat, upsert_session_tilt, set_score, set_plan_adherence_score, entered_before,
  closed_in_session,
}
use trading_platform_backend.Metrics.RevengeFlag.{
  load_trade, is_tilted, mark_revenge, last_losing_exit, flag_if_recent, check_last_loss,
  revenge_flag,
}
use trading_platform_backend.Metrics.Overtrading.{
  window, count_opens, count_existing, record_event, record_unless_known, overtrading,
}
use trading_platform_backend.Metrics.PlanAdherence.{last_ten, tally, store_average, plan_adherence}
use trading_platform_backend.Metrics.WinRate.{count_outcome, win_rate_by_emotion}

module _ {F : Type 0} where
  -- The trades without the two columns that SetRevengeFlag writes.
  abbrev pub posted : List (Trade F) → List (Trade F)
  posted ts = map (λ (t : Trade F). record t { revenge_flag = false; updated_at = 0 }) ts

  pub posted-flagged :
      (p : Trade F → Bool) (flag : Bool) (now : Time) (ts : List (Trade F))
      → posted (update_rows p (λ t. record t { revenge_flag = flag; updated_at = now }) ts)
        ≡ posted ts
  posted-flagged p flag now [] = refl
  posted-flagged p flag now (t ∷ ts) =
      let rest = posted-flagged p flag now ts in
      elim (Bool-cases (p t)) [
        | inl hit ↦ rw hit (ap (λ us. record t { revenge_flag = false; updated_at = 0 } ∷ us) rest)
        | inr miss ↦
            rw miss (ap (λ us. record t { revenge_flag = false; updated_at = 0 } ∷ us) rest)
      ]

  -- An action that leaves the posted trades as they are, whatever fails.
  abbrev pub Keeps : {A : Type 0} → Exec F A → Type 0
  Keeps run = (db : Db F) → posted (run db).1.trades ≡ posted db.trades

  pub Keeps-statement : {A : Type 0} (run : Exec F A) → Keeps run → Keeps (statement run)
  Keeps-statement run k db =
      statement_rule (λ r (d : Db F). posted d.trades ≡ posted db.trades) run db (λ _. refl)
        (λ later. k (record db { faults = later }))

  pub Keeps-bind :
      {A B : Type 0} (m : Exec F A) (f : A → Exec F B)
      → Keeps m
      → ((a : A) → Keeps (f a))
      → Keeps (m >>= f)
  Keeps-bind {A} {B} m f km kf db = go (m db).0 (m db).1 (km db)
    where
      go :
          (r : Result A) (db' : Db F)
          → posted db'.trades ≡ posted db.trades
          → posted (continue r f db').1.trades ≡ posted db.trades
      go (ok a) db' e = kf a db' ∙ e
      go (err x) db' e = e

  Keeps-if :
      {A : Type 0} (b : Bool) (m n : Exec F A) → Keeps m → Keeps n → Keeps (if b then m else n)
  Keeps-if true m n km kn = km
  Keeps-if false m n km kn = kn

  set_revenge_flag-Keeps : (id : Uuid) (flag : Bool) → Keeps (set_revenge_flag id flag)
  unfolding set_revenge_flag
  set_revenge_flag-Keeps id flag =
      Keeps-statement _ λ db. posted-flagged (λ t. t.trade_id == id) flag db.now db.trades

  increment_revenge-Keeps : (id : Uuid) → Keeps (increment_revenge_count id)
  unfolding increment_revenge_count
  increment_revenge-Keeps id = Keeps-statement _ (λ db. refl)

  mark_revenge-Keeps : (trade_id user_id : Uuid) → Keeps (mark_revenge trade_id user_id)
  unfolding mark_revenge
  mark_revenge-Keeps trade_id user_id =
      Keeps-bind (set_revenge_flag trade_id true) (λ _. increment_revenge_count user_id)
        (set_revenge_flag-Keeps trade_id true) (λ _. increment_revenge-Keeps user_id)

  row_or-Keeps : (id : Uuid) → Keeps (load_trade id)
  row_or-Keeps id = Keeps-statement _ (λ db. refl)

  flag_if_recent-Keeps :
      (trade_id user_id : Uuid) (entry_at : Time) (r : Result Time)
      → Keeps (flag_if_recent trade_id user_id entry_at r)
  flag_if_recent-Keeps trade_id user_id entry_at (ok exit_at) =
      Keeps-if _ (pure tt) (mark_revenge trade_id user_id) (λ db. refl)
        (mark_revenge-Keeps trade_id user_id)
  flag_if_recent-Keeps trade_id user_id entry_at (err no_rows) = λ db. refl
  flag_if_recent-Keeps trade_id user_id entry_at (err not_found) = λ db. refl
  flag_if_recent-Keeps trade_id user_id entry_at (err failed) = λ db. refl

  check_last_loss-Keeps :
      (trade_id user_id : Uuid) (entry_at : Time)
      → Keeps (check_last_loss trade_id user_id entry_at)
  unfolding check_last_loss
  check_last_loss-Keeps trade_id user_id entry_at db =
      let loss = last_losing_exit user_id entry_at db in
      flag_if_recent-Keeps trade_id user_id entry_at loss.0 loss.1
      ∙ Keeps-statement _ (λ d. refl) db

  pub revenge_flag-Keeps : (trade_id user_id : Uuid) → Keeps (revenge_flag trade_id user_id)
  unfolding revenge_flag
  revenge_flag-Keeps trade_id user_id =
      Keeps-bind (load_trade trade_id) _ (row_or-Keeps trade_id) λ t.
        Keeps-if (is_tilted t.emotional_state) (check_last_loss trade_id user_id t.entry_at)
          (pure tt) (check_last_loss-Keeps trade_id user_id t.entry_at) (λ db. refl)

  add_event-Keeps : (id : Uuid) (a b : Time) (n : ℕ) → Keeps (add_overtrading_event id a b n)
  unfolding add_overtrading_event
  add_event-Keeps id a b n = Keeps-statement _ (λ db. refl)

  increment_overtrading-Keeps : (id : Uuid) → Keeps (increment_overtrading_count id)
  unfolding increment_overtrading_count
  increment_overtrading-Keeps id = Keeps-statement _ (λ db. refl)

  record_event-Keeps : (id : Uuid) (at : Time) (n : ℕ) → Keeps (record_event id at n)
  record_event-Keeps id at n =
      Keeps-bind (add_overtrading_event id (at - window) at n) _
        (add_event-Keeps id (at - window) at n)
        λ _.
          Keeps-bind (increment_overtrading_count id) _ (increment_overtrading-Keeps id)
            (λ _ db. refl)

  record_unless_known-Keeps : (id : Uuid) (at : Time) (n : ℕ) → Keeps (record_unless_known id at n)
  record_unless_known-Keeps id at n =
      Keeps-bind (statement (λ db. (ok (count_existing id at db), db))) _
        (Keeps-statement _ (λ db. refl))
        λ existing.
          Keeps-if (ltb 0 existing) (pure none) (record_event id at n) (λ db. refl)
            (record_event-Keeps id at n)

  pub overtrading-Keeps : (id : Uuid) (at : Time) → Keeps (overtrading id at)
  unfolding overtrading
  overtrading-Keeps id at =
      Keeps-bind (statement (λ db. (ok (count_opens id at db), db))) _
        (Keeps-statement _ (λ db. refl))
        λ count.
          Keeps-if (leb count 10) (pure none) (record_unless_known id at count) (λ db. refl)
            (record_unless_known-Keeps id at count)

  emotion-Keeps : (id : Uuid) (emo : String) (won : Bool) → Keeps (upsert_emotion_stat id emo won)
  unfolding upsert_emotion_stat
  emotion-Keeps id emo won = Keeps-statement _ (λ db. refl)

  count_outcome-Keeps :
      (id : Uuid) (emo outcome : Option String) → Keeps (count_outcome id emo outcome)
  count_outcome-Keeps id none outcome = λ db. refl
  count_outcome-Keeps id (some emo) none = λ db. refl
  count_outcome-Keeps id (some emo) (some outcome) =
      emotion-Keeps id emo (str_eq outcome outcome_win)

  pub win_rate-Keeps : (trade_id user_id : Uuid) → Keeps (win_rate_by_emotion trade_id user_id)
  unfolding win_rate_by_emotion
  win_rate-Keeps trade_id user_id =
      Keeps-bind (load_trade trade_id) _ (row_or-Keeps trade_id)
        λ t. count_outcome-Keeps user_id t.emotional_state t.outcome

  pub groups-Keeps : (session_id : Uuid) (ts : List (Trade F)) → Keeps (upsert_groups session_id ts)
  groups-Keeps session_id [] db = refl
  groups-Keeps session_id (t ∷ ts) db =
      elim (Bool-cases (all_rows (λ (u : Trade F). u.user_id == t.user_id) ts)) [
        | inl same ↦ rw same refl
        | inr mixed ↦ rw mixed refl
      ]

  pub tilt-Keeps : (session_id : Uuid) → Keeps (upsert_session_tilt session_id)
  unfolding upsert_session_tilt
  tilt-Keeps session_id = Keeps-statement _ λ db.
      groups-Keeps session_id
        (order_by entered_before (where_rows (closed_in_session session_id) db.trades)) db

module _ {F : Type 0} (ops : FloatOps F) (numeric : NumericOps F) where
  score-Keeps :
      (id : Uuid) (score : F) (n : ℕ) (o : Option F) → Keeps (set_score numeric id score n o)
  unfolding set_score
  score-Keeps id score n none = λ db. refl
  score-Keeps id score n (some stored) = λ db. refl

  set_score-Keeps :
      (id : Uuid) (score : F) (n : ℕ) → Keeps (set_plan_adherence_score numeric id score n)
  unfolding set_plan_adherence_score
  set_score-Keeps id score n =
      Keeps-statement _ (score-Keeps id score n (numeric.numeric_5_4 score))

  store-Keeps :
      (id : Uuid) (sum : ℤ) (count : ℕ) → Keeps (store_average ops numeric id (sum, count))
  store-Keeps id sum count =
      Keeps-if (count == 0) (pure tt) _ (λ db. refl)
        (set_score-Keeps id (ops.div (ops.of_int sum) (ops.of_int (pos count))) count)

  pub plan_adherence-Keeps : (id : Uuid) → Keeps (plan_adherence ops numeric id)
  unfolding plan_adherence
  plan_adherence-Keeps id =
      Keeps-bind (statement (λ db. (ok (last_ten id db.trades), db))) _
        (Keeps-statement _ (λ db. refl))
        λ rows. let t = tally (pos 0) 0 rows in store-Keeps id t.0 t.1
