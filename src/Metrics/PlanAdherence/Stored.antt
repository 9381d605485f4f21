-- ===== src/Metrics/PlanAdherence/Stored.antt =====
-- What PlanAdherence of internal/metrics/plan_adherence.go stores of the trades that it averages.
use trading_platform_backend.Prelude.{
  ℕ, ◌≡◌, inl, inr, refl, sym, ap, ◌∙◌, false, Option, none, some, List, [], ◌∷◌, arith, ◌==◌,
  if◌then◌else◌, All, length, take, where_rows, find_row, upsert_rows, upserted,
  find_row-upsert_rows, Bool-cases, ==_refl,
}
use mathlib.Core.Path.{subst}
use trading_platform_backend.Prelude.Int.{ℤ, pos}
use trading_platform_backend.Prelude.Order.{All-order_by}
use trading_platform_backend.Prelude.Keyed.{find_other}
use trading_platform_backend.Prelude.Sorted.{All-take}
use trading_platform_backend.External.Float.{FloatOps}
use trading_platform_backend.External.Postgres.{NumericOps}
use trading_platform_backend.Database.{UserMetricsRow, Db}
use trading_platform_backend.Database.Exec.{Result, ok, err, failed, continue, statement_calm}
use trading_platform_backend.Trades.Types.{Uuid, Time, Trade}
use trading_platform_backend.Metrics.Repo.{
  of_user, new_user_row, set_score, set_plan_adherence_score,
}
use trading_platform_backend.Metrics.PlanAdherence.{
  tally, rated_close, exits_first, last_ten, store_average, plan_adherence,
}
use trading_platform_backend.Metrics.PlanAdherence.LastTen.{
  sum_stars, IsChecked, tally_all, IsRatedClose, IsLastTen, ordered, ordered_rated,
  ordered-IsLastTen, Shows, stars_of, All-where-IsChecked,
}

module _ {F : Type 0} where
  -- The user's row with this score and window, or a new row that has them.
  abbrev pub with_score : Uuid → Time → F → ℕ → Option (UserMetricsRow F) → UserMetricsRow F
  with_score u now score count none = record {
    user_id = u;
    plan_adherence_score = some score;
    plan_adherence_window = count;
    revenge_trades_count = 0;
    overtrading_events_count = 0;
    updated_at = now;
  }
  with_score u now score count (some r) = record r {
    plan_adherence_score = some score;
    plan_adherence_window = count;
    updated_at = now;
  }

  abbrev pub user_row : Uuid → Db F → Option (UserMetricsRow F)
  user_row u db = find_row (λ r. r.user_id == u) db.user_metrics

  -- What comes of the score that the column makes of the average: it refuses it, or the user's row has
  -- the score and the number of trades, and all else is as it was.
  abbrev pub Stores : Uuid → Option F → ℕ → Db F → Result (Unit {0}) × Db F → Type 0
  Stores u none count db out = out ≡ (err failed, db)
  Stores u (some score) count db out =
      (out.0 ≡ ok tt)
      × ((v : Uuid)
          → user_row v out.1 ≡ (
              if u == v
              then some (with_score v db.now score count (user_row v db))
              else user_row v db))
      × (out.1.trades ≡ db.trades)
      × (out.1.emotion_metrics ≡ db.emotion_metrics)
      × (out.1.session_metrics ≡ db.session_metrics)
      × (out.1.overtrading_events ≡ db.overtrading_events)

  -- Nothing for no trades; else what comes of the average of these stars.
  abbrev pub Averages :
      FloatOps F → NumericOps F → Uuid → List ℕ → Db F → Result (Unit {0}) × Db F → Type 0
  Averages ops numeric u [] db out = out ≡ (ok tt, db)
  Averages ops numeric u (n ∷ ns) db out =
      Stores u
        (numeric.numeric_5_4
          (ops.div (ops.of_int (pos (sum_stars (n ∷ ns)))) (ops.of_int (pos (length (n ∷ ns))))))
        (length (n ∷ ns)) db out

  with_score-upserted :
      (u : Uuid) (now : Time) (score : F) (count : ℕ) (o : Option (UserMetricsRow F))
      → upserted
          (record (new_user_row u now) {
            plan_adherence_score = some score;
            plan_adherence_window = count;
          })
          (λ r. record r {
            plan_adherence_score = some score;
            plan_adherence_window = count;
            updated_at = now;
          })
          o
        ≡ with_score u now score count o
  with_score-upserted u now score count none = refl
  with_score-upserted u now score count (some r) = refl

  find-scored :
      (u v : Uuid) (now : Time) (score : F) (count : ℕ) (rows : List (UserMetricsRow F))
      → find_row (of_user v) (
          upsert_rows
            (of_user u)
            (record (new_user_row u now) {
              plan_adherence_score = some score;
              plan_adherence_window = count;
            })
            (λ r. record r {
              plan_adherence_score = some score;
              plan_adherence_window = count;
              updated_at = now;
            })
            rows)
        ≡ (if u == v
            then some (with_score v now score count (find_row (of_user v) rows))
            else find_row (of_user v) rows)
  find-scored u v now score count rows = elim (Bool-cases (u == v)) [
    | inl same ↦ rw same (
        let e : u ≡ v = ground arith in
        rw e (
          find_row-upsert_rows (of_user v) _ _ rows (==_refl v) (λ r. refl)
          ∙ ap some (with_score-upserted v now score count (find_row (of_user v) rows))))
    | inr differ ↦
        rw differ
          (find_other (λ (r : UserMetricsRow F). r.user_id) v u _ _ rows differ refl (λ r. refl))
  ]

  set_score-Stores :
      (numeric : NumericOps F) (u : Uuid) (average : F) (o : Option F) (count : ℕ) (db : Db F)
      → Stores u o count db (set_score numeric u average count o db)
  unfolding set_score
  set_score-Stores numeric u average none count db = refl
  set_score-Stores numeric u average (some score) count db =
      (refl, (λ v. find-scored u v db.now score count db.user_metrics), refl, refl, refl, refl)

module _ {F : Type 0} (ops : FloatOps F) (numeric : NumericOps F) where
  store_average-Averages :
      (u : Uuid) (stars : List ℕ) (db : Db F)
      → db.faults ≡ []
      → Averages ops numeric u stars db
          (store_average ops numeric u (pos (sum_stars stars), length stars) db)
  unfolding set_plan_adherence_score
  store_average-Averages u [] db calm = refl
  store_average-Averages u (n ∷ ns) db calm =
      let some_trade : (length (n ∷ ns) == 0) ≡ false = ground arith in
      let average : F =
        ops.div (ops.of_int (pos (sum_stars (n ∷ ns)))) (ops.of_int (pos (length (n ∷ ns)))) in
      let set = set_score numeric u average (length (n ∷ ns)) (numeric.numeric_5_4 average) in
      rw some_trade (
        subst (Stores u (numeric.numeric_5_4 average) (length (n ∷ ns)) db)
          (sym (statement_calm set db calm))
          (set_score-Stores numeric u average (numeric.numeric_5_4 average) (length (n ∷ ns)) db))

  plan_adherence-tally :
      (u : Uuid) (db : Db F)
      → db.faults ≡ []
      → plan_adherence ops numeric u db
        ≡ store_average ops numeric u (tally (pos 0) 0 (last_ten u db.trades)) db
  unfolding plan_adherence
  plan_adherence-tally u db calm =
      ap
        (λ (out : Result (List ℤ) × Db F).
          continue out.0 (λ rows. store_average ops numeric u (tally (pos 0) 0 rows)) out.1)
        (statement_calm (λ (d : Db F). (ok (last_ten u d.trades), d)) db calm)

  -- PlanAdherence on a table whose ratings are from 1 to 5, with no failing statement. The trades that
  -- it averages are rated closed trades of the user: ten that exit no earlier than any other, where no
  -- exit counts as the latest, or all where there are fewer. Without any it succeeds and changes
  -- nothing. Otherwise, of the sum of their stars divided by their number as float64: it fails and
  -- changes nothing where the column refuses it, and else the user's row, which it adds where there is
  -- none, has that score and their number, and nothing else in the tables changes.
  pub plan_adherence-IsLastTen :
      (u : Uuid) (db : Db F)
      → db.faults ≡ []
      → All IsChecked db.trades
      → (newest : List (Trade F)) × (stars : List ℕ) × IsLastTen u db.trades newest
        × Shows newest stars
        × Averages ops numeric u stars db (plan_adherence ops numeric u db)
  unfolding last_ten
  plan_adherence-IsLastTen u db calm checked =
      let newest : List (Trade F) = take 10 (ordered u db.trades) in
      let (stars, same, shows) =
        stars_of u newest
          (All-take (IsRatedClose u) 10 (ordered u db.trades) (ordered_rated u db.trades))
          (All-take IsChecked 10 (ordered u db.trades) (
            All-order_by exits_first IsChecked (where_rows (rated_close u) db.trades)
              (All-where-IsChecked (rated_close u) db.trades checked))) in
      let tallied : tally (pos 0) 0 (last_ten u db.trades) ≡ (pos (sum_stars stars), length stars) =
        ap (tally (pos 0) 0) same ∙ tally_all stars in
      (
        newest,
        stars,
        ordered-IsLastTen u db.trades,
        shows,
        subst (Averages ops numeric u stars db)
            (sym
              (plan_adherence-tally u db calm ∙ ap (λ t. store_average ops numeric u t db) tallied))
            (store_average-Averages u stars db calm),
      )
