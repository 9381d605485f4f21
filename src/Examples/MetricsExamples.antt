-- ===== src/Examples/MetricsExamples.antt =====
-- Concrete instances of the theorems on metrics.
use trading_platform_backend.Prelude.{
  ℕ, zero, suc, ◌+◌, ◌*◌, ◌≡◌, ◌⊎◌, inr, refl, true, false, none, some, List, [], ◌∷◌, ◌++◌, arith,
  ◌==◌, find_row,
}
use trading_platform_backend.Prelude.Int.{ℤ}
use trading_platform_backend.Database.{Db, SessionRow, OvertradingRow}
use trading_platform_backend.Database.Exec.{failed, ok, err}
use trading_platform_backend.Trades.Types.{second, Trade, Time}
use trading_platform_backend.Metrics.Repo.{upsert_session_tilt}
use trading_platform_backend.Metrics.Repo.Tilt.{IsTilt, upsert_session_tilt-IsTilt}
use trading_platform_backend.Metrics.RevengeFlag.{revenge_flag}
use trading_platform_backend.Metrics.RevengeFlag.Marked.{IsRevenge, IsMarked, revenge_flag-IsMarked}
use trading_platform_backend.Metrics.Overtrading.{window, count_opens, overtrading}
use trading_platform_backend.Metrics.Overtrading.Spacing.{IsLog, new_event, overtrading-IsLog}
use trading_platform_backend.Metrics.Overtrading.Retry.{overtrading-retry}
use trading_platform_backend.Metrics.PlanAdherence.{plan_adherence}
use trading_platform_backend.Metrics.PlanAdherence.LastTen.{IsLastTen, Shows}
use trading_platform_backend.Metrics.PlanAdherence.Stored.{Averages, plan_adherence-IsLastTen}
use trading_platform_backend.Examples.{
  whole_floats, any_numeric, sold_row, lost_row, opened_row, with_trades,
}

abbrev after_loss : Db ℤ
after_loss = with_trades (lost_row ∷ opened_row ∷ [])

revenge_flag-IsMarked_example :
    (IsRevenge 7 after_loss.trades opened_row
      × IsMarked 4 7 after_loss (revenge_flag 4 7 after_loss).0 (revenge_flag 4 7 after_loss).1)
    ⊎ ((¬ IsRevenge 7 after_loss.trades opened_row)
        × (revenge_flag 4 7 after_loss ≡ (ok tt, after_loss)))
revenge_flag-IsMarked_example = revenge_flag-IsMarked 4 7 after_loss opened_row refl refl

-- n trades, one second apart.
abbrev opens : ℕ → List (Trade ℤ)
opens zero = []
opens (suc n) =
    record opened_row {
      input = record opened_row.input { trade_id = 100 + n; entry_at = window + n * second };
    }
    ∷ opens n

abbrev late : Time
late = window + 100 * second

-- A window of the same user, recorded before.
abbrev old_event : OvertradingRow
old_event = record { user_id = 7; window_start = 0; window_end = 5; trade_count = 12 }

abbrev busy : Db ℤ
busy = record (with_trades (opens 11)) { overtrading_events = old_event ∷ [] }

overtrading-IsLog_example : IsLog (overtrading 7 late busy).1.overtrading_events
overtrading-IsLog_example =
    overtrading-IsLog 7 late busy (omega arith) ((λ same. omega arith), tt)
      (record { spaced = (tt, tt); crowded = (omega arith, tt) })

abbrev unlucky : Db ℤ
unlucky = record busy { faults = false ∷ false ∷ false ∷ true ∷ [] }

overtrading-retry_example :
    let db' = record unlucky {
      overtrading_events =
          unlucky.overtrading_events ++ new_event 7 late (count_opens 7 late unlucky) ∷ [];
      faults = [];
    } in
    (overtrading 7 late unlucky ≡ (err failed, db')) × (overtrading 7 late db' ≡ (ok none, db'))
overtrading-retry_example = overtrading-retry 7 late unlucky refl (omega arith) refl

upsert_session_tilt-IsTilt_example :
    let db = with_trades (lost_row ∷ sold_row ∷ []) in
    (r : SessionRow) × (find_row
        (λ x. x.session_id == 3)
        (upsert_session_tilt 3 db).1.session_metrics
      ≡ some r)
    × IsTilt 2 1 r
    × ((upsert_session_tilt 3 db).0 ≡ ok tt)
upsert_session_tilt-IsTilt_example =
    upsert_session_tilt-IsTilt 3 7 (with_trades (lost_row ∷ sold_row ∷ [])) refl (refl, (refl, tt))
      (omega arith)

abbrev two_closed : Db ℤ
two_closed = with_trades (lost_row ∷ sold_row ∷ [])

plan_adherence-IsLastTen_example :
    (newest : List (Trade ℤ)) × (stars : List ℕ) × IsLastTen 7 two_closed.trades newest
    × Shows newest stars
    × Averages whole_floats any_numeric 7 stars two_closed
        (plan_adherence whole_floats any_numeric 7 two_closed)
plan_adherence-IsLastTen_example =
    plan_adherence-IsLastTen whole_floats any_numeric 7 two_closed refl
      (inr (4, refl, omega arith, omega arith), (inr (4, refl, omega arith, omega arith), tt))
