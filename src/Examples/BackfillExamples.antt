-- ===== src/Examples/BackfillExamples.antt =====
-- Concrete instances of the theorems on the backfill.
use trading_platform_backend.Prelude.{◌≡◌, refl, true, List, [], ◌∷◌, ◌++◌}
use trading_platform_backend.Prelude.Int.{ℤ}
use trading_platform_backend.Database.{Db}
use trading_platform_backend.Database.Exec.{ok}
use trading_platform_backend.Trades.Repo.{satisfies_checks}
use trading_platform_backend.Trades.Validate.{
  known_asset_class, known_direction, known_status, bad_emotion,
}
use trading_platform_backend.Metrics.Backfill.Flags.{backfill_revenge_flag}
use trading_platform_backend.Metrics.Backfill.Flags.Revenge.{
  IsFlagged, backfill_revenge_flag-IsFlagged,
}
use trading_platform_backend.Metrics.Backfill.Sessions.{backfill_session_tilt}
use trading_platform_backend.Metrics.Backfill.Sessions.Agreement.{
  IsTiltBackfill, backfill_session_tilt-IsTiltBackfill,
}
use trading_platform_backend.Metrics.Backfill.Events.{backfill_overtrading}
use trading_platform_backend.Metrics.Backfill.Events.Rebuilt.{
  IsRebuild, backfill_overtrading-IsRebuild,
}
use trading_platform_backend.Metrics.Backfill.Groups.{backfill_win_rate, backfill_plan_adherence}
use trading_platform_backend.Metrics.Backfill.Groups.Scored.{
  IsScoreBackfill, backfill_plan_adherence-IsScoreBackfill,
}
use trading_platform_backend.Metrics.Backfill.Groups.OneByOne.{
  one_by_one, closes_of, one_by_one-backfill,
}
use trading_platform_backend.Metrics.WinRate.Counts.{stat}
use trading_platform_backend.Trades.Types.{emo_calm, outcome_win, outcome_loss, Trade}
use trading_platform_backend.Examples.{
  whole_floats, any_numeric, sold_row, lost_row, opened_row, with_trades,
}

-- A loss of user 7, and a trade opened 60 seconds after it.
abbrev seeded : Db ℤ
seeded = with_trades (lost_row ∷ opened_row ∷ sold_row ∷ [])

backfill_revenge_flag-IsFlagged_example :
    ((backfill_revenge_flag seeded).0 ≡ ok tt) × IsFlagged seeded (backfill_revenge_flag seeded).1
backfill_revenge_flag-IsFlagged_example = backfill_revenge_flag-IsFlagged seeded refl

backfill_session_tilt-IsTiltBackfill_example : IsTiltBackfill seeded (backfill_session_tilt seeded)
backfill_session_tilt-IsTiltBackfill_example = backfill_session_tilt-IsTiltBackfill seeded refl

backfill_overtrading-IsRebuild_example :
    IsRebuild
      (λ ids. ids)
      (λ ids. ids)
      (record seeded { faults = true ∷ [] })
      (backfill_overtrading (λ ids. ids) (λ ids. ids) (record seeded { faults = true ∷ [] }))
backfill_overtrading-IsRebuild_example =
    backfill_overtrading-IsRebuild (λ ids. ids) (λ ids. ids) (record seeded { faults = true ∷ [] })

-- A win and a loss of user 7, closed calmly after the backfill.
abbrev closed_later : List (Trade ℤ)
closed_later =
    record sold_row { input = record sold_row.input { trade_id = 5 } }
    ∷ record lost_row { input = record lost_row.input { trade_id = 6 } }
    ∷ []

one_by_one-backfill_example :
    (stat 7 emo_calm (one_by_one closed_later (backfill_win_rate seeded).1).emotion_metrics
      ≡ stat 7 emo_calm
          (backfill_win_rate
            (record seeded { trades = seeded.trades ++ closed_later })).1.emotion_metrics)
    × (stat 7 emo_calm (one_by_one closed_later (backfill_win_rate seeded).1).emotion_metrics ≡ (
      closes_of 7 emo_calm outcome_win (seeded.trades ++ closed_later),
      closes_of 7 emo_calm outcome_loss (seeded.trades ++ closed_later),
    ))
one_by_one-backfill_example =
    one_by_one-backfill closed_later seeded refl refl (refl, refl, refl, (refl, refl, refl, tt)) 7
      emo_calm

backfill_plan_adherence-IsScoreBackfill_example :
    IsScoreBackfill whole_floats any_numeric seeded (backfill_plan_adherence any_numeric seeded)
unfolding satisfies_checks known_asset_class known_direction known_status bad_emotion
backfill_plan_adherence-IsScoreBackfill_example =
    backfill_plan_adherence-IsScoreBackfill whole_floats any_numeric seeded refl
      (refl, (refl, (refl, tt)))
