-- ===== src/Metrics/WinRate.antt =====
-- internal/metrics/win_rate.go.
pub mod Counts
use trading_platform_backend.Prelude.{String, Option, none, some, str_eq}
use trading_platform_backend.Database.Exec.{Exec, pure, ◌>>=◌}
use trading_platform_backend.Trades.Types.{Uuid, outcome_win, Trade}
use trading_platform_backend.Metrics.RevengeFlag.{load_trade}
use trading_platform_backend.Metrics.Repo.{upsert_emotion_stat}

module _ {F : Type 0} where
  -- emo == nil || outcome == nil ends the work
  abbrev pub count_outcome : Uuid → Option String → Option String → Exec F (Unit {0})
  count_outcome user_id none outcome = pure tt
  count_outcome user_id (some emo) none = pure tt
  count_outcome user_id (some emo) (some outcome) =
      upsert_emotion_stat user_id emo (str_eq outcome outcome_win)

  -- WinRateByEmotion; its SELECT reads one row by trade_id, as that of RevengeFlag does
  unfoldable pub win_rate_by_emotion : Uuid → Uuid → Exec F (Unit {0})
  win_rate_by_emotion trade_id user_id = do
    t ← load_trade trade_id
    count_outcome user_id t.emotional_state t.outcome
