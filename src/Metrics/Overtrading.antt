-- ===== src/Metrics/Overtrading.antt =====
-- internal/metrics/overtrading.go.
pub mod Spacing
pub mod Retry
pub mod OwnTrade
use trading_platform_backend.Prelude.{
  ℕ, ◌-◌, ◌*◌, Bool, ◌&&◌, Option, none, some, leb, ltb, ◌==◌, if◌then◌else◌, count_rows,
}
use trading_platform_backend.Database.{Db, OvertradingRow}
use trading_platform_backend.Database.Exec.{ok, Exec, statement, pure, ◌>>=◌, ◌>>◌}
use trading_platform_backend.Trades.Types.{Uuid, Time, minute, Trade}
use trading_platform_backend.Metrics.Repo.{add_overtrading_event, increment_overtrading_count}

abbrev pub window : ℕ
window = 30 * minute

-- entry_at >= $2 AND entry_at <= $3
abbrev pub opened_within : {F : Type 0} → Uuid → Time → Time → Trade F → Bool
opened_within user_id window_start entry_at t =
    t.user_id == user_id && leb window_start t.entry_at && leb t.entry_at entry_at

-- window_end >= $2 AND window_end <= $3
abbrev pub ended_within : Uuid → Time → Time → OvertradingRow → Bool
ended_within user_id window_start entry_at r =
    r.user_id == user_id && leb window_start r.window_end && leb r.window_end entry_at

module _ {F : Type 0} where
  abbrev pub count_opens : Uuid → Time → Db F → ℕ
  count_opens user_id entry_at db =
      count_rows (opened_within user_id (entry_at - window) entry_at) db.trades

  abbrev pub count_existing : Uuid → Time → Db F → ℕ
  count_existing user_id entry_at db =
      count_rows (ended_within user_id (entry_at - window) entry_at) db.overtrading_events

  -- the two writes; the result is the window that is handed to the publisher
  abbrev pub record_event : Uuid → Time → ℕ → Exec F (Option OvertradingRow)
  record_event user_id entry_at count = do
    add_overtrading_event user_id (entry_at - window) entry_at count
    increment_overtrading_count user_id
    pure (
        some (record {
          user_id = user_id;
          window_start = entry_at - window;
          window_end = entry_at;
          trade_count = count;
        }))

  abbrev pub record_unless_known : Uuid → Time → ℕ → Exec F (Option OvertradingRow)
  record_unless_known user_id entry_at count = do
    existing ← statement (λ db. (ok (count_existing user_id entry_at db), db))
    if ltb 0 existing then pure none else record_event user_id entry_at count

  -- Overtrading. The publisher, whose error is dropped, is called last and on `some` only: the caller
  -- makes the call.
  unfoldable pub overtrading : Uuid → Time → Exec F (Option OvertradingRow)
  overtrading user_id entry_at = do
    count ← statement (λ db. (ok (count_opens user_id entry_at db), db))
    if leb count 10 then pure none else record_unless_known user_id entry_at count
