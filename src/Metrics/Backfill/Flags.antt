-- ===== src/Metrics/Backfill/Flags.antt =====
-- internal/metrics/backfill.go: backfillRevengeFlag and HasSnapshots.
pub mod Revenge
pub mod Users
use trading_platform_backend.Prelude.{
  ℕ, ◌-◌, ◌*◌, ◌≡◌, Bool, true, false, not, ◌&&◌, Option, none, some, List, [], ◌∷◌, ltb, leb, ◌==◌,
  if◌then◌else◌, str_eq, update_rows, upsert_rows, count_rows, length,
}
use trading_platform_backend.Prelude.Groups.{group_keys}
use trading_platform_backend.Database.{UserMetricsRow, Db}
use trading_platform_backend.Database.Exec.{ok, Exec, statement, ◌>>◌}
use trading_platform_backend.Trades.Types.{Uuid, Time, second, status_closed, Trade}
use trading_platform_backend.Metrics.Repo.{of_user, new_user_row}
use trading_platform_backend.Metrics.RevengeFlag.{is_tilted, is_loss_outcome}

-- MAX: NULL where there is no row
unfoldable pub latest : List Time → Option Time
latest [] = none
latest (x ∷ xs) = elim (latest xs) [ none ↦ some x | some y ↦ if ltb y x then some x else some y ]

-- INSERT ... SELECT ... GROUP BY user_id into user_metrics: `new` is the row that VALUES describes and
-- `set` what DO UPDATE makes of the row that is there, for each user of the groups
module _ {F : Type 0} (new : Uuid → UserMetricsRow F)
    (set : Uuid → UserMetricsRow F → UserMetricsRow F) where
  abbrev pub upsert_users : List Uuid → List (UserMetricsRow F) → List (UserMetricsRow F)
  upsert_users [] rows = rows
  upsert_users (id ∷ ids) rows = upsert_users ids (upsert_rows (of_user id) (new id) (set id) rows)

module _ {F : Type 0} where
  -- GROUP BY user_id; the groups come in the order of the ids
  abbrev pub user_ids : List (Trade F) → List Uuid
  user_ids ts = group_keys (λ (t : Trade F). t.user_id) ts

  -- the WHERE clause of the inner query on a row p whose exit_at is not null
  abbrev pub is_earlier_loss : Trade F → Trade F → Time → Bool
  is_earlier_loss t p exit_at =
      p.user_id == t.user_id
      && str_eq p.status status_closed
      && is_loss_outcome p.outcome
      && leb exit_at t.entry_at
      && not (p.trade_id == t.trade_id)

  abbrev pub earlier_losses : Trade F → List (Trade F) → List Time
  earlier_losses t [] = []
  earlier_losses t (p ∷ ps) =
      let rest = earlier_losses t ps in
      elim p.exit_at [ none ↦ rest | some x ↦ if is_earlier_loss t p x then x ∷ rest else rest ]

  abbrev pub follows_closely : Trade F → Option Time → Bool
  follows_closely t none = false
  follows_closely t (some x) = leb (t.entry_at - x) (90 * second)

  -- the WHERE clause of the UPDATE: trade_id is the primary key, so a row is joined with itself
  unfoldable pub matches_last_loss : List (Trade F) → Trade F → Bool
  matches_last_loss ts t =
      follows_closely t (latest (earlier_losses t ts)) && is_tilted t.emotional_state

  abbrev pub is_flagged : Uuid → Trade F → Bool
  is_flagged id t = t.user_id == id && t.revenge_flag

  -- SET revenge_flag, and the trigger trades_set_updated_at
  abbrev pub with_flag : Bool → Time → Trade F → Trade F
  with_flag flag now t = record t { revenge_flag = flag; updated_at = now }

  -- the reset of all flags
  unfoldable pub reset_flags : Time → List (Trade F) → List (Trade F)
  reset_flags now ts = update_rows (λ t. true) (with_flag false now) ts

  -- the UPDATE of the matching trades
  unfoldable pub flag_matching : Time → List (Trade F) → List (Trade F)
  flag_matching now ts = update_rows (matches_last_loss ts) (with_flag true now) ts

  -- the count per user, upserted
  unfoldable pub store_counts :
      Time → List (Trade F) → List (UserMetricsRow F) → List (UserMetricsRow F)
  store_counts now ts rows =
      upsert_users
        (λ id. record (new_user_row id now) {
          revenge_trades_count = count_rows (is_flagged id) ts;
        })
        (λ id r. record r {
          revenge_trades_count = count_rows (is_flagged id) ts;
          updated_at = now;
        })
        (user_ids ts) rows

  -- backfillRevengeFlag
  unfoldable pub backfill_revenge_flag : Exec F (Unit {0})
  backfill_revenge_flag = do
    statement (λ db. (ok tt, record db { trades = reset_flags db.now db.trades }))
    statement (λ db. (ok tt, record db { trades = flag_matching db.now db.trades }))
    statement
        λ db. (ok tt, record db { user_metrics = store_counts db.now db.trades db.user_metrics })

  -- HasSnapshots
  unfoldable pub has_snapshots : Exec F Bool
  has_snapshots = statement (λ db. (ok (ltb 0 (length db.user_metrics)), db))
