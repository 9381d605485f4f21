-- ===== src/Metrics/Overtrading/Retry.antt =====
-- A retry of Overtrading (internal/metrics/overtrading.go) after its second write failed.
use trading_platform_backend.Prelude.{
  ℕ, ◌-◌, ◌<◌, ◌≡◌, refl, true, false, List, [], ◌∷◌, ◌++◌, none, arith, count_rows,
}
use trading_platform_backend.Database.{Db, OvertradingRow}
use trading_platform_backend.Database.Exec.{failed, ok, err}
use trading_platform_backend.Trades.Types.{Uuid, Time}
use trading_platform_backend.Metrics.Repo.{add_overtrading_event, increment_overtrading_count}
use trading_platform_backend.Metrics.Overtrading.{
  window, ended_within, count_opens, count_existing, overtrading,
}
use trading_platform_backend.Metrics.Overtrading.Spacing.{new_event}

count-append_hit :
    (u : Uuid) (at : Time) (n : ℕ) (rs : List OvertradingRow)
    → 0 < count_rows (ended_within u (at - window) at) (rs ++ new_event u at n ∷ [])
count-append_hit u at n [] = ground arith
count-append_hit u at n (r ∷ rs) = ground (arith, count-append_hit u at n rs)

module _ {F : Type 0} (user_id : Uuid) (entry_at : Time) where
  known_event :
      (db : Db F)
      → db.faults ≡ []
      → 10 < count_opens user_id entry_at db
      → 0 < count_existing user_id entry_at db
      → overtrading user_id entry_at db ≡ (ok none, db)
  unfolding overtrading
  known_event db calm many known = ground arith

  broken_off :
      (db : Db F)
      → db.faults ≡ (false ∷ false ∷ false ∷ true ∷ [])
      → 10 < count_opens user_id entry_at db
      → count_existing user_id entry_at db ≡ 0
      → overtrading user_id entry_at db ≡ (
        err failed,
        record db {
          overtrading_events =
              db.overtrading_events
              ++ new_event user_id entry_at (count_opens user_id entry_at db) ∷ [];
          faults = [];
        },
      )
  unfolding overtrading add_overtrading_event increment_overtrading_count
  broken_off db faults many fresh = ground arith

  -- Where the event of a new window is stored and the statement behind it, the counter's increment,
  -- fails, the call fails; its retry finds the event, succeeds and changes nothing. So the user's
  -- overtrading_events_count never counts this event.
  pub overtrading-retry :
      (db : Db F)
      → db.faults ≡ (false ∷ false ∷ false ∷ true ∷ [])
      → 10 < count_opens user_id entry_at db
      → count_existing user_id entry_at db ≡ 0
      → let db' = record db {
        overtrading_events =
            db.overtrading_events
            ++ new_event user_id entry_at (count_opens user_id entry_at db) ∷ [];
        faults = [];
      } in
        (overtrading user_id entry_at db ≡ (err failed, db'))
        × (overtrading user_id entry_at db' ≡ (ok none, db'))
  overtrading-retry db faults many fresh = (
    broken_off db faults many fresh,
    known_event
        (record db {
          overtrading_events =
              db.overtrading_events
              ++ new_event user_id entry_at (count_opens user_id entry_at db) ∷ [];
          faults = [];
        })
        refl many
        (count-append_hit user_id entry_at (count_opens user_id entry_at db) db.overtrading_events),
  )
