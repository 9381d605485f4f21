-- ===== src/Metrics/RevengeFlag/Window.antt =====
-- RevengeFlag of internal/metrics/revenge_flag.go against the definition of a revenge trade.
use trading_platform_backend.Prelude.{
  ◌-◌, ◌*◌, ◌≡◌, refl, Bool, false, ◌&&◌, ◌||◌, not, some, List, [], ◌∷◌, arith, leb, ltb, ◌==◌,
  if◌then◌else◌, str_eq, find_row, any_row, ap, ◌∙◌, none,
}
use trading_platform_backend.Prelude.Order.{insert_by, order_by}
use trading_platform_backend.Database.{Db}
use trading_platform_backend.Database.Exec.{Result, ok, err}
use trading_platform_backend.Trades.Types.{Uuid, Time, second, status_closed, Trade}
use trading_platform_backend.Trades.Repo.{has_id}
use trading_platform_backend.Metrics.RevengeFlag.{
  is_tilted, time_sub, is_loss_outcome, is_losing_close, losing_exits, later_first, first_row,
  check_last_loss, mark_revenge, revenge_flag,
}

abbrev is_recent : Time → Time → Bool
is_recent entry_at x = leb (entry_at - x) (90 * second)

-- A losing close of the user, at most 90 seconds before the entry.
abbrev pub is_recent_loss : {F : Type 0} → Uuid → Time → Trade F → Bool
is_recent_loss user_id entry_at p = elim p.exit_at [
  | none ↦ false
  | some x ↦
      p.user_id == user_id
      && str_eq p.status status_closed
      && is_loss_outcome p.outcome
      && leb x entry_at
      && is_recent entry_at x
]

abbrev first_is_recent : Time → Result Time → Bool
first_is_recent entry_at (ok x) = is_recent entry_at x
first_is_recent entry_at (err e) = false

-- The first row of the sorted insert is the later of the two.
first-insert_by :
    (e x : Time) (ys : List Time)
    → first_is_recent e (first_row (insert_by later_first x ys))
      ≡ (is_recent e x || first_is_recent e (first_row ys))
first-insert_by e x [] = ground arith
first-insert_by e x (y ∷ ys) = ground arith

first-order_by :
    (e : Time) (xs : List Time)
    → first_is_recent e (first_row (order_by later_first xs)) ≡ any_row (is_recent e) xs
first-order_by e [] = refl
first-order_by e (x ∷ xs) =
    first-insert_by e x (order_by later_first xs)
    ∙ ap (λ b. is_recent e x || b) (first-order_by e xs)

not_over_90s : (e x : Time) → ltb (90 * second) (time_sub e x) ≡ not (is_recent e x)
unfolding time_sub
not_over_90s e x = ground arith

module _ {F : Type 0} where
  any-losing_exits :
      (u : Uuid) (e : Time) (ts : List (Trade F))
      → any_row (is_recent e) (losing_exits u e ts) ≡ any_row (is_recent_loss u e) ts
  unfolding losing_exits is_losing_close
  any-losing_exits u e [] = refl
  any-losing_exits u e (p ∷ ps) = ground (arith, any-losing_exits u e ps)

  sorted-check_last_loss :
      (trade_id user_id : Uuid) (entry_at : Time) (db : Db F) (xs : List Time)
      → db.faults ≡ []
      → order_by later_first (losing_exits user_id entry_at db.trades) ≡ xs
      → check_last_loss trade_id user_id entry_at db ≡ (
          if first_is_recent entry_at (first_row xs)
          then mark_revenge trade_id user_id db
          else (ok tt, db))
  unfolding check_last_loss
  sorted-check_last_loss trade_id user_id entry_at db [] calm e = ground arith
  sorted-check_last_loss trade_id user_id entry_at db (x ∷ xs) calm e =
      ground (arith, not_over_90s entry_at x)

  check_last_loss_lem :
      (trade_id user_id : Uuid) (entry_at : Time) (db : Db F)
      → db.faults ≡ []
      → check_last_loss trade_id user_id entry_at db ≡ (
          if any_row (is_recent_loss user_id entry_at) db.trades
          then mark_revenge trade_id user_id db
          else (ok tt, db))
  check_last_loss_lem trade_id user_id entry_at db calm =
      let exits = losing_exits user_id entry_at db.trades in
      rw (← any-losing_exits, ← first-order_by)
        (sorted-check_last_loss trade_id user_id entry_at db (order_by later_first exits) calm refl)

  -- RevengeFlag on a stored trade, with no failing statement, sets the flag and counts exactly where
  -- the trade is anxious or fearful and some trade of the user closed at a loss at most 90 seconds
  -- before its entry; otherwise it succeeds and changes nothing.
  pub revenge_flag-mark_revenge :
      (trade_id user_id : Uuid) (db : Db F) (t : Trade F)
      → db.faults ≡ []
      → find_row (has_id trade_id) db.trades ≡ some t
      → revenge_flag trade_id user_id db ≡ (
          if is_tilted t.emotional_state && any_row (is_recent_loss user_id t.entry_at) db.trades
          then mark_revenge trade_id user_id db
          else (ok tt, db))
  unfolding revenge_flag
  revenge_flag-mark_revenge trade_id user_id db t calm found =
      ground (arith, check_last_loss_lem trade_id user_id t.entry_at db)
