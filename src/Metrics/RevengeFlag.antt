-- ===== src/Metrics/RevengeFlag.antt =====
-- internal/metrics/revenge_flag.go.
pub mod Window
pub mod Marked
use trading_platform_backend.Prelude.{
  ℕ, ◌-◌, ◌*◌, ◌^◌, String, Bool, true, false, ◌&&◌, ◌||◌, Option, none, some, List, [], ◌∷◌, leb,
  ltb, ◌==◌, if◌then◌else◌, str_eq, find_row, min,
}
use trading_platform_backend.Prelude.Order.{order_by}
use trading_platform_backend.Database.Exec.{
  no_rows, not_found, failed, Result, ok, err, Exec, statement, pure, raise, ◌>>=◌, ◌>>◌,
}
use trading_platform_backend.Trades.Types.{
  Uuid, Time, second, status_closed, outcome_loss, emo_anxious, emo_fearful, Trade,
}
use trading_platform_backend.Trades.Repo.{has_id, set_revenge_flag}
use trading_platform_backend.Metrics.Repo.{increment_revenge_count}

-- *emo == "anxious" || *emo == "fearful", for an emotion that is there
unfoldable pub is_tilted : Option String → Bool
is_tilted none = false
is_tilted (some emo) = str_eq emo emo_anxious || str_eq emo emo_fearful

-- A time.Duration is an int64 of nanoseconds, and Sub stops at its ends. In microseconds, and for
-- a later time minus an earlier one, which is how it is called.
abbrev pub max_duration : ℕ
max_duration = 9223372036854775

unfoldable pub time_sub : Time → Time → ℕ
time_sub a b = min (a - b) max_duration

unfoldable pub is_loss_outcome : Option String → Bool
is_loss_outcome none = false
is_loss_outcome (some o) = str_eq o outcome_loss

abbrev pub later_first : Time → Time → Bool
later_first a b = ltb b a

abbrev pub first_row : List Time → Result Time
first_row [] = err no_rows
first_row (x ∷ xs) = ok x

module _ {F : Type 0} where
  -- The WHERE clause on a row whose exit_at is not null.
  unfoldable pub is_losing_close : Uuid → Time → Trade F → Time → Bool
  is_losing_close user_id entry_at p exit_at =
      p.user_id == user_id
      && str_eq p.status status_closed
      && is_loss_outcome p.outcome
      && leb exit_at entry_at

  -- The exit times that the WHERE clause selects.
  unfoldable pub losing_exits : Uuid → Time → List (Trade F) → List Time
  losing_exits user_id entry_at [] = []
  losing_exits user_id entry_at (p ∷ ps) =
      let rest = losing_exits user_id entry_at ps in
      elim p.exit_at [
        | none ↦ rest
        | some x ↦ if is_losing_close user_id entry_at p x then x ∷ rest else rest
      ]

  -- SELECT exit_at ... ORDER BY exit_at DESC LIMIT 1
  abbrev pub last_losing_exit : Uuid → Time → Exec F Time
  last_losing_exit user_id entry_at =
      statement
        λ db. (first_row (order_by later_first (losing_exits user_id entry_at db.trades)), db)

  abbrev pub row_or_no_rows : Option (Trade F) → Result (Trade F)
  row_or_no_rows none = err no_rows
  row_or_no_rows (some t) = ok t

  -- SELECT entry_at, emotional_state FROM trades WHERE trade_id = $1
  abbrev pub load_trade : Uuid → Exec F (Trade F)
  load_trade id = statement (λ db. (row_or_no_rows (find_row (has_id id) db.trades), db))

  -- tradeRepoSetFlag, then IncrementRevengeCount
  unfoldable pub mark_revenge : Uuid → Uuid → Exec F (Unit {0})
  mark_revenge trade_id user_id = do set_revenge_flag trade_id true; increment_revenge_count user_id

  -- After the query of the last loss: an empty result ends the work without an error.
  abbrev pub flag_if_recent : Uuid → Uuid → Time → Result Time → Exec F (Unit {0})
  flag_if_recent trade_id user_id entry_at (err no_rows) = pure tt
  flag_if_recent trade_id user_id entry_at (err not_found) = raise failed
  flag_if_recent trade_id user_id entry_at (err failed) = raise failed
  flag_if_recent trade_id user_id entry_at (ok exit_at) =
      if ltb (90 * second) (time_sub entry_at exit_at)
      then pure tt
      else mark_revenge trade_id user_id

  unfoldable pub check_last_loss : Uuid → Uuid → Time → Exec F (Unit {0})
  check_last_loss trade_id user_id entry_at db =
      let (r, db') = last_losing_exit user_id entry_at db in
      flag_if_recent trade_id user_id entry_at r db'

  -- RevengeFlag
  unfoldable pub revenge_flag : Uuid → Uuid → Exec F (Unit {0})
  revenge_flag trade_id user_id = do
    t ← load_trade trade_id
    if is_tilted t.emotional_state then check_last_loss trade_id user_id t.entry_at else pure tt
