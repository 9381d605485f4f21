-- ===== src/Trades/Repo.antt =====
-- internal/trades/repo.go: the statements on the trades table.
pub mod Outcome
pub mod Idempotence
pub mod Refinement
use Prim.Native.String.{count}
use trading_platform_backend.Prelude.{
  String, Bool, true, false, not, ◌&&◌, ◌||◌, Option, none, some, [], ◌∷◌, ◌++◌, leb, ◌==◌,
  if◌then◌else◌, str_eq, find_row, update_rows,
}
use trading_platform_backend.Prelude.Int.{pos}
use trading_platform_backend.External.Float.{FloatOps}
use trading_platform_backend.External.Postgres.{NumericOps}
use trading_platform_backend.Database.Exec.{
  Error, no_rows, not_found, failed, Result, ok, err, Exec, statement, pure, ◌>>=◌,
}
use trading_platform_backend.Trades.Types.{
  Uuid, Time, dir_short, status_closed, outcome_win, outcome_loss, TradeInput, Trade,
}
use trading_platform_backend.Trades.Validate.{
  known_asset_class, known_direction, known_status, bad_plan_adherence, bad_emotion,
}

-- what derive returns beside its placeholder: pnl and outcome
pub record Derived (F : Type 0) : Type 0 where
  pub pnl : Option F
  pub outcome : Option String

module _ {F : Type 0} (ops : FloatOps F) where
  open ops use {neg, add, sub, mul, div, less, of_int, half, trunc}

  unfoldable pub signf : F → F
  signf f = if less f (of_int (pos 0)) then neg (of_int (pos 1)) else of_int (pos 1)

  -- const scale = 1e8
  unfoldable pub round8 : F → F
  round8 f =
      let scale : F = of_int (pos 100000000) in
      div (trunc (add (mul f scale) (mul half (signf f)))) scale

  -- delta, negated for a short position
  unfoldable pub signed_delta : TradeInput F → F → F
  signed_delta i exit_price =
      let delta : F = sub exit_price i.entry_price in
      if str_eq i.direction dir_short then neg delta else delta

  derive_closed : TradeInput F → F → Derived F
  derive_closed i exit_price =
      let p : F = round8 (mul (signed_delta i exit_price) i.quantity) in
      record {
        pnl = some p;
        outcome = some (if less p (of_int (pos 0)) then outcome_loss else outcome_win);
      }

  derive_at : TradeInput F → Option F → Derived F
  unfolding derive_closed
  derive_at i none = record { pnl = none; outcome = none }
  derive_at i (some exit_price) = derive_closed i exit_price

  unfoldable pub derive : TradeInput F → Derived F
  unfolding derive_at
  derive i =
      if str_eq i.status status_closed
      then derive_at i i.exit_price
      else record { pnl = none; outcome = none }

abbrev pub is_some : {A : Type 0} → Option A → Bool
is_some none = false
is_some (some a) = true

abbrev rationale_fits : Option String → Bool
rationale_fits none = true
rationale_fits (some s) = leb (count s) 500

module _ {F : Type 0} where
  abbrev pub has_id : Uuid → Trade F → Bool
  has_id id t = t.trade_id == id

  abbrev append_unless_present : Option (Trade F) → Trade F → Exec F (Trade F)
  append_unless_present (some old) t db = (err no_rows, db)
  append_unless_present none t db = (ok t, record db { trades = db.trades ++ t ∷ [] })

  abbrev row_or_missing : Option (Trade F) → Result (Trade F)
  row_or_missing none = err not_found
  row_or_missing (some t) = ok t

  -- Get: SELECT ... WHERE trade_id = $1
  unfoldable pub get : Uuid → Exec F (Trade F)
  get id = statement (λ db. (row_or_missing (find_row (has_id id) db.trades), db))

  -- SetRevengeFlag; the trigger of the table sets updated_at
  unfoldable pub set_revenge_flag : Uuid → Bool → Exec F (Unit {0})
  set_revenge_flag id flag = statement λ db. (
    ok tt,
    record db {
      trades =
          update_rows (has_id id) (λ t. record t { revenge_flag = flag; updated_at = db.now })
            db.trades;
    },
  )

module _ {F : Type 0} (ops : FloatOps F) (numeric : NumericOps F) where
  open ops use {less, of_int}
  open numeric use {numeric_18_8}

  -- A NULL stays NULL.
  abbrev pub nullable_18_8 : Option F → Option (Option F)
  nullable_18_8 none = some none
  nullable_18_8 (some x) = elim (numeric_18_8 x) [ none ↦ none | some y ↦ some (some y) ]

  -- The row that the VALUES list describes, with the defaults of the table; none where a float
  -- does not fit its column.
  unfoldable pub row_of : TradeInput F → Derived F → Time → Option (Trade F)
  row_of i d now = elim (numeric_18_8 i.entry_price) [
    | none ↦ none
    | some entry_price ↦ elim (nullable_18_8 i.exit_price) [
      | none ↦ none
      | some exit_price ↦ elim (numeric_18_8 i.quantity) [
        | none ↦ none
        | some quantity ↦ elim (nullable_18_8 d.pnl) [
          | none ↦ none
          | some pnl ↦ some (record {
            input = record i {
              entry_price = entry_price;
              exit_price = exit_price;
              quantity = quantity;
            };
            outcome = d.outcome;
            pnl = pnl;
            revenge_flag = false;
            created_at = now;
            updated_at = now;
          })
        ]
      ]
    ]
  ]

  -- The enum types and the CHECK clauses of 0001_init.up.sql.
  unfoldable pub satisfies_checks : Trade F → Bool
  satisfies_checks t =
      known_asset_class t.asset_class
      && known_direction t.direction
      && known_status t.status
      && not (bad_emotion t.emotional_state)
      && not (bad_plan_adherence t.plan_adherence)
      && less (of_int (pos 0)) t.entry_price
      && less (of_int (pos 0)) t.quantity
      && rationale_fits t.entry_rationale
      && (not (str_eq t.status status_closed) || (is_some t.exit_at && is_some t.exit_price))

  abbrev checked_insert : Option (Trade F) → Exec F (Trade F)
  checked_insert none db = (err failed, db)
  checked_insert (some t) db =
      if satisfies_checks t
      then append_unless_present (find_row (has_id t.trade_id) db.trades) t db
      else (err failed, db)

  -- INSERT ... ON CONFLICT (trade_id) DO NOTHING RETURNING ...
  abbrev pub insert_statement : TradeInput F → Exec F (Trade F)
  insert_statement i = statement (λ db. checked_insert (row_of i (derive ops i) db.now) db)

  -- the two ways on from the INSERT: the new row, or the row that was there
  abbrev finish_insert : Uuid → Result (Trade F) → Exec F (Trade F × Bool)
  finish_insert id (ok t) db = (ok (t, true), db)
  finish_insert id (err no_rows) db = (get id >>= λ got. pure (got, false)) db
  finish_insert id (err not_found) db = (err failed, db)
  finish_insert id (err failed) db = (err failed, db)

  -- Insert: the row of this trade_id, and whether it is new.
  unfoldable pub insert : TradeInput F → Exec F (Trade F × Bool)
  insert i db = let (r, db') = insert_statement i db in finish_insert i.trade_id r db'
