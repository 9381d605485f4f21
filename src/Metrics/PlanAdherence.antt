-- ===== src/Metrics/PlanAdherence.antt =====
-- internal/metrics/plan_adherence.go.
pub mod Count
pub mod LastTen
pub mod Stored
pub mod Frame
use trading_platform_backend.Prelude.{
  ℕ, ◌+◌, Bool, true, false, ◌&&◌, Option, none, some, List, [], ◌∷◌, ltb, ◌==◌, if◌then◌else◌,
  str_eq, where_rows, take,
}
use trading_platform_backend.Prelude.Int.{ℤ, pos, ◌+ℤ◌}
use trading_platform_backend.Prelude.Order.{order_by}
use trading_platform_backend.External.Float.{FloatOps}
use trading_platform_backend.External.Postgres.{NumericOps}
use trading_platform_backend.Database.Exec.{ok, Exec, statement, pure, ◌>>=◌}
use trading_platform_backend.Trades.Types.{Uuid, Time, status_closed, Trade}
use trading_platform_backend.Metrics.Repo.{set_plan_adherence_score}

-- ORDER BY exit_at DESC, where Postgres puts NULL first
abbrev pub exits_later : Option Time → Option Time → Bool
exits_later none none = false
exits_later none (some b) = true
exits_later (some a) none = false
exits_later (some a) (some b) = ltb b a

abbrev pub is_rated : Option ℤ → Bool
is_rated none = false
is_rated (some p) = true

-- `sum += v; count++` over the rows
abbrev pub tally : ℤ → ℕ → List ℤ → ℤ × ℕ
tally sum count [] = (sum, count)
tally sum count (v ∷ vs) = tally (sum +ℤ v) (count + 1) vs

module _ {F : Type 0} where
  -- the WHERE clause
  abbrev pub rated_close : Uuid → Trade F → Bool
  rated_close user_id t =
      t.user_id == user_id && str_eq t.status status_closed && is_rated t.plan_adherence

  abbrev pub exits_first : Trade F → Trade F → Bool
  exits_first t u = exits_later t.exit_at u.exit_at

  -- the selected column
  abbrev pub ratings : List (Trade F) → List ℤ
  ratings [] = []
  ratings (t ∷ ts) = elim t.plan_adherence [ none ↦ ratings ts | some p ↦ p ∷ ratings ts ]

  unfoldable pub last_ten : Uuid → List (Trade F) → List ℤ
  last_ten user_id ts =
      ratings (take 10 (order_by exits_first (where_rows (rated_close user_id) ts)))

module _ {F : Type 0} (ops : FloatOps F) (numeric : NumericOps F) where
  abbrev pub store_average : Uuid → ℤ × ℕ → Exec F (Unit {0})
  store_average user_id (sum, count) =
      if count == 0
      then pure tt
      else set_plan_adherence_score numeric user_id
          (ops.div (ops.of_int sum) (ops.of_int (pos count))) count

  -- PlanAdherence
  unfoldable pub plan_adherence : Uuid → Exec F (Unit {0})
  plan_adherence user_id = do
    rows ← statement (λ db. (ok (last_ten user_id db.trades), db))
    store_average user_id (tally (pos 0) 0 rows)
