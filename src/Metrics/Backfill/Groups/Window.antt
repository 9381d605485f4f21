-- ===== src/Metrics/Backfill/Groups/Window.antt =====
-- The window of backfillPlanAdherence (internal/metrics/backfill.go) against that of PlanAdherence
-- (internal/metrics/plan_adherence.go).
use trading_platform_backend.Prelude.{
  ◌≡◌, refl, ap, true, Option, none, some, List, [], ◌∷◌, arith, All, take, where_rows, Bool-cases,
  inl, inr,
}
use trading_platform_backend.Prelude.Order.{order_by_same}
use trading_platform_backend.External.Float.{FloatOps}
use trading_platform_backend.External.Postgres.{NumericOps}
use trading_platform_backend.Trades.Types.{Uuid, Time, Trade}
use trading_platform_backend.Trades.Repo.{is_some, satisfies_checks}
use trading_platform_backend.Metrics.PlanAdherence.{
  exits_later, rated_close, exits_first, ratings, last_ten,
}
use trading_platform_backend.Metrics.Backfill.Groups.{
  exits_later_nulls_last, latest_exit_first, last10,
}

orders_agree :
    (a b : Option Time)
    → is_some a ≡ true
    → is_some b ≡ true
    → exits_later_nulls_last a b ≡ exits_later a b
orders_agree none b h k = absurd (cc h)
orders_agree (some a) none h k = absurd (cc k)
orders_agree (some a) (some b) h k = refl

module _ {F : Type 0} where
  abbrev HasExit : Trade F → Type 0
  HasExit t = is_some t.exit_at ≡ true

  module _ (ops : FloatOps F) (numeric : NumericOps F) where
    abbrev pub IsChecked : Trade F → Type 0
    IsChecked t = satisfies_checks ops numeric t ≡ true

    exits_of :
        (id : Uuid) (ts : List (Trade F))
        → All IsChecked ts
        → All HasExit (where_rows (rated_close id) ts)
    unfolding satisfies_checks
    exits_of id [] a = tt
    exits_of id (t ∷ ts) a = elim (Bool-cases (rated_close id t)) [
      | inl h ↦ rw h (ground (arith, a.0), exits_of id ts a.1)
      | inr h ↦ rw h (exits_of id ts a.1)
    ]

    -- The window of the backfill is that of the worker: a closed trade has an exit.
    pub last10-last_ten :
        (id : Uuid) (ts : List (Trade F)) → All IsChecked ts → last10 id ts ≡ last_ten id ts
    unfolding last10 last_ten
    last10-last_ten id ts a =
        ap (λ rows. ratings (take 10 rows))
          (order_by_same HasExit latest_exit_first exits_first
            (λ t u h k. orders_agree t.exit_at u.exit_at h k) (where_rows (rated_close id) ts)
            (exits_of id ts a))
