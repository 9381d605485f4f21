-- ===== src/Metrics/PlanAdherence/Count.antt =====
-- How many trades internal/metrics/plan_adherence.go averages.
use trading_platform_backend.Prelude.{
  ℕ, zero, suc, ◌≡◌, refl, true, false, List, [], ◌∷◌, arith, min, All, length, take, where_rows,
  count_rows, Bool-cases, inl, inr,
}
use trading_platform_backend.Prelude.Order.{order_by, All-order_by, length-order_by}
use trading_platform_backend.Trades.Types.{Uuid, Trade}
use trading_platform_backend.Trades.Validate.{bad_plan_adherence}
use trading_platform_backend.Metrics.PlanAdherence.{
  is_rated, rated_close, exits_first, ratings, last_ten,
}

abbrev IsRated : {F : Type 0} → Trade F → Type 0
IsRated t = (is_rated t.plan_adherence ≡ true) × (bad_plan_adherence t.plan_adherence ≡ false)

module _ {F : Type 0} where
  All-take : (P : Trade F → Type 0) (n : ℕ) (ts : List (Trade F)) → All P ts → All P (take n ts)
  All-take P zero ts a = tt
  All-take P (suc n) [] a = tt
  All-take P (suc n) (t ∷ ts) a = (a.0, All-take P n ts a.1)

  length-take : (n : ℕ) (ts : List (Trade F)) → length (take n ts) ≡ min n (length ts)
  length-take zero ts = omega arith
  length-take (suc n) [] = omega arith
  length-take (suc n) (t ∷ ts) = omega (arith, length-take n ts)

  length-ratings : (ts : List (Trade F)) → All IsRated ts → length (ratings ts) ≡ length ts
  length-ratings [] a = refl
  length-ratings (t ∷ ts) a = ground (arith, length-ratings ts)

  All-where_rows :
      (u : Uuid) (ts : List (Trade F))
      → All (λ t. bad_plan_adherence t.plan_adherence ≡ false) ts
      → All IsRated (where_rows (rated_close u) ts)
  All-where_rows u [] a = tt
  All-where_rows u (t ∷ ts) a = elim (Bool-cases (rated_close u t)) [
    | inl h ↦ rw h ((ground arith, a.0), All-where_rows u ts a.1)
    | inr h ↦ rw h (All-where_rows u ts a.1)
  ]

  module _ (u : Uuid) (ts : List (Trade F))
      (checked : All (λ t. bad_plan_adherence t.plan_adherence ≡ false) ts) where
    newest : All IsRated (take 10 (order_by exits_first (where_rows (rated_close u) ts)))
    newest = All-take IsRated 10 (order_by exits_first (where_rows (rated_close u) ts)) (
        All-order_by exits_first IsRated (where_rows (rated_close u) ts)
          (All-where_rows u ts checked))

    pub length-last_ten : length (last_ten u ts) ≡ min 10 (count_rows (rated_close u) ts)
    unfolding last_ten
    length-last_ten = omega (
      arith,
      length-ratings (take 10 (order_by exits_first (where_rows (rated_close u) ts))) newest,
      length-take 10 (order_by exits_first (where_rows (rated_close u) ts)),
      length-order_by exits_first (where_rows (rated_close u) ts),
    )
