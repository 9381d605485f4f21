-- ===== src/Trades/Repo/Outcome.antt =====
-- derive of internal/trades/repo.go: profit and outcome.
use trading_platform_backend.Prelude.{
  String, ◌≡◌, ◌≢◌, ◌↔◌, ◌⊎◌, inl, inr, true, false, Option, none, some, arith, eq_iff,
  if◌then◌else◌,
}
use mathlib.Core.Option
use trading_platform_backend.Prelude.Int.{pos}
use trading_platform_backend.External.Float.{FloatOps}
use trading_platform_backend.Trades.Types.{
  dir_long, dir_short, status_closed, outcome_win, outcome_loss, TradeInput,
}
use trading_platform_backend.Trades.Repo.{signf, round8, signed_delta, derive}

-- Rounding of float64 does not depend on the sign (IEEE 754, round to nearest; int64 truncates),
-- where 0 and -0 are one value of F.
pub record IsSymmetric {F : Type 0} (ops : FloatOps F) : Type 0 where
  pub neg-neg : (x : F) → ops.neg (ops.neg x) ≡ x
  pub mul-neg_left : (x y : F) → ops.mul (ops.neg x) y ≡ ops.neg (ops.mul x y)
  pub mul-neg_right : (x y : F) → ops.mul x (ops.neg y) ≡ ops.neg (ops.mul x y)
  pub add-neg : (x y : F) → ops.add (ops.neg x) (ops.neg y) ≡ ops.neg (ops.add x y)
  pub div-neg : (x y : F) → ops.div (ops.neg x) y ≡ ops.neg (ops.div x y)
  pub trunc-neg : (x : F) → ops.trunc (ops.neg x) ≡ ops.neg (ops.trunc x)
  pub less-neg :
      (x : F) → ops.less (ops.neg x) (ops.of_int (pos 0)) ≡ ops.less (ops.of_int (pos 0)) x
  pub less_asymm :
      (x : F) → ops.less (ops.of_int (pos 0)) x ≡ true → ops.less x (ops.of_int (pos 0)) ≡ false

module _ {F : Type 0} (ops : FloatOps F) where
  open ops use {neg, add, sub, mul, less, of_int, half, trunc}

  -- Not zero, and not NaN.
  abbrev pub IsSigned : F → Type 0
  IsSigned x = (less x (of_int (pos 0)) ≡ true) ⊎ (less (of_int (pos 0)) x ≡ true)

  signf-neg : (x : F) → IsSymmetric ops → IsSigned x → signf ops (neg x) ≡ neg (signf ops x)
  unfolding signf
  signf-neg x s (inl h) = ground (arith, s.less-neg x, s.less_asymm x, s.neg-neg (of_int (pos 1)))
  signf-neg x s (inr h) = ground (arith, s.less-neg x, s.less_asymm x, s.neg-neg (of_int (pos 1)))

  round8-neg : (x : F) → IsSymmetric ops → IsSigned x → round8 ops (neg x) ≡ neg (round8 ops x)
  unfolding round8
  round8-neg x s h =
      let scale : F = of_int (pos 100000000) in
      let half_unit : F = mul half (signf ops x) in
      cc (
        signf-neg x s h,
        s.mul-neg_left x scale,
        s.mul-neg_right half (signf ops x),
        s.add-neg (mul x scale) half_unit,
        s.trunc-neg (add (mul x scale) half_unit),
        s.div-neg (trunc (add (mul x scale) half_unit)) scale,
      )

  abbrev pub outcome_of : Option F → Option String
  outcome_of none = none
  outcome_of (some p) = some (if less p (of_int (pos 0)) then outcome_loss else outcome_win)

  -- The two results of derive agree: there is a profit exactly when the trade is closed and has an
  -- exit price, and the outcome is null without a profit, a loss exactly when the profit is
  -- negative, and a win otherwise.
  pub derive_consistent :
      (i : TradeInput F)
      → (((i.status ≡ status_closed) × (i.exit_price ≢ none)) ↔ ((derive ops i).pnl ≢ none))
        × ((derive ops i).outcome ≡ outcome_of (derive ops i).pnl)
  unfolding derive
  derive_consistent i = ground (arith, eq_iff i.status status_closed)

  -- A closed short trade has minus the profit of the same trade held long, where the product of
  -- price difference and quantity is neither 0 nor NaN and rounding is symmetric.
  pnl-short :
      (i : TradeInput F) (exit_price : F)
      → IsSymmetric ops
      → i.status ≡ status_closed
      → i.exit_price ≡ some exit_price
      → IsSigned (mul (sub exit_price i.entry_price) i.quantity)
      → (derive ops (record i { direction = dir_short })).pnl
        ≡ Option.map neg (derive ops (record i { direction = dir_long })).pnl
  unfolding derive signed_delta
  pnl-short i exit_price s closed at signed =
      let x : F = mul (sub exit_price i.entry_price) i.quantity in
      ground (
        arith,
        eq_iff i.status status_closed,
        s.mul-neg_left (sub exit_price i.entry_price) i.quantity,
        round8-neg x s signed,
      )
