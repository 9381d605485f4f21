-- ===== src/Examples/TradeExamples.antt =====
-- Concrete instances of the theorems on trades.
use trading_platform_backend.Prelude.{◌≡◌, ◌↔◌, refl, true, none, [], ◌∷◌, arith}
use trading_platform_backend.Prelude.Int.{ℤ, pos, negsuc, ◌+ℤ◌, ◌-ℤ◌, ◌*ℤ◌, quotient, ltb_ℤ}
use trading_platform_backend.Database.Exec.{ok}
use trading_platform_backend.Trades.Validate.{
  validate, known_asset_class, known_direction, known_status, bad_emotion,
}
use trading_platform_backend.Trades.Validate.Rules.{IsValid, validate-none_iff}
use trading_platform_backend.Trades.Repo.{
  derive, insert, satisfies_checks, row_of, round8, signf, signed_delta,
}
use trading_platform_backend.Trades.Repo.Outcome.{IsSymmetric}
use trading_platform_backend.Trades.Repo.Idempotence.{Inserted, insert-Inserted, IsTable}
use trading_platform_backend.Trades.Handler.{decoded, create, get_trade}
use trading_platform_backend.Trades.Handler.Tenancy.{
  GetAnswer, get_trade-GetAnswer, CreateAnswer, create-CreateAnswer, OwnRowOnly, create-OwnRowOnly,
}
use trading_platform_backend.Examples.{
  whole_floats, any_numeric, unary_ids, sold, sold_row, lost_row, with_trades, as_trader,
}

validate-none_iff_example : (validate whole_floats sold ≡ none) ↔ IsValid whole_floats sold
validate-none_iff_example = validate-none_iff whole_floats sold

insert-Inserted_example :
    Inserted whole_floats any_numeric sold
      (with_trades (lost_row ∷ []))
      (insert whole_floats any_numeric sold (with_trades (lost_row ∷ []))).0
      (insert whole_floats any_numeric sold (with_trades (lost_row ∷ []))).1
insert-Inserted_example =
    insert-Inserted whole_floats any_numeric sold (with_trades (lost_row ∷ []))

lost_row-IsTable : IsTable whole_floats any_numeric (lost_row ∷ [])
unfolding satisfies_checks known_asset_class known_direction known_status bad_emotion
lost_row-IsTable = record { distinct = (refl, tt); checked = (refl, tt) }

sold_inserted :
    (insert whole_floats any_numeric sold (with_trades (lost_row ∷ []))).0 ≡ ok (sold_row, true)
unfolding insert derive row_of satisfies_checks round8 signf signed_delta known_asset_class
    known_direction known_status bad_emotion
sold_inserted = refl

get_trade-GetAnswer_example :
    let db = with_trades (lost_row ∷ []) in
    ((get_trade unary_ids as_trader "11" db).1 ≡ db)
    × GetAnswer unary_ids as_trader "11" db (get_trade unary_ids as_trader "11" db).0
get_trade-GetAnswer_example =
    get_trade-GetAnswer unary_ids as_trader "11" (with_trades (lost_row ∷ [])) refl

create-CreateAnswer_example :
    let db = with_trades (lost_row ∷ []) in
    let r = create whole_floats any_numeric unary_ids true as_trader (decoded sold) db in
    CreateAnswer whole_floats any_numeric unary_ids true as_trader sold db r.0 r.1
create-CreateAnswer_example =
    create-CreateAnswer whole_floats any_numeric unary_ids true as_trader sold
      (with_trades (lost_row ∷ []))

create-OwnRowOnly_example :
    OwnRowOnly whole_floats any_numeric unary_ids as_trader
      (with_trades (lost_row ∷ []))
      (create whole_floats any_numeric unary_ids true as_trader
        (decoded sold)
        (with_trades (lost_row ∷ []))).1
create-OwnRowOnly_example =
    create-OwnRowOnly whole_floats any_numeric unary_ids true as_trader (decoded sold)
      (with_trades (lost_row ∷ []))

neg_neg : (x : ℤ) → pos 0 -ℤ (pos 0 -ℤ x) ≡ x
neg_neg (pos n) = ground arith
neg_neg (negsuc n) = ground arith

neg_left : (x y : ℤ) → (pos 0 -ℤ x) *ℤ y ≡ pos 0 -ℤ x *ℤ y
neg_left (pos a) (pos b) = ground arith
neg_left (pos a) (negsuc b) = ground arith
neg_left (negsuc a) (pos b) = ground arith
neg_left (negsuc a) (negsuc b) = ground arith

neg_right : (x y : ℤ) → x *ℤ (pos 0 -ℤ y) ≡ pos 0 -ℤ x *ℤ y
neg_right (pos a) (pos b) = ground arith
neg_right (pos a) (negsuc b) = ground arith
neg_right (negsuc a) (pos b) = ground arith
neg_right (negsuc a) (negsuc b) = ground arith

neg_add : (x y : ℤ) → (pos 0 -ℤ x) +ℤ (pos 0 -ℤ y) ≡ pos 0 -ℤ (x +ℤ y)
neg_add (pos a) (pos b) = ground arith
neg_add (pos a) (negsuc b) = ground arith
neg_add (negsuc a) (pos b) = ground arith
neg_add (negsuc a) (negsuc b) = ground arith

neg_div : (x y : ℤ) → quotient (pos 0 -ℤ x) y ≡ pos 0 -ℤ quotient x y
neg_div (pos a) (pos b) = ground arith
neg_div (pos a) (negsuc b) = ground arith
neg_div (negsuc a) (pos b) = ground arith
neg_div (negsuc a) (negsuc b) = ground arith

less_neg : (x : ℤ) → ltb_ℤ (pos 0 -ℤ x) (pos 0) ≡ ltb_ℤ (pos 0) x
less_neg (pos n) = ground arith
less_neg (negsuc n) = ground arith

-- The whole numbers have the symmetry that a short trade's profit needs.
whole_floats-IsSymmetric : IsSymmetric whole_floats
whole_floats-IsSymmetric = record {
  neg-neg = λ x. neg_neg x;
  mul-neg_left = λ x y. neg_left x y;
  mul-neg_right = λ x y. neg_right x y;
  add-neg = λ x y. neg_add x y;
  div-neg = λ x y. neg_div x y;
  trunc-neg = λ x. refl;
  less-neg = λ x. less_neg x;
  less_asymm = λ x h. ground arith;
}
