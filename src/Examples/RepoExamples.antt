-- ===== src/Examples/RepoExamples.antt =====
-- Concrete instances of the theorems on the trades repository as a store, on a posted id that is
-- stored already, and on GET /users/{userId}/metrics.
use trading_platform_backend.Prelude.{◌≡◌, refl, true, none, some, List, [], ◌∷◌, count_rows}
use trading_platform_backend.Prelude.Int.{ℤ}
use trading_platform_backend.Database.{Db}
use trading_platform_backend.Database.Exec.{ok}
use trading_platform_backend.Httpx.{write_json}
use trading_platform_backend.Trades.Types.{Trade}
use trading_platform_backend.Trades.Validate.{
  validate, validate_status, validate_optional, known_asset_class, known_direction, known_status,
  bad_emotion,
}
use trading_platform_backend.Trades.Validate.Rules.{IsValid, validate-none_iff}
use trading_platform_backend.Trades.Repo.{
  derive, satisfies_checks, row_of, round8, signf, signed_delta,
}
use trading_platform_backend.Trades.Repo.Idempotence.{IsStorable}
use trading_platform_backend.Trades.Repo.Refinement.{
  Op, insert_op, get_op, flag_op, tick, view, run_ops, run_spec, run_ops-refines,
}
use trading_platform_backend.Trades.Handler.{decoded, create}
use trading_platform_backend.Trades.Handler.Collision.{create-stored}
use trading_platform_backend.Metrics.Buckets.{Bucket, bucket_unit, hour, in_range, load_buckets}
use trading_platform_backend.Metrics.Buckets.Partition.{
  Ascending, times_of, total_count, load_buckets-Ascending,
}
use trading_platform_backend.Metrics.Query.{QueryValues, get_metrics}
use trading_platform_backend.Metrics.Query.Answers.{QueryAnswer, get_metrics-QueryAnswer}
use trading_platform_backend.Examples.{
  whole_floats, any_numeric, unary_ids, unary_times, sold, sold_row, lost_row, opened_row,
  with_trades, as_trader,
}

-- A trade of user 8 with the id of the body `sold`.
abbrev foreign_row : Trade ℤ
foreign_row = record sold_row { input = record sold { user_id = 8 } }

sold-IsValid : IsValid whole_floats sold
unfolding validate validate_status validate_optional known_asset_class known_direction known_status
    bad_emotion
sold-IsValid = (validate-none_iff whole_floats sold).0 refl

sold-IsStorable : IsStorable whole_floats any_numeric sold 100 sold_row
unfolding derive row_of satisfies_checks round8 signf signed_delta known_asset_class known_direction
    known_status bad_emotion
sold-IsStorable = (refl, refl, refl)

create-stored_example :
    create whole_floats any_numeric unary_ids true as_trader
      (decoded sold)
      (with_trades (foreign_row ∷ []))
    ≡ (
      record { response = write_json 200 foreign_row; publishes = none },
      with_trades (foreign_row ∷ []),
    )
create-stored_example =
    create-stored whole_floats any_numeric unary_ids true as_trader sold
      (with_trades (foreign_row ∷ [])) foreign_row sold_row sold-IsValid refl refl sold-IsStorable
      refl

abbrev calls : List (Op ℤ)
calls = get_op 1 ∷ insert_op sold ∷ tick 200 ∷ insert_op sold ∷ flag_op 1 true ∷ get_op 1 ∷ []

run_ops-refines_example :
    ((run_ops whole_floats any_numeric calls (with_trades (lost_row ∷ []))).0
      ≡ (run_spec whole_floats any_numeric calls
          (view whole_floats any_numeric (with_trades (lost_row ∷ [])))).0)
    × (view whole_floats any_numeric
          (run_ops whole_floats any_numeric calls (with_trades (lost_row ∷ []))).1
        ≡ (run_spec whole_floats any_numeric calls
            (view whole_floats any_numeric (with_trades (lost_row ∷ [])))).1)
run_ops-refines_example =
    run_ops-refines whole_floats any_numeric calls (with_trades (lost_row ∷ [])) refl

abbrev traded : Db ℤ
traded = with_trades (opened_row ∷ sold_row ∷ lost_row ∷ [])

has_hour : bucket_unit "hourly" ≡ some hour
unfolding bucket_unit
has_hour = refl

load_buckets-Ascending_example :
    (bs : List (Bucket ℤ)) × (load_buckets whole_floats any_numeric 7 0 hour "hourly" traded
      ≡ (ok bs, traded))
    × Ascending (times_of bs)
    × (total_count bs ≡ count_rows (in_range 7 0 hour) traded.trades)
load_buckets-Ascending_example =
    load_buckets-Ascending whole_floats any_numeric 7 0 hour "hourly" hour traded refl has_hour

abbrev pub daily : QueryValues
daily = record { from_text = "1"; to_text = "111"; granularity_text = "daily" }

get_metrics-QueryAnswer_example :
    QueryAnswer whole_floats any_numeric unary_ids unary_times
      (λ s. s)
      as_trader
      "1111111"
      daily
      traded
      (get_metrics whole_floats any_numeric unary_ids unary_times
        (λ s. s)
        as_trader
        "1111111"
        daily
        traded)
get_metrics-QueryAnswer_example =
    get_metrics-QueryAnswer whole_floats any_numeric unary_ids unary_times (λ s. s) as_trader
      "1111111" daily traded refl
